-- ===== src/Match/Fix.antt =====
-- internal/match/fix.go: the version to move to.
pub mod Below
pub mod Lowest
use pkgwatch.Base.{
  Ordering, lt, eq, gt, Bool, true, false, ◌&&◌, ◌||◌, List, [], ◌∷◌, Option, if◌then◌else◌, ◌≡◌,
}
use pkgwatch.Base.Text.{Text, codes, text_eq, text_compare, is_empty}
use pkgwatch.Version.{Result, ok, err}
use pkgwatch.Match.{Range, Advisory, Package, Comparator, kind_malware}

-- A comparison that succeeds with the given answer.
abbrev pub says_above : Result Ordering → Bool
says_above (ok Ordering.gt) = true
says_above (ok Ordering.lt) = false
says_above (ok Ordering.eq) = false
says_above (err e) = false

abbrev pub says_below : Result Ordering → Bool
says_below (ok Ordering.lt) = true
says_below (ok Ordering.gt) = false
says_below (ok Ordering.eq) = false
says_below (err e) = false

-- `a < b` of Go texts.
abbrev pub text_less : Text → Text → Bool
text_less a b = elim (text_compare a b) [ Ordering.lt ↦ true | _ ↦ false ]

-- The loop of `lowestFix`.
unfoldable pub lowest_from : Text → List Range → Text
unfolding text_compare
lowest_from fix [] = fix
lowest_from fix (r ∷ rs) =
    if is_empty r.fixed
    then lowest_from fix rs
    else if is_empty fix || text_less r.fixed fix
    then lowest_from r.fixed rs
    else lowest_from fix rs

-- `lowestFix`
unfoldable pub lowest_fix : {Num : Type 0} → Advisory Num → Text
unfolding text_eq lowest_from
lowest_fix adv = if text_eq adv.kind kind_malware then [] else lowest_from [] adv.ranges

-- The loop of `FixFor`.
unfoldable pub best_from : Comparator → Text → Text → List Range → Text
best_from compare version best [] = best
best_from compare version best (r ∷ rs) =
    if is_empty r.fixed
    then best_from compare version best rs
    else if says_above (compare r.fixed version)
    then (if is_empty best || says_below (compare r.fixed best)
        then best_from compare version r.fixed rs
        else best_from compare version best rs)
    else best_from compare version best rs

-- `FixFor` with a comparator.
unfoldable pub fix_with : {Num : Type 0} → Comparator → Advisory Num → Package → Text
unfolding best_from lowest_fix
fix_with compare adv pkg =
    let best = best_from compare pkg.version [] adv.ranges in
    if is_empty best then lowest_fix adv else best

-- `FixFor`
unfoldable pub fix_for : {Num : Type 0} → (Text → Result Comparator) → Advisory Num → Package → Text
unfolding text_eq fix_with lowest_fix
fix_for comparator_for adv pkg =
    if text_eq adv.kind kind_malware then [] else elim (comparator_for adv.ecosystem) [
      | err e ↦ lowest_fix adv
      | ok compare ↦ fix_with compare adv pkg
    ]
