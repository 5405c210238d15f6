-- ===== src/Match/Affects.antt =====
-- internal/match/match.go: `Affects` and `inRange`.
pub mod Spec
use pkgwatch.Base.{
  Ordering, lt, eq, gt, Bool, true, false, ◌||◌, List, [], ◌∷◌, Option, none, some, if◌then◌else◌,
  ◌≡◌,
}
use pkgwatch.Base.Text.{Text, codes, text_eq, is_empty}
use pkgwatch.Version.{Result, ok, err, ParseError, ◌>>=◌}
use pkgwatch.Match.{Range, Advisory, Package, Comparator}

-- One bound: an error, a version outside it, or `rest`.
unfoldable pub check_bound : Bool → Result Ordering → (Ordering → Bool) → Result Bool → Result Bool
check_bound true compared outside rest = rest
check_bound false (err e) outside rest = err e
check_bound false (ok c) outside rest = if outside c then ok false else rest

abbrev pub is_lt : Ordering → Bool
is_lt c = elim c [ Ordering.lt ↦ true | _ ↦ false ]

abbrev pub is_gt : Ordering → Bool
is_gt c = elim c [ Ordering.gt ↦ true | _ ↦ false ]

abbrev pub is_ge : Ordering → Bool
is_ge c = elim c [ Ordering.lt ↦ false | _ ↦ true ]

-- No lower bound, or the beginning of time.
unfoldable pub unbounded_below : Text → Bool
unfolding text_eq
unbounded_below introduced = is_empty introduced || text_eq introduced (codes "0")

-- `inRange`
unfoldable pub in_range : Comparator → Text → Range → Result Bool
unfolding check_bound unbounded_below
in_range cmp version r =
    check_bound (unbounded_below r.introduced) (cmp version r.introduced) is_lt (
      check_bound (is_empty r.fixed) (cmp version r.fixed) is_ge
        (check_bound (is_empty r.last_affected) (cmp version r.last_affected) is_gt (ok true)))

abbrev pub is_eq : Result Ordering → Bool
is_eq (ok Ordering.eq) = true
is_eq (ok Ordering.lt) = false
is_eq (ok Ordering.gt) = false
is_eq (err e) = false

-- The loop over the exact versions.
unfoldable pub exact_hit : Comparator → Text → List Text → Bool
unfolding text_eq
exact_hit cmp version [] = false
exact_hit cmp version (v ∷ vs) =
    text_eq v version || is_eq (cmp version v) || exact_hit cmp version vs

abbrev keep_first : Option ParseError → ParseError → Option ParseError
keep_first none e = some e
keep_first (some first) e = some first

-- The loop over the ranges, with the first error so far.
unfoldable pub range_hit :
    Comparator → Text → List Range → Option ParseError → Bool × Option ParseError
range_hit cmp version [] first_err = (false, first_err)
range_hit cmp version (r ∷ rs) first_err = elim (in_range cmp version r) [
  | err e ↦ range_hit cmp version rs (keep_first first_err e)
  | ok true ↦ (true, none)
  | ok false ↦ range_hit cmp version rs first_err
]

-- `Affects` from the comparator on: the loop over the exact versions, then the ranges.
unfoldable pub affects_with :
    {Num : Type 0} → Result Comparator → Advisory Num → Package → Bool × Option ParseError
affects_with (err e) adv pkg = (false, some e)
affects_with (ok cmp) adv pkg =
    if exact_hit cmp pkg.version adv.versions
    then (true, none)
    else range_hit cmp pkg.version adv.ranges none

-- `Affects`
unfoldable pub affects :
    {Num : Type 0} → (Text → Result Comparator) → Advisory Num → Package → Bool × Option ParseError
affects comparator_for adv pkg =
    if adv.withdrawn then (false, none) else affects_with (comparator_for adv.ecosystem) adv pkg
