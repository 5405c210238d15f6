-- ===== src/Match/Fix/Lowest.antt =====
-- What `FixFor` of internal/match/fix.go chooses: the lowest listed bound above the version that is
-- installed.
use pkgwatch.Base.{
  Ordering, Bool, true, false, ◌||◌, List, [], ◌∷◌, ◌≡◌, refl, sym, ◌∙◌, ◌≢◌, ◌⊎◌, inl, inr,
  Bool-cases, if◌then◌else◌, All, Any, IsOrder, Always,
}
use mathlib.Core.Path.{subst}
use pkgwatch.Base.Text.{Text, text_eq, is_empty}
use pkgwatch.Version.{Result, ok}
use pkgwatch.Match.{Range, Advisory, Package, Comparator, kind_malware}
use pkgwatch.Match.Ecosystem.{comparator_from}
use pkgwatch.Match.Fix.Below.{is_below_refl, not_below_trans, is_below_asym}
use pkgwatch.Match.Fix.{says_above, says_below, best_from, fix_with, fix_for}

true≢false : true ≢ false
true≢false h = cc

module _ {V : Type 0} (parse : Text → Result V) (cmp : V → V → Ordering)
    (order : IsOrder Always cmp) (version : Text) where
  abbrev compare : Comparator
  compare = comparator_from parse cmp

  abbrev is_above : Text → Bool
  is_above s = says_above (compare s version)

  abbrev is_below : Text → Text → Bool
  is_below s t = says_below (compare s t)

  -- No bound of the range is lower than `f`, of those above the installed version.
  abbrev Min : Text → Range → Type 0
  Min f r = (is_empty r.fixed ≡ true) ⊎ (is_above r.fixed ≡ false) ⊎ (is_below r.fixed f ≡ false)

  abbrev Chosen : List Range → Text → Text → Type 0
  Chosen rs best f =
      (is_empty f ≡ false)
      × (is_above f ≡ true)
      × (is_below best f ≡ false)
      × All (Min f) rs
      × ((f ≡ best) ⊎ Any (λ r. r.fixed ≡ f) rs)

  skip :
      (r : Range) (rs : List Range) (best f : Text)
      → Min f r
      → Chosen rs best f
      → Chosen (r ∷ rs) best f
  skip r rs best f m (full, above, below, all, from) = (full, above, below, (m, all), later from)
    where
      later :
          (f ≡ best) ⊎ Any (λ r. r.fixed ≡ f) rs
          → (f ≡ best) ⊎ ((r.fixed ≡ f) ⊎ Any (λ r. r.fixed ≡ f) rs)
      later (inl e) = inl e
      later (inr a) = inr (inr a)

  take_lower :
      (r : Range) (rs : List Range) (best f : Text)
      → is_above r.fixed ≡ true
      → is_below best r.fixed ≡ false
      → Chosen rs r.fixed f
      → Chosen (r ∷ rs) best f
  take_lower r rs best f up lower (full, above, below, all, from) = (
    full,
    above,
    not_below_trans parse cmp order version best r.fixed f up lower below,
    (inr (inr below), all),
    later from,
  )
    where
      later :
          (f ≡ r.fixed) ⊎ Any (λ r. r.fixed ≡ f) rs
          → (f ≡ best) ⊎ ((r.fixed ≡ f) ⊎ Any (λ r. r.fixed ≡ f) rs)
      later (inl e) = inr (inl (sym e))
      later (inr a) = inr (inr a)

  abbrev best_of : List Range → Text → Text
  best_of rs best = best_from compare version best rs

  module _ (r : Range) (rs : List Range) (best : Text) where
    step_empty : is_empty r.fixed ≡ true → best_of (r ∷ rs) best ≡ best_of rs best
    unfolding best_from
    step_empty e = rw e

    step_not_above :
        is_empty r.fixed ≡ false
        → is_above r.fixed ≡ false
        → best_of (r ∷ rs) best ≡ best_of rs best
    unfolding best_from
    step_not_above e a = rw (e, a)

    step_above :
        is_empty r.fixed ≡ false
        → is_above r.fixed ≡ true
        → best_of (r ∷ rs) best
          ≡ (if is_empty best || is_below r.fixed best then best_of rs r.fixed else best_of rs best)
    unfolding best_from
    step_above e a = rw (e, a)

  best_from_lem :
      (rs : List Range) (best : Text)
      → is_empty best ≡ false
      → is_above best ≡ true
      → Chosen rs best (best_of rs best)
  unfolding best_from
  best_from_lem [] best full above =
      (full, above, is_below_refl parse cmp order version best, tt, inl refl)
  best_from_lem (r ∷ rs) best full above =
      go (best_from_lem rs best full above) (best_from_lem rs r.fixed)
    where
      To : Text → Type 0
      To f = Chosen (r ∷ rs) best f

      go :
          Chosen rs best (best_of rs best)
          → (is_empty r.fixed ≡ false
              → is_above r.fixed ≡ true
              → Chosen rs r.fixed (best_of rs r.fixed))
          → Chosen (r ∷ rs) best (best_of (r ∷ rs) best)
      go same lower = elim (Bool-cases (is_empty r.fixed)) [
        | inl e ↦
            subst To (sym (step_empty r rs best e)) (skip r rs best (best_of rs best) (inl e) same)
        | inr e ↦ elim (Bool-cases (is_above r.fixed)) [
          | inr a ↦
              subst To (sym (step_not_above r rs best e a))
                (skip r rs best (best_of rs best) (inr (inl a)) same)
          | inl a ↦ elim (Bool-cases (is_below r.fixed best)) [
            | inl b ↦ subst To (sym (step_above r rs best e a ∙ rw (full, b))) (
                take_lower r rs best (best_of rs r.fixed) a
                  (is_below_asym parse cmp order version r.fixed best b) (lower e a))
            | inr b ↦ subst To (sym (step_above r rs best e a ∙ rw (full, b))) (
                skip r rs best (best_of rs best)
                  (inr (
                    inr (
                      not_below_trans parse cmp order version r.fixed best (best_of rs best) above b
                        same.2)))
                  same)
          ]
        ]
      ]

  -- A bound that is listed and above the installed version, and no listed bound above the
  -- installed version is lower.
  pub record IsLowestAbove (rs : List Range) (f : Text) : Type 0 where
    pub listed : Any (λ r. r.fixed ≡ f) rs
    pub full : is_empty f ≡ false
    pub above : says_above (comparator_from parse cmp f version) ≡ true
    pub lowest :
        All
          (λ r.
            (is_empty r.fixed ≡ true)
            ⊎ (says_above (comparator_from parse cmp r.fixed version) ≡ false)
            ⊎ (says_below (comparator_from parse cmp r.fixed f) ≡ false))
          rs

  -- A fixed bound above the installed version.
  unfoldable pub IsUpgrade : Range → Type 0
  IsUpgrade r = (is_empty r.fixed ≡ false) × (is_above r.fixed ≡ true)

  after_skip :
      (r : Range) (rs : List Range) (f : Text)
      → Min f r
      → IsLowestAbove rs f
      → IsLowestAbove (r ∷ rs) f
  after_skip r rs f m h = record {
    listed = inr h.listed;
    full = h.full;
    above = h.above;
    lowest = (m, h.lowest);
  }

  after_first :
      (r : Range) (rs : List Range) (f : Text) → Chosen rs r.fixed f → IsLowestAbove (r ∷ rs) f
  after_first r rs f (full, above, below, all, from) = record {
    listed = elim from [ inl e ↦ inl (sym e) | inr a ↦ inr a ];
    full = full;
    above = above;
    lowest = (inr (inr below), all);
  }

  best_from-IsLowestAbove : (rs : List Range) → Any IsUpgrade rs → IsLowestAbove rs (best_of rs [])
  unfolding IsUpgrade
  best_from-IsLowestAbove (r ∷ rs) h = go (best_from-IsLowestAbove rs)
    where
      go :
          (Any IsUpgrade rs → IsLowestAbove rs (best_of rs []))
          → IsLowestAbove (r ∷ rs) (best_of (r ∷ rs) [])
      go ih = elim (Bool-cases (is_empty r.fixed)) [
        | inl e ↦ subst (IsLowestAbove (r ∷ rs)) (sym (step_empty r rs [] e)) (
            after_skip r rs _ (inl e)
              (ih (elim h [ inl u ↦ absurd (true≢false (sym e ∙ u.0)) | inr a ↦ a ])))
        | inr e ↦ elim (Bool-cases (is_above r.fixed)) [
          | inr n ↦ subst (IsLowestAbove (r ∷ rs)) (sym (step_not_above r rs [] e n)) (
              after_skip r rs _ (inr (inl n))
                (ih (elim h [ inl u ↦ absurd (true≢false (sym u.1 ∙ n)) | inr a ↦ a ])))
          | inl a ↦
              subst (IsLowestAbove (r ∷ rs)) (sym (step_above r rs [] e a))
                (after_first r rs _ (best_from_lem rs r.fixed e a))
        ]
      ]
  best_from-IsLowestAbove [] h = absurd h

module _ {V : Type 0} (parse : Text → Result V) (cmp : V → V → Ordering)
    (order : IsOrder Always cmp) where
  -- If the advisory is no malware, its ecosystem has a comparator that parses and then orders
  -- versions, and it has a fixed bound above the installed version, `FixFor` names a listed bound
  -- above the installed version than which no listed bound above it is lower.
  pub fix_for-IsLowestAbove :
      {Num : Type 0} (comparator_for : Text → Result Comparator) (adv : Advisory Num)
      (pkg : Package)
      → comparator_for adv.ecosystem ≡ ok (comparator_from parse cmp)
      → text_eq adv.kind kind_malware ≡ false
      → Any (IsUpgrade parse cmp order pkg.version) adv.ranges
      → IsLowestAbove parse cmp order pkg.version adv.ranges (fix_for comparator_for adv pkg)
  unfolding fix_for fix_with
  fix_for-IsLowestAbove comparator_for adv pkg found kind upgrades =
      let best = best_from-IsLowestAbove parse cmp order pkg.version adv.ranges upgrades in
      rw (kind, found, best.full) best
