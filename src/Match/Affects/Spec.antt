-- ===== src/Match/Affects/Spec.antt =====
-- When an advisory affects a package: `Affects` of internal/match/match.go against its meaning.
use pkgwatch.Base.{
  Ordering, lt, eq, gt, Bool, true, false, List, [], ◌∷◌, Option, none, some, if◌then◌else◌, ◌≡◌,
  refl, sym, ◌≢◌, ◌⊎◌, inl, inr, ◌↔◌, All, Any, arith, Bool-cases, ◌∙◌, ap,
}
use pkgwatch.Base.Text.{Text, codes, text_eq, is_empty}
use pkgwatch.Base.Text.Laws.{text_eq-eq, text_eq_refl}
use pkgwatch.Version.{Result, ok, err, ParseError, Result-cases}
use pkgwatch.Match.{Range, Advisory, Package, Comparator}
use pkgwatch.Match.Affects.{
  check_bound, unbounded_below, in_range, is_eq, exact_hit, range_hit, affects_with, affects, is_lt,
  is_gt, is_ge, keep_first,
}

-- `version` is at or above the introduced bound, below the fixed bound, and at or below the last
-- affected one, for the bounds that are present.
pub record Contains (cmp : Comparator) (version : Text) (r : Range) : Type 0 where
  pub from_introduced :
      (r.introduced ≡ [])
      ⊎ (r.introduced ≡ codes "0")
      ⊎ (cmp version r.introduced ≡ ok eq)
      ⊎ (cmp version r.introduced ≡ ok gt)
  pub before_fixed : (r.fixed ≡ []) ⊎ (cmp version r.fixed ≡ ok lt)
  pub to_last_affected :
      (r.last_affected ≡ [])
      ⊎ (cmp version r.last_affected ≡ ok lt)
      ⊎ (cmp version r.last_affected ≡ ok eq)

-- The version is listed, or ties with a listed one, or lies in a range.
abbrev pub Covers : {Num : Type 0} → Comparator → Advisory Num → Text → Type 0
Covers cmp adv version =
    Any (λ v. (v ≡ version) ⊎ (cmp version v ≡ ok eq)) adv.versions
    ⊎ Any (Contains cmp version) adv.ranges

module _ (s : Text) (c : Result Ordering) (rest : Result Bool) where
  lower_iff :
      (check_bound (unbounded_below s) c is_lt rest ≡ ok true)
      ↔ (((s ≡ []) ⊎ (s ≡ codes "0") ⊎ (c ≡ ok eq) ⊎ (c ≡ ok gt)) × (rest ≡ ok true))
  unfolding check_bound unbounded_below
  lower_iff =
      (λ h. ground (arith, text_eq-eq s (codes "0")), λ h. ground (arith, text_eq_refl (codes "0")))

  upper_iff :
      (check_bound (is_empty s) c is_ge rest ≡ ok true)
      ↔ (((s ≡ []) ⊎ (c ≡ ok lt)) × (rest ≡ ok true))
  unfolding check_bound
  upper_iff = (λ h. ground arith, λ h. ground arith)

  last_iff :
      (check_bound (is_empty s) c is_gt rest ≡ ok true)
      ↔ (((s ≡ []) ⊎ (c ≡ ok lt) ⊎ (c ≡ ok eq)) × (rest ≡ ok true))
  unfolding check_bound
  last_iff = (λ h. ground arith, λ h. ground arith)

-- `inRange` holds exactly of the versions between the bounds that are present.
in_range-iff-Contains :
    (cmp : Comparator) (version : Text) (r : Range)
    → (in_range cmp version r ≡ ok true) ↔ Contains cmp version r
unfolding in_range
in_range-iff-Contains cmp version r = (
  λ h.
      let (low, h1) = (lower_iff r.introduced (cmp version r.introduced) _).0 h in
      let (up, h2) = (upper_iff r.fixed (cmp version r.fixed) _).0 h1 in
      let (last, _) = (last_iff r.last_affected (cmp version r.last_affected) _).0 h2 in
      record { from_introduced = low; before_fixed = up; to_last_affected = last },
  λ h. (lower_iff r.introduced (cmp version r.introduced) _).1 (
    h.from_introduced,
    (upper_iff r.fixed (cmp version r.fixed) _).1 (
      h.before_fixed,
      (last_iff r.last_affected (cmp version r.last_affected) _).1 (h.to_last_affected, refl),
    ),
  ),
)

is_eq-ok : (c : Result Ordering) → is_eq c ≡ true → c ≡ ok eq
is_eq-ok c h = ground arith

eq-text_eq : (s t : Text) → s ≡ t → text_eq s t ≡ true
eq-text_eq s t e = rw e (text_eq_refl t)

exact_hit_iff :
    (cmp : Comparator) (version : Text) (vs : List Text)
    → (exact_hit cmp version vs ≡ true) ↔ Any (λ v. (v ≡ version) ⊎ (cmp version v ≡ ok eq)) vs
unfolding exact_hit
exact_hit_iff cmp version [] = (λ h. absurd (cc), λ h. absurd h)
exact_hit_iff cmp version (v ∷ vs) =
    let (to, from) = exact_hit_iff cmp version vs in
    (
      λ h. ground (arith, text_eq-eq v version, to, is_eq-ok (cmp version v)),
      λ h. ground (arith, eq-text_eq v version, from),
    )

range_hit_iff :
    (cmp : Comparator) (version : Text) (rs : List Range) (e : Option ParseError)
    → ((range_hit cmp version rs e).0 ≡ true) ↔ Any (Contains cmp version) rs
unfolding range_hit
range_hit_iff cmp version [] e = (λ h. absurd (cc), λ h. absurd h)
range_hit_iff cmp version (r ∷ rs) e =
    go (in_range cmp version r) refl (range_hit_iff cmp version rs)
  where
    Found : Option ParseError → Type 0
    Found first = ((range_hit cmp version rs first).0 ≡ true) ↔ Any (Contains cmp version) rs

    miss :
        (first : Option ParseError)
        → range_hit cmp version (r ∷ rs) e ≡ range_hit cmp version rs first
        → ¬ (in_range cmp version r ≡ ok true)
        → Found first
        → ((range_hit cmp version (r ∷ rs) e).0 ≡ true)
          ↔ (Contains cmp version r ⊎ Any (Contains cmp version) rs)
    miss first step out found = (
      λ h. inr (found.0 (ap (λ p. p.0) (sym step) ∙ h)),
      λ h. ap (λ p. p.0) step ∙ found.1 (other h),
    )
      where
        other :
            Contains cmp version r ⊎ Any (Contains cmp version) rs → Any (Contains cmp version) rs
        other (inl c) = absurd (out ((in_range-iff-Contains cmp version r).1 c))
        other (inr a) = a

    go :
        (x : Result Bool)
        → in_range cmp version r ≡ x
        → ((first : Option ParseError) → Found first)
        → ((range_hit cmp version (r ∷ rs) e).0 ≡ true)
          ↔ (Contains cmp version r ⊎ Any (Contains cmp version) rs)
    go (ok true) q found =
        (λ _. inl ((in_range-iff-Contains cmp version r).0 q), λ _. rw (q, range_hit))
    go (ok false) q found = miss e (rw (q, range_hit)) (λ t. cc) (found e)
    go (err x) q found =
        miss (keep_first e x) (rw (q, range_hit)) (λ t. cc) (found (keep_first e x))

true≢false : true ≢ false
true≢false h = cc

clean_ranges :
    (cmp : Comparator) (version : Text) (rs : List Range) (e : Option ParseError)
    → range_hit cmp version rs e ≡ (false, none)
    → (e ≡ none) × All (λ r. in_range cmp version r ≡ ok false) rs
unfolding range_hit
clean_ranges cmp version [] e h = (ap (λ p. p.1) h, tt)
clean_ranges cmp version (r ∷ rs) e h =
    go (in_range cmp version r) refl (clean_ranges cmp version rs)
  where
    go :
        (x : Result Bool)
        → in_range cmp version r ≡ x
        → ((first : Option ParseError)
            → range_hit cmp version rs first ≡ (false, none)
            → (first ≡ none) × All (λ r. in_range cmp version r ≡ ok false) rs)
        → (e ≡ none)
          × ((in_range cmp version r ≡ ok false) × All (λ r. in_range cmp version r ≡ ok false) rs)
    go (ok true) q ih = absurd (true≢false (ap (λ p. p.0) (rw (q, range_hit) at h)))
    go (ok false) q ih = let (first, rest) = ih e (rw (q, range_hit) at h) in (first, (q, rest))
    go (err x) q ih =
        let (first, rest) = ih (keep_first e x) (rw (q, range_hit) at h) in absurd (kept e x first)
      where
        kept : (o : Option ParseError) (y : ParseError) → ¬ (keep_first o y ≡ none)
        kept none y k = cc
        kept (some z) y k = cc

module _ {Num : Type 0} (comparator_for : Text → Result Comparator) (adv : Advisory Num)
    (pkg : Package) where
  module _ (c : Comparator) (found : comparator_for adv.ecosystem ≡ ok c)
      (live : adv.withdrawn ≡ false) where
    affects_live : affects comparator_for adv pkg ≡ (
        if exact_hit c pkg.version adv.versions
        then (true, none)
        else range_hit c pkg.version adv.ranges none)
    unfolding affects affects_with
    affects_live = rw (live, found)

    hit_with : ((affects comparator_for adv pkg).0 ≡ true) ↔ Covers c adv pkg.version
    hit_with = rw affects_live (to (exact_hit c pkg.version adv.versions) refl)
      where
        ranges :
            ((range_hit c pkg.version adv.ranges none).0 ≡ true)
            ↔ Any (Contains c pkg.version) adv.ranges
        ranges = range_hit_iff c pkg.version adv.ranges none

        listed :
            (exact_hit c pkg.version adv.versions ≡ true)
            ↔ Any (λ v. (v ≡ pkg.version) ⊎ (c pkg.version v ≡ ok eq)) adv.versions
        listed = exact_hit_iff c pkg.version adv.versions

        to :
            (b : Bool)
            → exact_hit c pkg.version adv.versions ≡ b
            → ((if b then (true, none) else range_hit c pkg.version adv.ranges none).0 ≡ true)
              ↔ Covers c adv pkg.version
        to true q = (λ _. inl (listed.0 q), λ _. refl)
        to false q = (
          λ h. inr (ranges.0 h),
          λ h. elim h [ inl a ↦ absurd (true≢false (sym (listed.1 a) ∙ q)) | inr a ↦ ranges.1 a ],
        )

  withdrawn-false : adv.withdrawn ≡ true → (affects comparator_for adv pkg).0 ≡ false
  unfolding affects
  withdrawn-false gone = rw gone

  missing_lem :
      (e : ParseError)
      → comparator_for adv.ecosystem ≡ err e
      → adv.withdrawn ≡ false
      → affects comparator_for adv pkg ≡ (false, some e)
  unfolding affects affects_with
  missing_lem e missing live = rw (live, missing)

  -- `Affects` says that an advisory hits a package exactly if the advisory has not been withdrawn,
  -- its ecosystem has a comparator, and the advisory covers the version by that comparator: no
  -- bound that cannot be read hides a hit.
  pub affects-iff-Covers : ((affects comparator_for adv pkg).0 ≡ true) ↔ (
      (adv.withdrawn ≡ false)
      × ((c : Comparator) × (comparator_for adv.ecosystem ≡ ok c) × Covers c adv pkg.version))
  affects-iff-Covers = (
    λ h. to (Bool-cases adv.withdrawn) (Result-cases (comparator_for adv.ecosystem)) h,
    λ h. (hit_with h.1.0 h.1.1 h.0).1 h.1.2,
  )
    where
      to :
          (adv.withdrawn ≡ true) ⊎ (adv.withdrawn ≡ false)
          → ((c : Comparator) × (comparator_for adv.ecosystem ≡ ok c))
            ⊎ ((e : ParseError) × (comparator_for adv.ecosystem ≡ err e))
          → (affects comparator_for adv pkg).0 ≡ true
          → (adv.withdrawn ≡ false)
            × ((c : Comparator) × (comparator_for adv.ecosystem ≡ ok c) × Covers c adv pkg.version)
      to (inl gone) r h = absurd (true≢false (sym h ∙ withdrawn-false gone))
      to (inr live) (inl (c, found)) h = (live, (c, found, (hit_with c found live).0 h))
      to (inr live) (inr (e, missing)) h =
          absurd (true≢false (sym h ∙ ap (λ p. p.0) (missing_lem e missing live)))

  -- An answer "not affected" with no error is given only if the advisory has been withdrawn, or it
  -- has a comparator and every one of its ranges was evaluated and does not hold the version.
  pub affects_clean :
      affects comparator_for adv pkg ≡ (false, none)
      → adv.withdrawn ≡ false
      → (c : Comparator) × (comparator_for adv.ecosystem ≡ ok c)
        × All (λ r. in_range c pkg.version r ≡ ok false) adv.ranges
  affects_clean clean live = elim (Result-cases (comparator_for adv.ecosystem)) [
    | inl (c, found) ↦ (c, found, (clean_ranges c pkg.version adv.ranges none (ranges c found)).1)
    | inr (e, missing) ↦
        absurd (none≢some e (ap (λ p. p.1) (sym clean ∙ missing_lem e missing live)))
  ]
    where
      ranges :
          (c : Comparator)
          → comparator_for adv.ecosystem ≡ ok c
          → range_hit c pkg.version adv.ranges none ≡ (false, none)
      ranges c found = ground (arith, affects_live c found live)

      none≢some : (e : ParseError) → ¬ (◌≡◌ {A = Option ParseError} none (some e))
      none≢some e k = cc
