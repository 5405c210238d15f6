-- ===== src/Match/Fix/Below.antt =====
-- The comparisons that `FixFor` of internal/match/fix.go makes, over a comparator that parses both
-- versions and then orders them.
use pkgwatch.Base.{Ordering, Bool, true, false, ◌≡◌, refl, inl, inr, arith, IsOrder, Always}
use pkgwatch.Base.Text.{Text}
use pkgwatch.Version.{Result, ok, Result-cases}
use pkgwatch.Match.{Comparator}
use pkgwatch.Match.Ecosystem.{comparator_from}
use pkgwatch.Match.Fix.{says_above, says_below}

module _ {V : Type 0} (parse : Text → Result V) (cmp : V → V → Ordering)
    (order : IsOrder Always cmp) (version : Text) where
  abbrev pub compare : Comparator
  compare = comparator_from parse cmp

  abbrev pub is_above : Text → Bool
  is_above s = says_above (compare s version)

  abbrev pub is_below : Text → Text → Bool
  is_below s t = says_below (compare s t)

  pub is_below_refl : (s : Text) → is_below s s ≡ false
  unfolding comparator_from
  is_below_refl s = elim (Result-cases (parse s)) [
    | inl (v, q) ↦ rw q (ground (arith, order.swap v v tt tt))
    | inr (e, q) ↦ rw q refl
  ]

  -- Below is negatively transitive through a text that is a version.
  pub not_below_trans :
      (a b c : Text)
      → is_above b ≡ true
      → is_below a b ≡ false
      → is_below b c ≡ false
      → is_below a c ≡ false
  unfolding comparator_from
  not_below_trans a b c hb ab bc = elim (Result-cases (parse a)) [
    | inr (e, q) ↦ rw q refl
    | inl (x, qa) ↦ elim (Result-cases (parse c)) [
      | inr (e, q) ↦ rw (qa, q) refl
      | inl (z, qc) ↦ elim (Result-cases (parse b)) [
        | inr (e, q) ↦ absurd (ground (arith, rw q at hb))
        | inl (y, qb) ↦ rw (qa, qc) (chain x y z (rw (qa, qb) at ab) (rw (qb, qc) at bc))
      ]
    ]
  ]
    where
      chain :
          (x y z : V)
          → says_below (ok (cmp x y)) ≡ false
          → says_below (ok (cmp y z)) ≡ false
          → says_below (ok (cmp x z)) ≡ false
      chain x y z h k = ground (
        arith,
        order.swap x y tt tt,
        order.swap y z tt tt,
        order.congr x y z tt tt tt,
        order.lt_trans y x z tt tt tt,
      )

  pub is_below_asym : (a b : Text) → is_below a b ≡ true → is_below b a ≡ false
  unfolding comparator_from
  is_below_asym a b h = elim (Result-cases (parse a)) [
    | inr (e, q) ↦ absurd (ground (arith, rw q at h))
    | inl (x, qa) ↦ elim (Result-cases (parse b)) [
      | inr (e, q) ↦ rw (q) refl
      | inl (y, qb) ↦ rw (qb, qa) (turn x y (rw (qa, qb) at h))
    ]
  ]
    where
      turn : (x y : V) → says_below (ok (cmp x y)) ≡ true → says_below (ok (cmp y x)) ≡ false
      turn x y h = ground (arith, order.swap x y tt tt)
