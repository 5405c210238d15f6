-- ===== src/Version/Dpkg/Order.antt =====
-- The order of Debian versions: `Compare`, `Less` and `Equal` of internal/version/dpkg/dpkg.go.
use pkgwatch.Base.{
  ℕ, zero, suc, ◌<◌, lt, eq, true, [], ◌∷◌, ◌++◌, ◌≡◌, refl, ◌⊎◌, inl, inr, ℤ, compare_ℤ, compare,
  pad_compare, IsOrder, Always, arith, length, compare_ℤ-IsOrder, lex-IsOrder, on-IsOrder,
  Bool-cases,
}
use pkgwatch.Base.Text.{Text, codes, is_digit, text_compare}
use pkgwatch.Version.Dpkg.{
  Version, order, take_digits, drop_digits, compare_fragment, compare_dpkg, less, equal,
}
use pkgwatch.Version.Dpkg.Fragment.{
  run_compare, take_run, drop_run, rest, rest-lt, fragment-deb_version, compare_fragment-IsOrder,
}
use pkgwatch.Version.Dpkg.Fragment.Numbers.{number}

-- `Compare` is an order on all versions: exchanging the arguments turns the answer round, versions
-- that tie compare alike with every other, and below is transitive.
pub compare_dpkg-IsOrder : IsOrder Always compare_dpkg
unfolding compare_dpkg
compare_dpkg-IsOrder =
    lex-IsOrder _ _ (on-IsOrder (λ (v : Version). v.epoch) compare_ℤ (λ _ _. tt) compare_ℤ-IsOrder)
      (lex-IsOrder _ _
        (on-IsOrder (λ (v : Version). v.upstream) compare_fragment (λ _ _. tt)
          compare_fragment-IsOrder)
        (on-IsOrder (λ (v : Version). v.revision) compare_fragment (λ _ _. tt)
          compare_fragment-IsOrder))

fragment_refl : (s : Text) → compare_fragment s s ≡ eq
fragment_refl s = ground (arith, compare_fragment-IsOrder.swap s s tt tt)

take_digits-tilde : (s t : Text) → take_digits (s ++ b'~' ∷ t) ≡ take_digits s
unfolding take_digits
take_digits-tilde [] t = refl
take_digits-tilde (c ∷ s) t = ground (arith, take_digits-tilde s t)

drop_digits-tilde : (s t : Text) → drop_digits (s ++ b'~' ∷ t) ≡ drop_digits s ++ b'~' ∷ t
unfolding drop_digits
drop_digits-tilde [] t = refl
drop_digits-tilde (c ∷ s) t = ground (arith, drop_digits-tilde s t)

number-tilde : (s t : Text) → number (s ++ b'~' ∷ t) ≡ number s
unfolding number
number-tilde s t = rw (take_digits-tilde s t)

zero_revision : compare_fragment [] (codes "0") ≡ eq
unfolding compare_fragment text_compare
zero_revision = refl

-- The tilde is met in the first run, or behind it.
run-tilde :
    (s t : Text)
    → (run_compare (s ++ b'~' ∷ t) s ≡ lt)
      ⊎ ((run_compare (s ++ b'~' ∷ t) s ≡ eq) × (drop_run (s ++ b'~' ∷ t) ≡ drop_run s ++ b'~' ∷ t))
unfolding run_compare take_run drop_run pad_compare order
run-tilde [] t = inl refl
run-tilde (c ∷ s) t = elim (Bool-cases (is_digit c)) [
  | inl d ↦ inr (ground arith, ground arith)
  | inr n ↦ elim (run-tilde s t) [
    | inl below ↦ inl (ground arith)
    | inr (level, left) ↦ inr (ground arith, ground arith)
  ]
]

rest-tilde :
    (s t : Text)
    → drop_run (s ++ b'~' ∷ t) ≡ drop_run s ++ b'~' ∷ t
    → rest (s ++ b'~' ∷ t) ≡ rest s ++ b'~' ∷ t
unfolding rest
rest-tilde s t e = rw e (drop_digits-tilde (drop_run s) t)

compare_refl : (n : ℕ) → compare n n ≡ eq
compare_refl n = ground arith

tilde_step :
    (s t : Text)
    → (compare_fragment (rest s ++ b'~' ∷ t) (rest s) ≡ lt)
    → compare_fragment (s ++ b'~' ∷ t) s ≡ lt
tilde_step s t ih = elim (run-tilde s t) [
  | inl below ↦ rw (fragment-deb_version, below)
  | inr (level, left) ↦
      rw (fragment-deb_version, level, left, number-tilde, compare_refl, rest-tilde s t left, ih)
]

tilde_run : (t : Text) → run_compare (b'~' ∷ t) [] ≡ lt
unfolding run_compare take_run order pad_compare
tilde_run t = refl

tilde_alone : (t : Text) → compare_fragment (b'~' ∷ t) [] ≡ lt
tilde_alone t = rw (fragment-deb_version, tilde_run t)

fragment_below : (f : ℕ) (s t : Text) → length s < f → compare_fragment (s ++ b'~' ∷ t) s ≡ lt
fragment_below zero s t h = elim h [ ]
fragment_below (suc f) [] t h = tilde_alone t
fragment_below (suc f) (c ∷ s) t h =
    tilde_step (c ∷ s) t (fragment_below f (rest (c ∷ s)) t (omega (arith, rest-lt c s)))

-- A text with a tilde behind it sorts before the text itself, whatever follows the tilde.
pub fragment-tilde : (s t : Text) → compare_fragment (s ++ b'~' ∷ t) s ≡ lt
fragment-tilde s t = fragment_below (suc (length s)) s t (omega arith)

-- A version with a tilde and anything behind its upstream part sorts before the version itself,
-- whatever the two revisions are.
pub less-tilde :
    (e : ℤ) (u t r r' : Text)
    → less
        (record { epoch = e; upstream = u ++ b'~' ∷ t; revision = r })
        (record { epoch = e; upstream = u; revision = r' })
      ≡ true
unfolding less
less-tilde e u t r r' = ground (arith, fragment-tilde u t)

-- A version without a revision and the same version with the revision "0" are equal.
pub equal-no_revision :
    (e : ℤ) (u : Text)
    → equal
        (record { epoch = e; upstream = u; revision = [] })
        (record { epoch = e; upstream = u; revision = codes "0" })
      ≡ true
unfolding equal
equal-no_revision e u = ground (arith, fragment_refl u, zero_revision)
