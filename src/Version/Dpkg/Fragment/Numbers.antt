-- ===== src/Version/Dpkg/Fragment/Numbers.antt =====
-- Digit runs of internal/version/dpkg/dpkg.go: after the leading zeros the longer run is the larger
-- number, and runs of one length compare as texts.
use pkgwatch.Base.{ℕ, ◌+◌, ◌-◌, ◌*◌, ◌≤◌, ◌<◌, [], ◌∷◌, ◌≡◌, refl, lex, compare, arith, length, ◌≢◌}
use pkgwatch.Base.Text.{Text, text_compare}
use pkgwatch.Base.Text.Decimal.{IsDigits}
use pkgwatch.Version.Dpkg.{strip_zeros, take_digits, compare_digits}

-- The number that digits spell behind `n`.
abbrev pub value : ℕ → Text → ℕ
value n [] = n
value n (c ∷ s) = value (n * 10 + (c - b'0')) s

-- The number that a text begins with.
unfoldable pub number : Text → ℕ
unfolding take_digits
number s = value 0 (take_digits s)

abbrev power : Text → ℕ
power [] = 1
power (c ∷ s) = 10 * power s

value_step :
    (n d p v : ℕ)
    → d ≤ 9
    → (n * 10 + d) * p ≤ v
    → v < (n * 10 + d + 1) * p
    → (n * (10 * p) ≤ v) × (v < (n + 1) * (10 * p))
value_step n d p v h lo hi = (grind arith, grind arith)

value_bounds :
    (n : ℕ) (s : Text) → IsDigits s → (n * power s ≤ value n s) × (value n s < (n + 1) * power s)
value_bounds n [] h = (omega arith, omega arith)
value_bounds n (c ∷ s) h =
    let (lo, hi) = value_bounds (n * 10 + (c - b'0')) s h.1 in
    value_step n (c - b'0') (power s) (value (n * 10 + (c - b'0')) s) (omega arith) lo hi

power_mono : (s t : Text) → length s ≤ length t → power s ≤ power t
power_mono [] [] h = omega arith
power_mono [] (d ∷ t) h = omega (arith, power_mono [] t (omega arith))
power_mono (c ∷ s) [] h = absurd (omega arith)
power_mono (c ∷ s) (d ∷ t) h = omega (arith, power_mono s t (omega arith))

-- Digits of one length.
compare-value :
    (s t : Text) (m n : ℕ)
    → IsDigits s
    → IsDigits t
    → length s ≡ length t
    → compare (value m s) (value n t) ≡ lex (compare m n) (text_compare s t)
unfolding text_compare
compare-value [] [] m n _ _ e = ground arith
compare-value [] (d ∷ t) m n _ _ e = absurd (omega arith)
compare-value (c ∷ s) [] m n _ _ e = absurd (omega arith)
compare-value (c ∷ s) (d ∷ t) m n hs ht e =
    ground (arith, compare-value s t (m * 10 + (c - b'0')) (n * 10 + (d - b'0')))

take_digits-IsDigits : (s : Text) → IsDigits (take_digits s)
unfolding take_digits
take_digits-IsDigits [] = tt
take_digits-IsDigits (c ∷ s) = ground (arith, take_digits-IsDigits s)

number-strip_zeros : (s : Text) → number (strip_zeros s) ≡ number s
unfolding number strip_zeros
number-strip_zeros [] = refl
number-strip_zeros (c ∷ s) = ground (arith, number-strip_zeros s)

abbrev NoLead : Text → Type 0
NoLead [] = Unit
NoLead (c ∷ s) = c ≢ b'0'

strip_zeros-NoLead : (s : Text) → NoLead (strip_zeros s)
unfolding strip_zeros
strip_zeros-NoLead [] = tt
strip_zeros-NoLead (c ∷ s) = ground (arith, strip_zeros-NoLead s)

take_digits-NoLead : (s : Text) → NoLead s → NoLead (take_digits s)
unfolding take_digits
take_digits-NoLead [] h = tt
take_digits-NoLead (c ∷ s) h = ground arith

one_le_mul : (k p : ℕ) → 0 < k → p ≤ k * p
one_le_mul k p h = grind arith

-- The longer of two runs is the larger number.
longer-lt :
    (s t : Text) → IsDigits s → IsDigits t → NoLead t → length s < length t → value 0 s < value 0 t
longer-lt s [] hs ht n h = absurd (omega arith)
longer-lt s (c ∷ t) hs ht n h =
    let (_, hi) = value_bounds 0 s hs in
    let (lo, _) = value_bounds (0 * 10 + (c - b'0')) t ht.1 in
    let low : power t ≤ (0 * 10 + (c - b'0')) * power t =
      one_le_mul (0 * 10 + (c - b'0')) (power t) (omega arith) in
    omega (arith, power_mono s t (omega arith))

digits_lem :
    (s t : Text)
    → IsDigits s
    → IsDigits t
    → NoLead s
    → NoLead t
    → compare_digits s t ≡ compare (value 0 s) (value 0 t)
unfolding compare_digits
digits_lem s t hs ht ns nt =
    ground (arith, compare-value s t 0 0 hs ht, longer-lt s t hs ht nt, longer-lt t s ht hs ns)

compare_digits_lem :
    (a b : Text)
    → NoLead a
    → NoLead b
    → compare_digits (take_digits a) (take_digits b) ≡ compare (number a) (number b)
unfolding number
compare_digits_lem a b na nb =
    digits_lem (take_digits a) (take_digits b) (take_digits-IsDigits a) (take_digits-IsDigits b)
      (take_digits-NoLead a na) (take_digits-NoLead b nb)

-- The code's comparison of two digit runs is that of the numbers which they spell.
pub compare_digits-number :
    (a b : Text)
    → compare_digits (take_digits (strip_zeros a)) (take_digits (strip_zeros b))
      ≡ compare (number a) (number b)
compare_digits-number a b =
    rw (← number-strip_zeros a, ← number-strip_zeros b)
      (compare_digits_lem (strip_zeros a) (strip_zeros b) (strip_zeros-NoLead a)
        (strip_zeros-NoLead b))
