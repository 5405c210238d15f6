-- ===== src/Base/Text/Decimal.antt =====
-- Decimal numbers: `strconv.Atoi` reads what `strconv.Itoa` prints.

use pkgwatch.Base.{
  ℕ, zero, suc, ◌+◌, ◌/◌, ◌%◌, ◌≤◌, ◌<◌, [], ◌∷◌, some, none, ◌≡◌, refl, sym, ◌∙◌, ap, ◌≢◌, arith,
  All, pos,
}
use pkgwatch.Base.Text.{Text, scan, atoi, itoa, digits, max_int}

abbrev pub IsDigit : ℕ → Type 0
IsDigit c = (b'0' ≤ c) × (c ≤ b'9')

abbrev pub IsDigits : Text → Type 0
IsDigits = All IsDigit

digits-IsDigits : (f n : ℕ) (out : Text) → IsDigits out → IsDigits (digits f n out)
unfolding digits
digits-IsDigits zero n out h = h
digits-IsDigits (suc f) n out h = ground (arith, digits-IsDigits f (n / 10) ((b'0' + n % 10) ∷ out))

scan-digits : (f n : ℕ) (out : Text) → n < f → scan (digits f n out) 0 ≡ scan out n
unfolding digits scan
scan-digits zero n out h = elim h [ ]
scan-digits (suc f) n out h = ground (arith, scan-digits f (n / 10) ((b'0' + n % 10) ∷ out))

pub itoa-IsDigits : (n : ℕ) → IsDigits (itoa n)
unfolding itoa
itoa-IsDigits n = digits-IsDigits (suc n) n [] tt

digits-ne-nil : (f n : ℕ) (out : Text) → out ≢ [] → digits f n out ≢ []
unfolding digits
digits-ne-nil zero n out h = h
digits-ne-nil (suc f) n out h = ground (arith, digits-ne-nil f (n / 10) ((b'0' + n % 10) ∷ out))

pub itoa-ne-nil : (n : ℕ) → itoa n ≢ []
unfolding itoa digits
itoa-ne-nil n = ground (arith, digits-ne-nil n (n / 10) ((b'0' + n % 10) ∷ []))

scan-itoa : (n : ℕ) → scan (itoa n) 0 ≡ some n
unfolding itoa scan
scan-itoa n = scan-digits (suc n) n [] (omega arith)

atoi-scan :
    (s : Text) (n : ℕ)
    → s ≢ []
    → IsDigits s
    → scan s 0 ≡ some n
    → n ≤ max_int
    → atoi s ≡ some (pos n)
unfolding atoi
atoi-scan [] n h d e m = absurd (h refl)
atoi-scan (c ∷ s) n h d e m = ground arith

-- A number in the range of an int64 is read back from its decimal print.
pub atoi-itoa : (n : ℕ) → n ≤ max_int → atoi (itoa n) ≡ some (pos n)
atoi-itoa n m = atoi-scan (itoa n) n (itoa-ne-nil n) (itoa-IsDigits n) (scan-itoa n) m

-- Different numbers have different prints.
pub itoa_inj : (m n : ℕ) → itoa m ≡ itoa n → m ≡ n
itoa_inj m n e = ground (arith, sym (scan-itoa m) ∙ ap (λ s. scan s 0) e ∙ scan-itoa n)

itoa_2024 : itoa 2024 ≡ b'2' ∷ b'0' ∷ b'2' ∷ b'4' ∷ []
unfolding itoa
itoa_2024 = refl

atoi-none :
    (s : Text) (n : ℕ) → s ≢ [] → IsDigits s → scan s 0 ≡ some n → max_int < n → atoi s ≡ none
unfolding atoi
atoi-none [] n h d e m = absurd (h refl)
atoi-none (c ∷ s) n h d e m = ground arith

-- A number out of the range of an int64 is refused.
pub atoi-itoa_overflow : (n : ℕ) → max_int < n → atoi (itoa n) ≡ none
atoi-itoa_overflow n m = atoi-none (itoa n) n (itoa-ne-nil n) (itoa-IsDigits n) (scan-itoa n) m
