-- ===== src/Base/Text.antt =====
-- Go strings as lists of code points, and the functions of `strings` and `strconv` that the
-- program calls. All texts are taken to be valid UTF-8, where the order of the code points is the
-- order of the bytes.
pub mod Laws
pub mod Decimal
use Prim.Native.Char.{code}
use Prim.Native.String.{String}
use mathlib.Core.Option
use pkgwatch.Base.{
  ℕ, zero, suc, ◌+◌, ◌-◌, ◌*◌, ◌/◌, ◌%◌, ◌^◌, compare, Ordering, lt, eq, gt, Bool, true, false,
  ◌&&◌, ◌||◌, not, List, [], ◌∷◌, ◌++◌, Option, none, some, ltb, leb, ◌==◌, if◌then◌else◌, lex, ℤ,
  pos, sub_ℕ, Always, All, ◌≢◌, map,
}

abbrev pub Text : Type 0
Text = List ℕ

-- The code points of a literal.
abbrev pub codes : String → Text
codes String.[] = []
codes (String.◌∷◌ c s) = code c ∷ codes s

-- `s == t`
unfoldable pub text_eq : Text → Text → Bool
text_eq [] [] = true
text_eq [] (d ∷ t) = false
text_eq (c ∷ s) [] = false
text_eq (c ∷ s) (d ∷ t) = c == d && text_eq s t

-- `strings.Compare`
unfoldable pub text_compare : Text → Text → Ordering
text_compare [] [] = eq
text_compare [] (d ∷ t) = lt
text_compare (c ∷ s) [] = gt
text_compare (c ∷ s) (d ∷ t) = lex (compare c d) (text_compare s t)

-- `s == ""`
abbrev pub is_empty : Text → Bool
is_empty [] = true
is_empty (c ∷ s) = false

abbrev pub is_digit : ℕ → Bool
is_digit c = leb b'0' c && leb c b'9'

abbrev pub is_alpha : ℕ → Bool
is_alpha c = (leb b'a' c && leb c b'z') || (leb b'A' c && leb c b'Z')

abbrev pub Lacks : ℕ → Text → Type 0
Lacks sep = All (λ c. c ≢ sep)

-- `strings.Cut` at a one-character separator, `none` where it is not found.
unfoldable pub cut : ℕ → Text → Option (Text × Text)
cut sep [] = none
cut sep (c ∷ s) =
    if c == sep then some ([], s) else Option.map (λ (p : Text × Text). (c ∷ p.0, p.1)) (cut sep s)

-- The two parts at the last separator, `strings.LastIndex`.
unfoldable pub cut_last : ℕ → Text → Option (Text × Text)
cut_last sep [] = none
cut_last sep (c ∷ s) = elim (cut_last sep s) [
  | some p ↦ some (c ∷ p.0, p.1)
  | none ↦ if c == sep then some ([], s) else none
]

-- `strings.Split` at a one-character separator: never empty.
unfoldable pub split_from : ℕ → Text → Text → List Text
split_from sep cur [] = cur ∷ []
split_from sep cur (c ∷ s) = elim (c == sep) [
  | true ↦ cur ∷ split_from sep [] s
  | false ↦ split_from sep (cur ++ c ∷ []) s
]

unfoldable pub split : ℕ → Text → List Text
unfolding split_from
split sep s = split_from sep [] s

-- `strings.TrimPrefix`; `none` where `strings.HasPrefix` is false.
unfoldable pub strip_prefix : Text → Text → Option Text
strip_prefix [] s = some s
strip_prefix (p ∷ ps) [] = none
strip_prefix (p ∷ ps) (c ∷ s) = if c == p then strip_prefix ps s else none

unfoldable pub trim_prefix : Text → Text → Text
unfolding strip_prefix
trim_prefix s p = elim (strip_prefix p s) [ none ↦ s | some rest ↦ rest ]

unfoldable pub has_prefix : Text → Text → Bool
unfolding strip_prefix
has_prefix s p = elim (strip_prefix p s) [ none ↦ false | some rest ↦ true ]

-- `strings.TrimSuffix`
unfoldable pub trim_suffix : Text → Text → Text
unfolding text_eq
trim_suffix [] p = []
trim_suffix (c ∷ s) p = if text_eq (c ∷ s) p then [] else c ∷ trim_suffix s p

-- `unicode.IsSpace`
abbrev pub is_space : ℕ → Bool
is_space c =
    (leb 9 c && leb c 13)
    || c == 0x20
    || c == 0x85
    || c == 0xa0
    || c == 0x1680
    || (leb 0x2000 c && leb c 0x200a)
    || c == 0x2028
    || c == 0x2029
    || c == 0x202f
    || c == 0x205f
    || c == 0x3000

unfoldable pub trim_left : Text → Text
trim_left [] = []
trim_left (c ∷ s) = if is_space c then trim_left s else c ∷ s

unfoldable pub trim_right : Text → Text
trim_right [] = []
trim_right (c ∷ s) = elim (trim_right s) [
  | [] ↦ if is_space c then [] else c ∷ []
  | d ∷ t ↦ c ∷ d ∷ t
]

-- `strings.TrimSpace`
unfoldable pub trim_space : Text → Text
unfolding trim_left trim_right
trim_space s = trim_right (trim_left s)

-- `strings.ReplaceAll` of one character by another.
abbrev pub replace_char : ℕ → ℕ → Text → Text
replace_char from to = map (λ c. if c == from then to else c)

-- `unicode.ToLower`: the ASCII letters, and a table for what is beyond ASCII.
unfoldable pub lower_char : (ℕ → ℕ) → ℕ → ℕ
lower_char table c = if ltb c 0x80 then if leb b'A' c && leb c b'Z' then c + 32 else c else table c

-- `strings.ToLower`
unfoldable pub to_lower : (ℕ → ℕ) → Text → Text
unfolding lower_char
to_lower table = map (lower_char table)

abbrev pub max_int : ℕ
max_int = 2 ^ 63 - 1

unfoldable pub scan : Text → ℕ → Option ℕ
scan [] n = some n
scan (c ∷ s) n = if is_digit c then scan s (n * 10 + (c - b'0')) else none

-- One or more digits.
unfoldable pub scan_digits : Text → Option ℕ
unfolding scan
scan_digits [] = none
scan_digits (c ∷ s) = scan (c ∷ s) 0

-- `none` beyond the limit, a range error.
abbrev pub within : ℕ → Option ℕ → Option ℕ
within limit none = none
within limit (some n) = if leb n limit then some n else none

-- `strconv.Atoi`: an optional sign and digits, in the range of an int64; `none` is its error.
unfoldable pub atoi : Text → Option ℤ
unfolding scan_digits
atoi [] = none
atoi (c ∷ s) =
    if c == b'-'
    then Option.map (λ n. sub_ℕ 0 n) (within (2 ^ 63) (scan_digits s))
    else if c == b'+'
    then Option.map pos (within max_int (scan_digits s))
    else Option.map pos (within max_int (scan_digits (c ∷ s)))

-- The decimal digits of `n` before `out`. A round divides by ten, so `n` rounds are enough.
unfoldable pub digits : ℕ → ℕ → Text → Text
digits zero n out = out
digits (suc f) n out =
    let rest = digits f (n / 10) ((b'0' + n % 10) ∷ out) in
    if ltb n 10 then (b'0' + n) ∷ out else rest

-- `strconv.Itoa` of a number that is not negative.
unfoldable pub itoa : ℕ → Text
unfolding digits
itoa n = digits (suc n) n []
