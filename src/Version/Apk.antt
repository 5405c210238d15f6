-- ===== src/Version/Apk.antt =====
-- internal/version/apk/apk.go: Alpine Linux versions.
pub mod Order
pub mod Parsed
pub mod Ranks
mod Tests
use pkgwatch.Base.{
  ℕ, zero, suc, ◌+◌, ◌<◌, Ordering, lt, eq, gt, Bool, true, false, ◌&&◌, ◌||◌, not, List, [], ◌∷◌,
  ◌++◌, Option, none, some, ltb, leb, ◌==◌, if◌then◌else◌, lex, ℤ, pos, negsuc, ltb_ℤ, compare,
  compare_ℤ, length, ◌≡◌, refl, pad_compare, any,
}
use pkgwatch.Base.Text.{
  Text, codes, is_digit, is_alpha, is_empty, cut_last, atoi, text_compare, text_eq, split,
  has_prefix,
}
use pkgwatch.Version.{ParseError, Result, ok, err, ◌>>=◌, ◌>>◌, refuse_if, or_error}

-- `suffix`
pub record Suffix : Type 0 where
  pub rank : ℤ
  pub num : ℤ

-- `Version`; `letter` is 0 and `revision` -1 where they are absent.
pub record Version : Type 0 where
  pub numbers : List Text
  pub letter : ℕ
  pub suffixes : List Suffix
  pub revision : ℤ
  pub raw : Text

abbrev pub suffix_order : List Text
suffix_order =
    codes "alpha"
    ∷ codes "beta"
    ∷ codes "pre"
    ∷ codes "rc"
    ∷ []
    ∷ codes "cvs"
    ∷ codes "svn"
    ∷ codes "git"
    ∷ codes "hg"
    ∷ codes "p"
    ∷ []

abbrev pub no_suffix_rank : ℕ
no_suffix_rank = 4

-- The loop of `suffixRank` from the index `i`.
unfoldable pub rank_from : ℕ → Text → List Text → ℤ
unfolding text_eq
rank_from i name [] = negsuc 0
rank_from i name (candidate ∷ rest) =
    if not (is_empty candidate) && text_eq candidate name
    then pos i
    else rank_from (suc i) name rest

-- `suffixRank`
unfoldable pub suffix_rank : Text → ℤ
unfolding rank_from
suffix_rank name = if is_empty name then negsuc 0 else rank_from 0 name suffix_order

-- The number behind "-r".
unfoldable pub revision_number : Text → Option ℤ → Result (ℤ × Text)
revision_number before none = err ParseError.invalid_revision
revision_number before (some n) =
    if ltb_ℤ n (pos 0) then err ParseError.invalid_revision else ok (n, before)

unfoldable pub revision_tail : Text → Text → Result (ℤ × Text)
unfolding revision_number atoi
revision_tail before [] = err ParseError.not_a_revision
revision_tail before (c ∷ number) =
    if c == b'r' then revision_number before (atoi number) else err ParseError.not_a_revision

-- The revision, behind the last hyphen, and what stands before it.
unfoldable pub split_revision : Text → Result (ℤ × Text)
unfolding cut_last revision_tail
split_revision s = elim (cut_last b'-' s) [
  | none ↦ ok (negsuc 0, s)
  | some (before, tail) ↦ revision_tail before tail
]

-- The name of a suffix, and its number from the first digit on.
unfoldable pub split_name : Text → Text × Option Text
split_name [] = ([], none)
split_name (c ∷ token) =
    let (name, number) = split_name token in
    if is_digit c then ([], some (c ∷ token)) else (c ∷ name, number)

unfoldable pub suffix_number : Option Text → Result ℤ
unfolding atoi
suffix_number none = ok (negsuc 0)
suffix_number (some number) = or_error (atoi number) ParseError.invalid_suffix_number

-- A round of the loop over the suffixes: the token behind an underscore.
unfoldable pub parse_suffix : Text → Result Suffix
unfolding split_name suffix_number suffix_rank
parse_suffix token = do
  num ← suffix_number (split_name token).1
  let rank = suffix_rank (split_name token).0
  refuse_if (ltb_ℤ rank (pos 0)) ParseError.unknown_suffix
  ok (record { rank = rank; num = num })

-- The loop over the suffixes, from the last one: each is put in front of those behind it.
unfoldable pub parse_suffixes : ℕ → Text → List Suffix → Result (List Suffix × Text)
parse_suffixes zero rest suffixes = ok (suffixes, rest)
parse_suffixes (suc f) rest suffixes = elim (cut_last b'_' rest) [
  | none ↦ ok (suffixes, rest)
  | some (before, token) ↦
      parse_suffix token >>= λ suffix. parse_suffixes f before (suffix ∷ suffixes)
]

-- The last character of a text and what stands before it.
unfoldable pub split_last : Text → Option (Text × ℕ)
split_last [] = none
split_last (c ∷ s) = elim (split_last s) [
  | none ↦ some ([], c)
  | some (before, d) ↦ some (c ∷ before, d)
]

abbrev ends_in_letter : Text → Bool
ends_in_letter s = elim (split_last s) [ none ↦ false | some (before, d) ↦ is_alpha d ]

-- The letter behind the numbers, 0 if there is none.
unfoldable pub split_letter : Text → Result (ℕ × Text)
unfolding split_last
split_letter rest = elim (split_last rest) [
  | none ↦ ok (0, rest)
  | some (before, d) ↦
      if is_alpha d
      then refuse_if (ends_in_letter before) ParseError.more_than_one_letter >> ok (d, before)
      else ok (0, rest)
]

-- The tests on the parts between the dots.
unfoldable pub check_parts : List Text → Result (Unit {0})
check_parts [] = ok tt
check_parts (part ∷ parts) = do
  refuse_if (is_empty part) ParseError.empty_component
  refuse_if (any (λ c. not (is_digit c)) part) ParseError.non_numeric_component
  check_parts parts

-- `Parse`
unfoldable pub parse : Text → Result Version
parse s = do
  refuse_if (is_empty s) ParseError.empty_version
  r ← split_revision s
  t ← parse_suffixes (suc (length r.1)) r.1 []
  l ← split_letter t.1
  refuse_if (is_empty l.1) ParseError.no_numeric_part
  check_parts (split b'.' l.1)
  ok (record { numbers = split b'.' l.1; letter = l.0; suffixes = t.0; revision = r.0; raw = s })

-- `atoi`: 0 where the number is out of range.
unfoldable pub atoi_or_zero : Text → ℤ
unfolding atoi
atoi_or_zero s = elim (atoi s) [ none ↦ pos 0 | some n ↦ n ]

-- Components behind the first: with a leading zero they are fractions, and compare as texts.
unfoldable pub compare_component : Text → Text → Ordering
unfolding has_prefix atoi_or_zero
compare_component x y =
    if has_prefix x (codes "0") || has_prefix y (codes "0")
    then text_compare x y
    else compare_ℤ (atoi_or_zero x) (atoi_or_zero y)

-- The loop of `compareNumbers` behind the first component.
unfoldable pub compare_later : List Text → List Text → Ordering
unfolding compare_component
compare_later [] [] = eq
compare_later [] (y ∷ b) = lt
compare_later (x ∷ a) [] = gt
compare_later (x ∷ a) (y ∷ b) = lex (compare_component x y) (compare_later a b)

-- `compareNumbers`
unfoldable pub compare_numbers : List Text → List Text → Ordering
unfolding compare_later
compare_numbers [] [] = eq
compare_numbers [] (y ∷ b) = lt
compare_numbers (x ∷ a) [] = gt
compare_numbers (x ∷ a) (y ∷ b) =
    lex (compare_ℤ (atoi_or_zero x) (atoi_or_zero y)) (compare_later a b)

-- A suffix that is missing.
abbrev pub no_suffix : Suffix
no_suffix = record { rank = pos no_suffix_rank; num = negsuc 0 }

unfoldable pub compare_suffix : Suffix → Suffix → Ordering
compare_suffix x y = lex (compare_ℤ x.rank y.rank) (compare_ℤ x.num y.num)

-- `compareSuffixes`
unfoldable pub compare_suffixes : List Suffix → List Suffix → Ordering
unfolding compare_suffix pad_compare
compare_suffixes = pad_compare compare_suffix no_suffix

-- `Compare`
unfoldable pub compare_apk : Version → Version → Ordering
unfolding compare_numbers compare_suffixes
compare_apk a b = lex (compare_numbers a.numbers b.numbers) (
    lex (compare a.letter b.letter)
      (lex (compare_suffixes a.suffixes b.suffixes) (compare_ℤ a.revision b.revision)))

-- `Less` and `Equal`
unfoldable pub less : Version → Version → Bool
unfolding compare_apk
less v other = elim (compare_apk v other) [ Ordering.lt ↦ true | _ ↦ false ]

unfoldable pub equal : Version → Version → Bool
unfolding compare_apk
equal v other = elim (compare_apk v other) [ Ordering.eq ↦ true | _ ↦ false ]

-- `String`
abbrev pub to_string : Version → Text
to_string v = v.raw
