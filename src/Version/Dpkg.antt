-- ===== src/Version/Dpkg.antt =====
-- internal/version/dpkg/dpkg.go: Debian and Ubuntu versions.
pub mod Fragment
pub mod Order
pub mod RoundTrip
mod Tests
use pkgwatch.Base.{
  ℕ, zero, suc, ◌+◌, ◌<◌, Ordering, lt, eq, gt, Bool, true, false, ◌&&◌, ◌||◌, not, List, [], ◌∷◌,
  ◌++◌, Option, none, some, ltb, leb, ◌==◌, if◌then◌else◌, lex, ℤ, pos, negsuc, ltb_ℤ, compare,
  compare_ℤ, any, length, ◌≡◌, refl,
}
use pkgwatch.Base.Text.{
  Text, codes, is_digit, is_alpha, is_empty, cut, cut_last, atoi, itoa, text_compare,
}
use pkgwatch.Version.{ParseError, Result, ok, err, ◌>>=◌, ◌>>◌, refuse_if, or_error}

-- `Version`
pub record Version : Type 0 where
  pub epoch : ℤ
  pub upstream : Text
  pub revision : Text

-- `order`: '~' before the end of the string, which counts as 0, then letters, then the rest.
unfoldable pub order : ℕ → ℤ
order c =
    if is_digit c
    then pos 0
    else if is_alpha c
    then pos c
    else if c == b'~'
    then negsuc 0
    else pos (c + 256)

-- How the loop over the non-digit runs ends: at a difference, or with what is left of both texts.
pub data Run : Type 0 where
  differ : Ordering → Run
  level : Text → Text → Run

-- The test of a character pair, 0 standing for the end of a string; `rest` goes on behind it.
abbrev run_step : ℤ → ℤ → Run → Run
run_step ac bc rest = elim (compare_ℤ ac bc) [
  | Ordering.eq ↦ rest
  | Ordering.lt ↦ differ lt
  | Ordering.gt ↦ differ gt
]

-- The loop over a non-digit run of both texts.
unfoldable pub non_digits : Text → Text → Run
non_digits [] [] = level [] []
non_digits (x ∷ a) [] =
    let rest = non_digits a [] in
    if not (is_digit x) then run_step (order x) (pos 0) rest else level (x ∷ a) []
non_digits [] (y ∷ b) =
    let rest = non_digits [] b in
    if not (is_digit y) then run_step (pos 0) (order y) rest else level [] (y ∷ b)
non_digits (x ∷ a) (y ∷ b) =
    let rest = non_digits a b in
    if not (is_digit x) || not (is_digit y)
    then run_step (order x) (order y) rest
    else level (x ∷ a) (y ∷ b)

-- The loop over leading zeros.
unfoldable pub strip_zeros : Text → Text
strip_zeros [] = []
strip_zeros (c ∷ s) = if c == b'0' then strip_zeros s else c ∷ s

-- `s[:n]` and `s[n:]` for the number `n` of digits that `s` begins with.
unfoldable pub take_digits : Text → Text
take_digits [] = []
take_digits (c ∷ s) = if is_digit c then c ∷ take_digits s else []

unfoldable pub drop_digits : Text → Text
drop_digits [] = []
drop_digits (c ∷ s) = if is_digit c then drop_digits s else c ∷ s

-- Two digit runs without leading zeros: the longer is the larger.
unfoldable pub compare_digits : Text → Text → Ordering
compare_digits a b = lex (compare (length a) (length b)) (text_compare a b)

-- The outer loop of `compareFragment`, a round for each unit of fuel.
unfoldable pub compare_runs : ℕ → Text → Text → Ordering
unfolding order non_digits strip_zeros take_digits drop_digits compare_digits
compare_runs zero a b = eq
compare_runs (suc f) a b = if is_empty a && is_empty b then eq else elim (non_digits a b) [
  | differ c ↦ c
  | level a' b' ↦
      let x = strip_zeros a' in
      let y = strip_zeros b' in
      lex (compare_digits (take_digits x) (take_digits y))
        (compare_runs f (drop_digits x) (drop_digits y))
]

-- `compareFragment`: a round takes a character of one of the texts at least.
unfoldable pub compare_fragment : Text → Text → Ordering
unfolding compare_runs
compare_fragment a b = compare_runs (length a + length b) a b

-- `Compare`
unfoldable pub compare_dpkg : Version → Version → Ordering
unfolding compare_fragment
compare_dpkg a b =
    lex (compare_ℤ a.epoch b.epoch)
      (lex (compare_fragment a.upstream b.upstream) (compare_fragment a.revision b.revision))

-- `Less` and `Equal`
unfoldable pub less : Version → Version → Bool
unfolding compare_dpkg
less v other = elim (compare_dpkg v other) [ Ordering.lt ↦ true | _ ↦ false ]

unfoldable pub equal : Version → Version → Bool
unfolding compare_dpkg
equal v other = elim (compare_dpkg v other) [ Ordering.eq ↦ true | _ ↦ false ]

-- The test `r <= ' ' || r > '~'`.
abbrev pub is_invalid : ℕ → Bool
is_invalid r = leb r b' ' || ltb b'~' r

-- The epoch, before the first colon, and what follows it.
unfoldable pub split_epoch : Text → Result (ℤ × Text)
unfolding cut atoi
split_epoch s = elim (cut b':' s) [
  | none ↦ ok (pos 0, s)
  | some (before, rest) ↦ elim (atoi before) [
    | none ↦ err ParseError.non_numeric_epoch
    | some epoch ↦
        if ltb_ℤ epoch (pos 0) then err ParseError.non_numeric_epoch else ok (epoch, rest)
  ]
]

-- The upstream version and the revision, behind the last hyphen.
unfoldable pub split_revision : Text → Result (Text × Text)
unfolding cut_last
split_revision rest = elim (cut_last b'-' rest) [
  | none ↦ ok (rest, [])
  | some (upstream, revision) ↦
      if is_empty revision then err ParseError.empty_revision else ok (upstream, revision)
]

-- The tests on the upstream version.
unfoldable pub check_upstream : Text → Result (Unit {0})
check_upstream [] = err ParseError.no_upstream
check_upstream (c ∷ s) = if is_digit c then ok tt else err ParseError.upstream_start

-- `Parse`
unfoldable pub parse : Text → Result Version
unfolding split_epoch split_revision check_upstream
parse s = do
  refuse_if (is_empty s) ParseError.empty_version
  refuse_if (any is_invalid s) ParseError.invalid_character
  e ← split_epoch s
  u ← split_revision e.1
  check_upstream u.0
  ok (record { epoch = e.0; upstream = u.0; revision = u.1 })

-- `%d`
unfoldable pub format_int : ℤ → Text
format_int (pos n) = itoa n
format_int (negsuc n) = b'-' ∷ itoa (suc n)

-- `String`
unfoldable pub to_string : Version → Text
unfolding format_int
to_string v =
    (elim (compare_ℤ v.epoch (pos 0)) [ Ordering.eq ↦ [] | _ ↦ format_int v.epoch ++ b':' ∷ [] ])
    ++ (v.upstream ++ (if is_empty v.revision then [] else b'-' ∷ v.revision))
