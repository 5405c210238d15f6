-- ===== src/Version/Pep440/Parse.antt =====
-- `versionRE`, `Parse` and `String` of internal/version/pep440/pep440.go.
use pkgwatch.Base.{
  ℕ, Bool, true, false, ◌&&◌, ◌||◌, not, List, [], ◌∷◌, ◌++◌, Option, none, some, leb, ◌==◌,
  if◌then◌else◌, pos, map,
}
use pkgwatch.Base.Text.{
  Text, codes, is_digit, is_empty, atoi, itoa, text_eq, split, trim_space, to_lower,
}
use pkgwatch.Base.Regex.{
  Regex, char, seq, alt, star, group, match_whole, capture, maybe, plus, digit_class, word, one_of,
}
use pkgwatch.Version.{ParseError, Result, ok, ◌>>=◌, ◌>>◌, refuse_if, or_error}
use pkgwatch.Version.Pep440.{Version, Segment, PreKind, pre_alpha, pre_beta, pre_rc}

abbrev epoch_group : ℕ
epoch_group = 1

abbrev release_group : ℕ
release_group = 2

abbrev pre_label_group : ℕ
pre_label_group = 3

abbrev pre_number_group : ℕ
pre_number_group = 4

abbrev post_implicit_group : ℕ
post_implicit_group = 5

abbrev post_label_group : ℕ
post_label_group = 6

abbrev post_number_group : ℕ
post_number_group = 7

abbrev dev_label_group : ℕ
dev_label_group = 8

abbrev dev_number_group : ℕ
dev_number_group = 9

abbrev local_group : ℕ
local_group = 10

abbrev exactly : ℕ → Regex
exactly a = char (λ c. c == a)

-- `[-_.]`
abbrev is_separator : ℕ → Bool
is_separator c = c == b'-' || c == b'_' || c == b'.'

abbrev separator : Regex
separator = char is_separator

-- `[a-z0-9]` under `(?i)`.
abbrev is_local : ℕ → Bool
is_local c =
    is_digit c
    || (leb b'a' c && leb c b'z')
    || (leb b'A' c && leb c b'Z')
    || c == 0x17f
    || c == 0x212a

abbrev numbered : ℕ → Regex → ℕ → Regex
numbered label words number =
    seq (maybe separator)
      (seq (group label words) (seq (maybe separator) (maybe (group number (plus digit_class)))))

abbrev pre_words : List Text
pre_words =
    codes "alpha"
    ∷ codes "beta"
    ∷ codes "preview"
    ∷ codes "pre"
    ∷ codes "a"
    ∷ codes "b"
    ∷ codes "c"
    ∷ codes "rc"
    ∷ []

-- `versionRE`
unfoldable pub version_re : Regex
version_re = seq (maybe (word (codes "v"))) (
    seq (maybe (seq (group epoch_group (plus digit_class)) (exactly b'!'))) (
      seq
        (group release_group
          (seq (plus digit_class) (star (seq (exactly b'.') (plus digit_class)))))
        (seq (maybe (numbered pre_label_group (one_of pre_words) pre_number_group)) (
          seq
            (maybe (
              alt (seq (exactly b'-') (group post_implicit_group (plus digit_class))) (
                numbered post_label_group (one_of (codes "post" ∷ codes "rev" ∷ codes "r" ∷ []))
                  post_number_group)))
            (seq (maybe (numbered dev_label_group (one_of (codes "dev" ∷ [])) dev_number_group)) (
              maybe (
                seq (exactly b'+') (
                  group local_group (
                    seq (plus (char is_local))
                      (star (seq separator (plus (char is_local)))))))))))))

-- `atoiOrZero`; a number without a sign is never negative.
unfoldable pub atoi_or_zero : Text → ℕ
unfolding atoi
atoi_or_zero s = elim (atoi s) [ some (pos n) ↦ n | _ ↦ 0 ]

-- `strconv.Atoi` of a group of digits.
unfoldable pub atoi_digits : Text → Option ℕ
unfolding atoi
atoi_digits s = elim (atoi s) [ some (pos n) ↦ some n | _ ↦ none ]

unfoldable pub parse_epoch : Text → Result ℕ
unfolding atoi_digits
parse_epoch e = if is_empty e then ok 0 else or_error (atoi_digits e) ParseError.epoch_out_of_range

-- The loop over the release segments.
unfoldable pub parse_release : List Text → Result (List ℕ)
unfolding atoi_digits
parse_release [] = ok []
parse_release (part ∷ parts) = do
  n ← or_error (atoi_digits part) ParseError.release_out_of_range
  ns ← parse_release parts
  ok (n ∷ ns)

-- The `switch` on the pre-release label.
unfoldable pub pre_kind_of : Text → PreKind
unfolding text_eq
pre_kind_of l =
    if text_eq l (codes "a") || text_eq l (codes "alpha")
    then pre_alpha
    else if text_eq l (codes "b") || text_eq l (codes "beta")
    then pre_beta
    else pre_rc

-- `strings.FieldsFunc` at the separators: no part is empty.
unfoldable pub fields_from : Text → Text → List Text
fields_from cur [] = if is_empty cur then [] else cur ∷ []
fields_from cur (c ∷ s) = elim (is_separator c) [
  | true ↦ if is_empty cur then fields_from [] s else cur ∷ fields_from [] s
  | false ↦ fields_from (cur ++ c ∷ []) s
]

unfoldable pub parse_segment : Text → Segment
unfolding atoi_digits
parse_segment seg = elim (atoi_digits seg) [
  | some n ↦ record { num = n; str = []; numeric = true }
  | none ↦ record { num = 0; str = seg; numeric = false }
]

abbrev is_present : Text → Bool
is_present s = not (is_empty s)

-- `Parse`; `table` is `unicode.ToLower` beyond ASCII.
unfoldable pub parse : (ℕ → ℕ) → Text → Result Version
unfolding trim_space match_whole version_re capture parse_epoch parse_release split pre_kind_of
    to_lower atoi_or_zero fields_from parse_segment
parse table s = do
  let trimmed = trim_space s
  refuse_if (is_empty trimmed) ParseError.empty_version
  m ← or_error (match_whole version_re trimmed) ParseError.not_a_version
  epoch ← parse_epoch (capture epoch_group m)
  release ← parse_release (split b'.' (capture release_group m))
  let pre = capture pre_label_group m
  let implicit = capture post_implicit_group m
  let local = capture local_group m
  ok (record {
    epoch = epoch;
    release = release;
    has_pre = is_present pre;
    pre_kind = if is_present pre then pre_kind_of (to_lower table pre) else pre_alpha;
    pre_num = if is_present pre then atoi_or_zero (capture pre_number_group m) else 0;
    has_post = is_present implicit || is_present (capture post_label_group m);
    post_num =
        if is_present implicit
        then atoi_or_zero implicit
        else if is_present (capture post_label_group m)
        then atoi_or_zero (capture post_number_group m)
        else 0;
    has_dev = is_present (capture dev_label_group m);
    dev_num =
        if is_present (capture dev_label_group m)
        then atoi_or_zero (capture dev_number_group m)
        else 0;
    local =
        if is_present local then map parse_segment (fields_from [] (to_lower table local)) else [];
  })

abbrev dotted : List Text → Text
dotted [] = []
dotted (p ∷ []) = p
dotted (p ∷ q ∷ ps) = p ++ b'.' ∷ dotted (q ∷ ps)

abbrev kind_text : PreKind → Text
kind_text pre_alpha = codes "a"
kind_text pre_beta = codes "b"
kind_text pre_rc = codes "rc"

abbrev segment_text : Segment → Text
segment_text seg = if seg.numeric then itoa seg.num else seg.str

-- `String`
unfoldable pub to_string : Version → Text
unfolding itoa
to_string v =
    (if v.epoch == 0 then [] else itoa v.epoch ++ b'!' ∷ [])
    ++ (dotted (map itoa v.release)
        ++ ((if v.has_pre then kind_text v.pre_kind ++ itoa v.pre_num else [])
            ++ ((if v.has_post then codes ".post" ++ itoa v.post_num else [])
                ++ ((if v.has_dev then codes ".dev" ++ itoa v.dev_num else []) ++ (elim v.local [
                  | [] ↦ []
                  | seg ∷ rest ↦ b'+' ∷ dotted (map segment_text v.local)
                ])))))
