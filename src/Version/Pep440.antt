-- ===== src/Version/Pep440.antt =====
-- internal/version/pep440/pep440.go: Python versions.
pub mod Order
pub mod Phases
mod Tests
pub mod Parse
use pkgwatch.Base.{
  ℕ, zero, suc, ◌+◌, ◌<◌, Ordering, lt, eq, gt, Bool, true, false, ◌&&◌, ◌||◌, not, List, [], ◌∷◌,
  ◌++◌, Option, none, some, ltb, leb, ◌==◌, if◌then◌else◌, lex, ℤ, pos, negsuc, ltb_ℤ, compare,
  compare_ℤ, length, ◌≡◌, refl, pad_compare, any,
}
use pkgwatch.Base.Text.{Text, codes, is_digit, is_empty, atoi, itoa, text_compare, text_eq, split}
use pkgwatch.Version.{ParseError, Result, ok, err, ◌>>=◌, ◌>>◌, refuse_if, or_error}

-- `localSegment`
pub record Segment : Type 0 where
  pub num : ℕ
  pub str : Text
  pub numeric : Bool

-- The pre-release kinds, in sort order.
pub data PreKind : Type 0 where
  pre_alpha pre_beta pre_rc : PreKind

-- `Version`; the numbers are never negative.
pub record Version : Type 0 where
  pub epoch : ℕ
  pub release : List ℕ
  pub has_pre : Bool
  pub pre_kind : PreKind
  pub pre_num : ℕ
  pub has_post : Bool
  pub post_num : ℕ
  pub has_dev : Bool
  pub dev_num : ℕ
  pub local : List Segment

-- The value of the constant.
abbrev pub kind_rank : PreKind → ℕ
kind_rank pre_alpha = 0
kind_rank pre_beta = 1
kind_rank pre_rc = 2

-- `IsPrerelease`
unfoldable pub is_prerelease : Version → Bool
is_prerelease v = v.has_pre || v.has_dev

-- `trimTrailingZeros`
unfoldable pub trim_zeros : List ℕ → List ℕ
trim_zeros [] = []
trim_zeros (x ∷ xs) = elim (trim_zeros xs) [
  | [] ↦ if x == 0 then [] else x ∷ []
  | y ∷ ys ↦ x ∷ y ∷ ys
]

-- `compareRelease`: `at` reads 0 behind the end.
unfoldable pub compare_release : List ℕ → List ℕ → Ordering
unfolding trim_zeros pad_compare
compare_release a b = pad_compare compare 0 (trim_zeros a) (trim_zeros b)

-- `preRank`
unfoldable pub pre_rank : Version → ℤ
pre_rank v =
    if not v.has_pre && not v.has_post && v.has_dev
    then negsuc 0
    else if not v.has_pre
    then pos 1
    else pos 0

-- `comparePre`
unfoldable pub compare_pre : Version → Version → Ordering
unfolding pre_rank
compare_pre a b =
    let ra = pre_rank a in
    let rb = pre_rank b in
    elim (compare_ℤ ra rb) [
      | Ordering.lt ↦ lt
      | Ordering.gt ↦ gt
      | Ordering.eq ↦ elim (compare_ℤ ra (pos 0)) [
        | Ordering.eq ↦
            lex (compare (kind_rank a.pre_kind) (kind_rank b.pre_kind))
              (compare a.pre_num b.pre_num)
        | _ ↦ eq
      ]
    ]

abbrev bool_eq : Bool → Bool → Bool
bool_eq true b = b
bool_eq false b = not b

-- `cmpPresence`
unfoldable pub compare_presence : Bool → Bool → ℕ → ℕ → Bool → Ordering
compare_presence a_has b_has a_num b_num absent_is_greater =
    if a_has && b_has
    then compare a_num b_num
    else if not a_has && not b_has
    then eq
    else if bool_eq (not a_has) absent_is_greater
    then gt
    else lt

-- A pair of local segments.
unfoldable pub compare_segment : Segment → Segment → Ordering
compare_segment x y =
    if x.numeric && y.numeric
    then compare x.num y.num
    else if x.numeric
    then gt
    else if y.numeric
    then lt
    else text_compare x.str y.str

-- The loop of `compareLocal`; the longer list wins a tie.
unfoldable pub compare_segments : List Segment → List Segment → Ordering
unfolding compare_segment
compare_segments [] [] = eq
compare_segments [] (y ∷ b) = lt
compare_segments (x ∷ a) [] = gt
compare_segments (x ∷ a) (y ∷ b) = lex (compare_segment x y) (compare_segments a b)

-- `compareLocal`
unfoldable pub compare_local : List Segment → List Segment → Ordering
unfolding compare_segments
compare_local [] b = compare 0 (length b)
compare_local (x ∷ a) [] = compare (length (x ∷ a)) 0
compare_local (x ∷ a) (y ∷ b) = compare_segments (x ∷ a) (y ∷ b)

-- `Compare`
unfoldable pub compare_pep440 : Version → Version → Ordering
unfolding compare_release compare_pre compare_presence compare_local
compare_pep440 a b = lex (compare a.epoch b.epoch) (
    lex (compare_release a.release b.release) (
      lex (compare_pre a b) (
        lex (compare_presence a.has_post b.has_post a.post_num b.post_num false) (
          lex (compare_presence a.has_dev b.has_dev a.dev_num b.dev_num true)
            (compare_local a.local b.local)))))

-- `Less` and `Equal`
unfoldable pub less : Version → Version → Bool
unfolding compare_pep440
less v other = elim (compare_pep440 v other) [ Ordering.lt ↦ true | _ ↦ false ]

unfoldable pub equal : Version → Version → Bool
unfolding compare_pep440
equal v other = elim (compare_pep440 v other) [ Ordering.eq ↦ true | _ ↦ false ]
