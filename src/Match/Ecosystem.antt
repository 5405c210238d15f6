-- ===== src/Match/Ecosystem.antt =====
-- internal/match/ecosystem.go: the comparator and the name folding of each ecosystem. The semver
-- library and `unicode.ToLower` beyond ASCII are parameters.

use pkgwatch.Base.{
  ℕ, Ordering, Bool, true, false, ◌||◌, List, [], ◌∷◌, Option, none, some, ◌==◌, if◌then◌else◌,
}
use pkgwatch.Base.Text.{
  Text, codes, text_eq, cut, to_lower, trim_space, trim_prefix, trim_suffix, replace_char,
}
use pkgwatch.Version.{Result, ok, err, ParseError, ◌>>=◌, or_error}
use pkgwatch.Version.Npmver
use pkgwatch.Version.Npmver.{Semver}
use pkgwatch.Version.Pep440
use pkgwatch.Version.Pep440.Parse
use pkgwatch.Version.Dpkg
use pkgwatch.Version.Apk
use pkgwatch.Match.{Comparator}

-- `ops`
pub record Ops : Type 0 where
  pub compare : Comparator
  pub normalize : Option (Text → Text)

-- `comparatorFrom`
unfoldable pub comparator_from : {V : Type 0} → (Text → Result V) → (V → V → Ordering) → Comparator
comparator_from parse compare a b = do av ← parse a; bv ← parse b; ok (compare av bv)

-- `BaseEcosystem`
unfoldable pub base_ecosystem : Text → Text
unfolding cut
base_ecosystem ecosystem = elim (cut b':' ecosystem) [ none ↦ ecosystem | some p ↦ p.0 ]

-- The loop of `ReplaceAllString` for `[-_.]+`; the flag tells that a run has been replaced.
unfoldable pub collapse_from : Bool → Text → Text
collapse_from in_run [] = []
collapse_from in_run (c ∷ s) = elim (c == b'-' || c == b'_' || c == b'.') [
  | true ↦ if in_run then collapse_from true s else b'-' ∷ collapse_from true s
  | false ↦ c ∷ collapse_from false s
]

-- `cleanGoVersion`
unfoldable pub clean_go_version : Text → Text
unfolding trim_space trim_prefix trim_suffix
clean_go_version s = trim_suffix (trim_prefix (trim_space s) (codes "v")) (codes "+incompatible")

abbrev pub ecosystem_npm : Text
ecosystem_npm = codes "npm"

abbrev pub ecosystem_pypi : Text
ecosystem_pypi = codes "PyPI"

abbrev pub ecosystem_debian : Text
ecosystem_debian = codes "Debian"

abbrev pub ecosystem_ubuntu : Text
ecosystem_ubuntu = codes "Ubuntu"

abbrev pub ecosystem_alpine : Text
ecosystem_alpine = codes "Alpine"

abbrev pub ecosystem_go : Text
ecosystem_go = codes "Go"

abbrev pub ecosystem_crates : Text
ecosystem_crates = codes "crates.io"

unfoldable pub find_ops : Text → List (Text × Ops) → Option Ops
unfolding text_eq
find_ops name [] = none
find_ops name ((key, op) ∷ rest) = if text_eq key name then some op else find_ops name rest

module _ (S : Semver) (table : ℕ → ℕ) where
  -- `normalizePEP503`
  unfoldable pub normalize_pep503 : Text → Text
  unfolding collapse_from to_lower
  normalize_pep503 name = collapse_from false (to_lower table name)

  -- `compareSemver`
  unfoldable pub compare_semver : Comparator
  unfolding trim_space
  compare_semver a b = do
    av ← or_error (S.new_version (trim_space a)) ParseError.not_semver
    bv ← or_error (S.new_version (trim_space b)) ParseError.not_semver
    ok (S.compare av bv)

  -- `compareGo`
  unfoldable pub compare_go : Comparator
  unfolding clean_go_version compare_semver
  compare_go a b = compare_semver (clean_go_version a) (clean_go_version b)

  -- `registry`
  unfoldable pub registry : List (Text × Ops)
  unfolding comparator_from normalize_pep503 compare_go
  registry =
      (
        ecosystem_npm,
        record {
          compare = comparator_from (Npmver.parse S) (Npmver.compare_npm S);
          normalize = none;
        },
      )
      ∷ (
        ecosystem_pypi,
        record {
          compare = comparator_from (Parse.parse table) Pep440.compare_pep440;
          normalize = some normalize_pep503;
        },
      )
      ∷ (
        ecosystem_debian,
        record {
          compare = comparator_from Dpkg.parse Dpkg.compare_dpkg;
          normalize = some (to_lower table);
        },
      )
      ∷ (
        ecosystem_ubuntu,
        record {
          compare = comparator_from Dpkg.parse Dpkg.compare_dpkg;
          normalize = some (to_lower table);
        },
      )
      ∷ (
        ecosystem_alpine,
        record {
          compare = comparator_from Apk.parse Apk.compare_apk;
          normalize = some (to_lower table);
        },
      )
      ∷ (ecosystem_go, record { compare = compare_go; normalize = none })
      ∷ (
        ecosystem_crates,
        record {
          compare = compare_semver;
          normalize = some (λ s. replace_char b'_' b'-' (to_lower table s));
        },
      )
      ∷ []

  -- `Supported`
  unfoldable pub supported : Text → Bool
  unfolding registry base_ecosystem find_ops
  supported ecosystem = elim (find_ops (base_ecosystem ecosystem) registry) [
    | none ↦ false
    | some op ↦ true
  ]

  -- `NormalizeName`
  unfoldable pub normalize_name : Text → Text → Text
  unfolding registry base_ecosystem find_ops
  normalize_name ecosystem name = elim (find_ops (base_ecosystem ecosystem) registry) [
    | none ↦ name
    | some op ↦ elim op.normalize [ none ↦ name | some fold ↦ fold name ]
  ]

  -- `comparatorFor`
  unfoldable pub comparator_for : Text → Result Comparator
  unfolding registry base_ecosystem find_ops
  comparator_for ecosystem = elim (find_ops (base_ecosystem ecosystem) registry) [
    | none ↦ err ParseError.unknown_ecosystem
    | some op ↦ ok op.compare
  ]
