-- ===== src/Match/Tests.antt =====
-- Runs of internal/match on concrete advisories.
use pkgwatch.Base.{ℕ, ◌∷◌, [], ◌≡◌, refl, true, false, none, some, ◌↔◌, All, pos}
use pkgwatch.Base.{◌*◌, ◌/◌, ltb, inl, inr, Option, ◌++◌, arith}
use pkgwatch.Base.Text.{Text, codes, text_compare, text_eq, cut}
use pkgwatch.Version.{Result, ok}
use pkgwatch.Version.Dpkg
use pkgwatch.Version.Npmver.{Semver}
use pkgwatch.Match.{Advisory, Package, Comparator, kind_vulnerability, scope_project}
use pkgwatch.Match.Ecosystem.{comparator_for}
use pkgwatch.Version.Dpkg.Order.{compare_dpkg-IsOrder}
use pkgwatch.Match.Ecosystem.{comparator_from, base_ecosystem}
use pkgwatch.Match.Score.{Float}
use pkgwatch.Match.Score.Bounds.{IsTotal}
use pkgwatch.Match.Fix.{fix_for, fix_with, best_from}
use pkgwatch.Match.Fix.Lowest.{IsLowestAbove, IsUpgrade, fix_for-IsLowestAbove}
use pkgwatch.Match.Purl.{PackageUrl, parsed, package_url, purl, parse_purl}
use pkgwatch.Match.Purl.RoundTrip.{IsSpelled, parse_purl-purl}
use pkgwatch.Match.Affects.{affects, affects_with, exact_hit, range_hit, in_range}
use pkgwatch.Match.Affects.Spec.{Covers, affects-iff-Covers, affects_clean}

-- A library that orders whole texts, and a table that folds nothing.
abbrev pub text_semver : Semver
text_semver = record {
  Parsed = Text;
  strict_new = some;
  new_version = some;
  compare = text_compare;
  prerelease = λ _. [];
}

abbrev pub no_fold : ℕ → ℕ
no_fold c = c

abbrev pub comparators : Text → Result Comparator
comparators = comparator_for text_semver no_fold

abbrev pub debian_fix : Advisory ℕ
debian_fix = record {
  id = codes "DSA-1";
  kind = kind_vulnerability;
  ecosystem = codes "Debian:12";
  package_name = codes "openssl";
  summary = [];
  severity_cvss = none;
  withdrawn = false;
  versions = [];
  ranges =
      record { introduced = codes "0"; fixed = codes "3.0.9-1"; last_affected = [] }
      ∷ record { introduced = codes "3.0.10-1"; fixed = codes "3.0.11-1"; last_affected = [] }
      ∷ [];
  source = [];
  published = pos 0;
  modified = pos 0;
}

abbrev pub installed : Text → Package
installed version = record {
  ecosystem = codes "Debian:12";
  name = codes "openssl";
  version = version;
  scope = scope_project;
  has_scripts = false;
  last_seen = pos 0;
}

hit : affects comparators debian_fix (installed (codes "3.0.10-1~deb12")) ≡ (false, none)
unfolding affects affects_with exact_hit range_hit in_range comparator_for Dpkg.parse
    Dpkg.compare_dpkg text_compare
hit = refl

affects-iff-Covers_example :
    ((affects comparators debian_fix (installed (codes "3.0.10-2"))).0 ≡ true) ↔ (
      (false ≡ false)
      × ((c : Comparator) × (comparators (codes "Debian:12") ≡ ok c)
          × Covers c debian_fix (codes "3.0.10-2")))
affects-iff-Covers_example =
    affects-iff-Covers comparators debian_fix (installed (codes "3.0.10-2"))

affects_clean_example :
    (c : Comparator) × (comparators (codes "Debian:12") ≡ ok c)
    × All (λ r. in_range c (codes "3.0.10-1~deb12") r ≡ ok false) debian_fix.ranges
affects_clean_example =
    affects_clean comparators debian_fix (installed (codes "3.0.10-1~deb12")) hit refl

-- Numbers in tenths.
abbrev pub tenth_numbers : Float
tenth_numbers = record { Num = ℕ; tenths = λ n. n; times = λ x y. x * y / 10; less = ltb }

pub tenth_numbers-IsTotal : IsTotal tenth_numbers
tenth_numbers-IsTotal = record {
  asym = λ x y h. ground arith;
  at_least_trans = λ x y z h k. ground arith;
}

fix_for-IsLowestAbove_example :
    IsLowestAbove Dpkg.parse Dpkg.compare_dpkg compare_dpkg-IsOrder
      (codes "3.0.10-1")
      debian_fix.ranges
      (fix_for comparators debian_fix (installed (codes "3.0.10-1")))
unfolding Dpkg.parse Dpkg.compare_dpkg text_eq comparator_for comparator_from IsUpgrade text_compare
fix_for-IsLowestAbove_example =
    fix_for-IsLowestAbove Dpkg.parse Dpkg.compare_dpkg compare_dpkg-IsOrder comparators debian_fix
      (installed (codes "3.0.10-1")) refl refl (inr (inl (refl, refl)))

fixed_at : fix_for comparators debian_fix (installed (codes "3.0.10-1")) ≡ codes "3.0.11-1"
unfolding fix_for fix_with best_from comparator_for Dpkg.parse Dpkg.compare_dpkg text_compare
    text_eq
fixed_at = refl

-- A library that prints and reads purls without a namespace and qualifiers.
abbrev print_plain : PackageUrl → Text
print_plain u = u.kind ++ b'/' ∷ u.name ++ b'@' ∷ u.version

abbrev read_parts : Text → Text × Text → Option PackageUrl
read_parts kind (name, version) =
    some (record { kind = kind; namespace = []; name = name; version = version; distro = [] })

abbrev read_plain : Text → Option PackageUrl
read_plain raw = elim (cut b'/' raw) [
  | none ↦ none
  | some (kind, rest) ↦ elim (cut b'@' rest) [ none ↦ none | some parts ↦ read_parts kind parts ]
]

parse_purl-purl_example :
    parse_purl text_semver no_fold print_plain read_plain (
      purl text_semver no_fold print_plain read_plain
        (codes "crates.io")
        (codes "serde")
        (codes "1.0.2"))
    ≡ parsed
        (record { ecosystem = codes "crates.io"; name = codes "serde"; version = codes "1.0.2" })
unfolding package_url cut text_eq base_ecosystem
parse_purl-purl_example =
    parse_purl-purl text_semver no_fold print_plain read_plain (codes "crates.io") (codes "serde")
      b'1' (codes ".0.2") refl (IsSpelled.crates (codes "serde"))
