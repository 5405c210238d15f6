-- ===== src/Gate/Npm.antt =====
-- internal/gate/npm.go: the version that a tarball's name encodes, and the version that a dist-tag
-- is pointed at. `Semver` is the semver library.
pub mod Tarball
pub mod Highest
mod Tests
use pkgwatch.Base.{
  Ordering, lt, eq, gt, Bool, true, false, ◌&&◌, ◌||◌, not, List, [], ◌∷◌, ◌++◌, Option, none, some,
  if◌then◌else◌, ◌==◌,
}
use pkgwatch.Base.Text.{
  Text, codes, text_eq, text_compare, is_empty, cut, cut_last, has_prefix, trim_prefix, trim_suffix,
}
use pkgwatch.Version.Npmver.{Semver}

-- `strings.HasSuffix`
unfoldable pub has_suffix : Text → Text → Bool
unfolding text_eq
has_suffix [] suffix = is_empty suffix
has_suffix (c ∷ s) suffix =
    let rest = has_suffix s suffix in if text_eq (c ∷ s) suffix then true else rest

unfoldable pub trim_slashes : Text → Text
trim_slashes [] = []
trim_slashes (c ∷ s) =
    let rest = trim_slashes s in if is_empty rest && (c == b'/') then [] else c ∷ rest

-- `path.Base`
unfoldable pub path_base : Text → Text
unfolding trim_slashes cut_last
path_base path = if is_empty path then codes "." else elim (cut_last b'/' (trim_slashes path)) [
  | some (before, base) ↦ base
  | none ↦ if is_empty (trim_slashes path) then codes "/" else trim_slashes path
]

-- The name without its scope.
unfoldable pub unscoped : Text → Text
unfolding cut trim_prefix
unscoped name = elim (cut b'/' (trim_prefix name (codes "@"))) [ none ↦ name | some p ↦ p.1 ]

-- `versionFromTarball` behind the base name, for the text that comes before the version.
unfoldable pub version_behind : Text → Text → Text
unfolding has_suffix trim_suffix has_prefix trim_prefix
version_behind start base =
    let bare = trim_suffix base (codes ".tgz") in
    if not (has_suffix base (codes ".tgz"))
    then []
    else if not (has_prefix bare start)
    then []
    else trim_prefix bare start

-- `versionFromTarball`
unfoldable pub version_from_tarball : Text → Text → Text
unfolding path_base unscoped version_behind
version_from_tarball name file = version_behind (unscoped name ++ codes "-") (path_base file)

module _ (S : Semver) where
  -- The greatest version so far with its text, of the stable releases or of the prereleases.
  abbrev pub Best : Type 0
  Best = Option (S.Parsed × Text)

  -- `best == nil || parsed.GreaterThan(best)`
  unfoldable pub better : S.Parsed → Text → Best → Best
  better parsed version none = some (parsed, version)
  better parsed version (some (best, raw)) = elim (S.compare parsed best) [
    | Ordering.gt ↦ some (parsed, version)
    | _ ↦ some (best, raw)
  ]

  unfoldable pub greater_text : Text → Text → Text
  unfolding text_compare
  greater_text version any_raw =
      if is_empty any_raw
      then version
      else elim (text_compare version any_raw) [ Ordering.gt ↦ version | _ ↦ any_raw ]

  -- The loop of `highestVersion`, the versions in the order in which the map yields them.
  unfoldable pub highest_from : Best → Best → Text → List Text → Best × Best × Text
  unfolding better greater_text
  highest_from best fallback any_raw [] = (best, fallback, any_raw)
  highest_from best fallback any_raw (version ∷ versions) = elim (S.new_version version) [
    | none ↦ highest_from best fallback (greater_text version any_raw) versions
    | some parsed ↦
        let rest_stable =
          highest_from (better parsed version best) fallback (greater_text version any_raw)
            versions in
        let rest_fallback =
          highest_from best (better parsed version fallback) (greater_text version any_raw)
            versions in
        if is_empty (S.prerelease parsed) then rest_stable else rest_fallback
  ]

  abbrev pub raw_of : Best → Text
  raw_of none = []
  raw_of (some (best, raw)) = raw

  -- `highestVersion`
  unfoldable pub highest_version : List Text → Text
  unfolding highest_from
  highest_version versions =
      let found = highest_from none none [] versions in
      if not (is_empty (raw_of found.0))
      then raw_of found.0
      else if not (is_empty (raw_of found.1))
      then raw_of found.1
      else found.2
