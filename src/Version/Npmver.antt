-- ===== src/Version/Npmver.antt =====
-- internal/version/npmver/npmver.go: npm versions, over the semver library that it calls.
use pkgwatch.Base.{Ordering, Bool, true, false, not, Option}
use pkgwatch.Base.Text.{Text, codes, is_empty, trim_space, trim_prefix}
use pkgwatch.Version.{ParseError, Result, ok, ◌>>=◌, ◌>>◌, refuse_if, or_error}

-- github.com/Masterminds/semver/v3, as far as the program calls it.
pub record Semver : Type 1 where
  pub Parsed : Type 0
  pub strict_new : Text → Option Parsed
  pub new_version : Text → Option Parsed
  pub compare : Parsed → Parsed → Ordering
  pub prerelease : Parsed → Text

module _ (S : Semver) where
  -- `Version`
  pub record Version : Type 0 where
    pub v : S.Parsed
    pub raw : Text

  -- `Parse`
  unfoldable pub parse : Text → Result Version
  unfolding trim_space trim_prefix
  parse s = do
    let trimmed = trim_prefix (trim_space s) (codes "v")
    refuse_if (is_empty trimmed) ParseError.empty_version
    v ← or_error (S.strict_new trimmed) ParseError.not_a_version
    ok (record { v = v; raw = trimmed })

  -- `String`
  abbrev pub to_string : Version → Text
  to_string x = x.raw

  -- `IsPrerelease`
  abbrev pub is_prerelease : Version → Bool
  is_prerelease x = not (is_empty (S.prerelease x.v))

  -- `Compare`
  unfoldable pub compare_npm : Version → Version → Ordering
  compare_npm a b = S.compare a.v b.v

  -- `Less` and `Equal`
  unfoldable pub less : Version → Version → Bool
  unfolding compare_npm
  less x other = elim (compare_npm x other) [ Ordering.lt ↦ true | _ ↦ false ]

  unfoldable pub equal : Version → Version → Bool
  unfolding compare_npm
  equal x other = elim (compare_npm x other) [ Ordering.eq ↦ true | _ ↦ false ]
