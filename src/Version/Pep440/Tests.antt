-- ===== src/Version/Pep440/Tests.antt =====
-- Runs of internal/version/pep440/pep440.go on concrete versions.
use pkgwatch.Base.{ℕ, ◌∷◌, [], ◌≡◌, refl, true, false, Option, none, some}
use pkgwatch.Base.Text.{Text, codes}
use pkgwatch.Version.{ok, err}
use pkgwatch.Version.Pep440.{Version, pre_beta, less, is_prerelease}
use pkgwatch.Version.Pep440.Parse.{parse, to_string}
use pkgwatch.Version.Pep440.Phases.{final_of, less-is_prerelease}

abbrev ascii_only : ℕ → ℕ
ascii_only c = c

normalized : Text → Option Text
unfolding parse to_string
normalized s = elim (parse ascii_only s) [ ok v ↦ some (to_string v) | err e ↦ none ]

parse_spellings :
    normalized (codes " v1!2.0-ALPHA.3-4_dev+Ubuntu-7 ")
    ≡ some (codes "1!2.0a3.post4.dev0+ubuntu.7")
unfolding normalized
parse_spellings = refl

parse_rc : normalized (codes "1.0rc1") ≡ some (codes "1.0rc1")
unfolding normalized
parse_rc = refl

parse_py : normalized (codes "2.23.0-py2.7") ≡ none
unfolding normalized
parse_py = refl

parse_r : normalized (codes "1.0.r2") ≡ some (codes "1.0.post2")
unfolding normalized
parse_r = refl

abbrev numpy : Version
numpy = record {
  epoch = 0;
  release = 2 ∷ 1 ∷ [];
  has_pre = true;
  pre_kind = pre_beta;
  pre_num = 4;
  has_post = false;
  post_num = 0;
  has_dev = true;
  dev_num = 1;
  local = [];
}

less-is_prerelease_example : less numpy (final_of numpy) ≡ is_prerelease numpy
less-is_prerelease_example = less-is_prerelease numpy refl
