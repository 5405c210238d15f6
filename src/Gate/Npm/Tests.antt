-- ===== src/Gate/Npm/Tests.antt =====
-- Runs of the npm gate's choice of versions.
use pkgwatch.Base.{true, [], ◌∷◌, ◌≡◌, refl}
use pkgwatch.Base.Text.{codes}
use pkgwatch.Match.Tests.{text_semver}
use pkgwatch.Gate.Npm.{version_from_tarball, highest_version}
use pkgwatch.Gate.Npm.Highest.{is_stable, highest_version_stable}

scoped :
    version_from_tarball (codes "@ctrl/tinycolor") (codes "tinycolor-4.1.2.tgz") ≡ codes "4.1.2"
unfolding version_from_tarball
scoped = refl

highest_version_stable_example :
    is_stable text_semver (highest_version text_semver (codes "1.0.0" ∷ codes "2.0.0" ∷ [])) ≡ true
highest_version_stable_example =
    highest_version_stable text_semver (codes "1.0.0" ∷ codes "2.0.0" ∷ []) (refl, (refl, tt)) refl
