-- ===== src/Gate/Npm/Tarball.antt =====
-- `versionFromTarball` of internal/gate/npm.go on the names that npm gives its tarballs.
use pkgwatch.Base.Text.{Text}
