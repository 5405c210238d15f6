-- ===== src/Scanner/Tests.antt =====
-- One package twice and another once, through the collapse of internal/scanner/scanner.go.
use pkgwatch.Base.{
  ℕ, ◌+◌, ◌++◌, Bool, true, false, List, ◌∷◌, [], Option, none, map, length, All, Any, ◌≡◌, refl,
}
use pkgwatch.Base.Text.{Text, codes}
use pkgwatch.Match.Purl.{PackageUrl, package_url}
use pkgwatch.Match.Ecosystem.{base_ecosystem}
use pkgwatch.Match.Tests.{text_semver, no_fold}
use pkgwatch.Scanner.{Package, PackageRow, collapse, package_purl}
use pkgwatch.Scanner.Collapse.{Covers, IsKeyed, collapse_lem}

-- A library that prints purls without a namespace and qualifiers, and reads none.
abbrev print_short : PackageUrl → Text
print_short u = u.kind ++ b'/' ∷ u.name ++ b'@' ∷ u.version

abbrev read_none : Text → Option PackageUrl
read_none raw = none

abbrev installed_at : Text → Text → Bool → Package
installed_at version scope scripts = record {
  ecosystem = codes "npm";
  name = codes "left-pad";
  version = version;
  scope = scope;
  install_dir = codes "/srv/" ++ scope;
  has_scripts = scripts;
  dir_mtime = 7;
}

abbrev two_copies : List Package
two_copies =
    installed_at (codes "1.3.0") (codes "project") true
    ∷ installed_at (codes "1.2.0") (codes "venv") false
    ∷ installed_at (codes "1.3.0") (codes "global") false
    ∷ []

abbrev collapsed : List PackageRow × ℕ
collapsed = collapse text_semver no_fold print_short read_none two_copies

-- The global copy gives the scope, the first one the scripts.
collapsed_scopes :
    map {B = Text × Bool} (λ r. (r.scope, r.has_scripts)) collapsed.0
    ≡ (codes "global", true) ∷ (codes "venv", false) ∷ []
unfolding collapse package_url base_ecosystem package_purl
collapsed_scopes = refl

one_copy : collapsed.1 ≡ 1
unfolding collapse package_url base_ecosystem package_purl
one_copy = refl

collapse_lem_example :
    IsKeyed collapsed.0
    × All
        (λ p. Any (Covers (package_purl text_semver no_fold print_short read_none) p) collapsed.0)
        two_copies
    × length collapsed.0 + collapsed.1 ≡ length two_copies
collapse_lem_example = collapse_lem text_semver no_fold print_short read_none two_copies
