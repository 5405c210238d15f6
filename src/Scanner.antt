-- ===== src/Scanner.antt =====
-- internal/scanner/scanner.go: what a scan has found, as rows of the inventory, with Package of
-- internal/collect/collect.go and its PURL.
pub mod Collapse
mod Tests
use pkgwatch.Base.{
  Option, ℕ, suc, ◌+◌, Bool, true, false, ◌||◌, ltb, List, [], ◌∷◌, if◌then◌else◌, any,
}
use pkgwatch.Base.Text.{Text, codes, text_eq}
use pkgwatch.Match.Purl.{PackageUrl, purl}
use pkgwatch.Version.Npmver.{Semver}

-- `Package`
pub record Package : Type 0 where
  pub ecosystem : Text
  pub name : Text
  pub version : Text
  pub install_dir : Text
  pub scope : Text
  pub has_scripts : Bool
  pub dir_mtime : ℕ

-- `PackageRow`, as `collapse` fills it.
pub record PackageRow : Type 0 where
  pub purl : Text
  pub ecosystem : Text
  pub name : Text
  pub version : Text
  pub install_dir : Text
  pub scope : Text
  pub has_scripts : Bool
  pub dir_mtime : ℕ

-- `scopeRank`
unfoldable pub scope_rank : Text → ℕ
unfolding text_eq
scope_rank scope =
    if text_eq scope (codes "global")
    then 4
    else if text_eq scope (codes "system")
    then 3
    else if text_eq scope (codes "venv")
    then 2
    else 1

module _ (S : Semver) (table : ℕ → ℕ) (print : PackageUrl → Text)
    (read : Text → Option PackageUrl) where
  -- `PURL`
  unfoldable pub package_purl : Package → Text
  unfolding purl
  package_purl p = purl S table print read p.ecosystem p.name p.version

abbrev pub found_row : (Package → Text) → Package → PackageRow
found_row purl_of p = record {
  purl = purl_of p;
  ecosystem = p.ecosystem;
  name = p.name;
  version = p.version;
  install_dir = p.install_dir;
  scope = p.scope;
  has_scripts = p.has_scripts;
  dir_mtime = p.dir_mtime;
}

-- The scope, the directory and its time of the wider of the two, and the scripts of both.
unfoldable pub merge : Package → PackageRow → PackageRow
unfolding scope_rank
merge p r =
    if ltb (scope_rank r.scope) (scope_rank p.scope)
    then record r {
      scope = p.scope;
      install_dir = p.install_dir;
      dir_mtime = p.dir_mtime;
      has_scripts = r.has_scripts || p.has_scripts;
    }
    else record r { has_scripts = r.has_scripts || p.has_scripts }

abbrev pub has_purl : Text → List PackageRow → Bool
has_purl purl rows = any (λ r. text_eq r.purl purl) rows

-- The rows after one more package: the map `seen` is the position of its purl.
unfoldable pub add_package : (Package → Text) → Package → List PackageRow → List PackageRow
unfolding merge text_eq
add_package purl_of p [] = found_row purl_of p ∷ []
add_package purl_of p (r ∷ rows) =
    let rest = add_package purl_of p rows in
    if text_eq r.purl (purl_of p) then merge p r ∷ rows else r ∷ rest

-- The loop of `collapse`.
unfoldable pub collapse_onto :
    (Package → Text) → List PackageRow → ℕ → List Package → List PackageRow × ℕ
unfolding add_package text_eq
collapse_onto purl_of rows copies [] = (rows, copies)
collapse_onto purl_of rows copies (p ∷ packages) =
    collapse_onto purl_of (add_package purl_of p rows)
      (if has_purl (purl_of p) rows then copies + 1 else copies) packages

module _ (S : Semver) (table : ℕ → ℕ) (print : PackageUrl → Text)
    (read : Text → Option PackageUrl) where
  -- `collapse`, with the number of the copies.
  unfoldable pub collapse : List Package → List PackageRow × ℕ
  unfolding collapse_onto
  collapse packages = collapse_onto (package_purl S table print read) [] 0 packages
