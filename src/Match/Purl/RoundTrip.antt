-- ===== src/Match/Purl/RoundTrip.antt =====
-- A purl names the package that it was made of: `PURL` and `ParsePURL` of internal/match.
use pkgwatch.Base.{ℕ, false, [], ◌∷◌, ◌++◌, Option, some, ◌≡◌, refl, ◌∙◌, ap, arith, if◌then◌else◌}
use pkgwatch.Base.Text.{
  Text, codes, text_eq, is_empty, Lacks, cut, trim_prefix, strip_prefix, to_lower,
}
use pkgwatch.Base.Text.Laws.{cut_at, cut-none, cut_last_at, cut_last-none}
use pkgwatch.Version.Npmver.{Semver}
use pkgwatch.Match.Ecosystem.{
  base_ecosystem, normalize_pep503, ecosystem_npm, ecosystem_pypi, ecosystem_debian,
  ecosystem_ubuntu, ecosystem_alpine, ecosystem_go, ecosystem_crates,
}
use pkgwatch.Match.Purl.{
  PackageUrl, Named, Parsed, failed, parsed, no_version, npm_url, go_url, deb_url, apk_url,
  release_of, package_url, ecosystem_from_purl, deb_ecosystem, find_ecosystem, full_name, named_by,
  purl, parse_purl_base, parse_purl,
}

trim_bare : (name : Text) → Lacks b'@' name → trim_prefix name (codes "@") ≡ name
unfolding trim_prefix strip_prefix
trim_bare [] h = refl
trim_bare (c ∷ s) h = ground arith

npm_bare_url :
    (name version : Text)
    → Lacks b'/' name
    → Lacks b'@' name
    → npm_url name version
      ≡ record { kind = codes "npm"; namespace = []; name = name; version = version; distro = [] }
unfolding npm_url
npm_bare_url name version slash at = rw (trim_bare name at, cut-none b'/' name slash)

npm_scoped_url :
    (scope bare version : Text)
    → Lacks b'/' scope
    → npm_url (b'@' ∷ scope ++ b'/' ∷ bare) version ≡ record {
      kind = codes "npm";
      namespace = b'@' ∷ scope;
      name = bare;
      version = version;
      distro = [];
    }
unfolding npm_url trim_prefix strip_prefix
npm_scoped_url scope bare version slash = rw (npm_url, cut_at b'/' scope bare slash)

go_path_url :
    (host : ℕ) (path bare version : Text)
    → Lacks b'/' bare
    → go_url (host ∷ path ++ b'/' ∷ bare) version ≡ record {
      kind = codes "golang";
      namespace = host ∷ path;
      name = bare;
      version = version;
      distro = [];
    }
unfolding go_url
go_path_url host path bare version slash = rw (go_url, cut_last_at b'/' (host ∷ path) bare slash)

go_bare_url :
    (name version : Text)
    → Lacks b'/' name
    → go_url name version ≡ record {
      kind = codes "golang";
      namespace = [];
      name = name;
      version = version;
      distro = [];
    }
unfolding go_url
go_bare_url name version slash = rw (go_url, cut_last-none b'/' name slash)

module _ (S : Semver) (table : ℕ → ℕ) where
  -- The packages whose name the registry of their ecosystem could hold.
  pub data IsSpelled : Text → Text → Type 0 where
    npm_bare : (name : Text) → Lacks b'/' name → Lacks b'@' name → IsSpelled ecosystem_npm name
    npm_scoped :
        (scope bare : Text)
        → Lacks b'/' scope
        → IsSpelled ecosystem_npm (b'@' ∷ scope ++ b'/' ∷ bare)
    pypi : (name : Text) → normalize_pep503 S table name ≡ name → IsSpelled ecosystem_pypi name
    go_bare : (name : Text) → Lacks b'/' name → IsSpelled ecosystem_go name
    go_path :
        (host : ℕ) (path bare : Text)
        → Lacks b'/' bare
        → IsSpelled ecosystem_go (host ∷ path ++ b'/' ∷ bare)
    crates : (name : Text) → IsSpelled ecosystem_crates name
    debian : (c : ℕ) (release name : Text) → IsSpelled (ecosystem_debian ++ b':' ∷ c ∷ release) name
    ubuntu : (c : ℕ) (release name : Text) → IsSpelled (ecosystem_ubuntu ++ b':' ∷ c ∷ release) name
    alpine : (c : ℕ) (release name : Text) → IsSpelled (ecosystem_alpine ++ b':' ∷ c ∷ release) name

  abbrev Back : Text → Text → Text → Type 0
  Back ecosystem name version =
      named_by S table (package_url S table ecosystem name version)
      ≡ parsed (record { ecosystem = ecosystem; name = name; version = version })

  back : (ecosystem name version : Text) → IsSpelled ecosystem name → Back ecosystem name version
  unfolding named_by package_url base_ecosystem cut ecosystem_from_purl full_name text_eq
      find_ecosystem to_lower deb_url apk_url release_of deb_ecosystem
  back _ name version (crates n) = refl
  back _ name version (debian c release n) = refl
  back _ name version (ubuntu c release n) = refl
  back _ name version (alpine c release n) = refl
  back _ name version (pypi n e) =
      ap (λ n. parsed (record { ecosystem = ecosystem_pypi; name = n; version = version })) e
  back _ name version (npm_bare n a b) = ap (λ u. named_by S table u) (npm_bare_url n version a b)
  back _ name version (npm_scoped scope bare a) =
      ap (λ u. named_by S table u) (npm_scoped_url scope bare version a)
  back _ name version (go_bare n a) = ap (λ u. named_by S table u) (go_bare_url n version a)
  back _ name version (go_path host path bare a) =
      ap (λ u. named_by S table u) (go_path_url host path bare version a)

  module _ (print : PackageUrl → Text) (read : Text → Option PackageUrl) (raw : Text) where
    parse_purl_base_of :
        (u : PackageUrl)
        → read raw ≡ some u
        → parse_purl_base S table print read raw ≡ named_by S table u
    unfolding parse_purl_base
    parse_purl_base_of u e = rw (parse_purl_base, e)

    parse_purl_of :
        (pkg : Named)
        → parse_purl_base S table print read raw ≡ parsed pkg
        → is_empty pkg.version ≡ false
        → parse_purl S table print read raw ≡ parsed pkg
    unfolding parse_purl
    parse_purl_of pkg e full = ap step e ∙ rw full
      where
        step : Parsed Named → Parsed Named
        step r = elim r [
          | failed e ↦ failed e
          | parsed pkg ↦ if is_empty pkg.version then failed no_version else parsed pkg
        ]

  -- If the library reads back the purl that it printed, ParsePURL gives back the package that PURL
  -- was given, spelled as its registry has it, with its version, the release of its distribution
  -- and its npm scope.
  pub parse_purl-purl :
      (print : PackageUrl → Text) (read : Text → Option PackageUrl)
      → (ecosystem name : Text) (c : ℕ) (version : Text)
      → read (print (package_url S table ecosystem name (c ∷ version)))
        ≡ some (package_url S table ecosystem name (c ∷ version))
      → IsSpelled ecosystem name
      → parse_purl S table print read (purl S table print read ecosystem name (c ∷ version))
        ≡ parsed (record { ecosystem = ecosystem; name = name; version = c ∷ version })
  unfolding purl
  parse_purl-purl print read ecosystem name c version reads spelled =
      parse_purl_of print read _ _
        (parse_purl_base_of print read _ (package_url S table ecosystem name (c ∷ version)) reads
          ∙ back ecosystem name (c ∷ version) spelled)
        refl
