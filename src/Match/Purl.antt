-- ===== src/Match/Purl.antt =====
-- internal/match/purl.go and parse.go: the spelling of a package as a purl, and back. The purl
-- library prints and parses; it is a parameter.
pub mod RoundTrip
use pkgwatch.Base.{
  ℕ, Bool, true, false, ◌&&◌, ◌||◌, not, List, [], ◌∷◌, ◌++◌, Option, none, some, if◌then◌else◌,
  ◌≡◌,
}
use pkgwatch.Base.Text.{Text, codes, text_eq, is_empty, cut, cut_last, to_lower, trim_prefix}
use pkgwatch.Match.Ecosystem.{
  base_ecosystem, normalize_name, ecosystem_npm, ecosystem_pypi, ecosystem_debian, ecosystem_ubuntu,
  ecosystem_alpine, ecosystem_go, ecosystem_crates,
}
use pkgwatch.Version.Npmver.{Semver}

-- The fields of packageurl.PackageURL that are in use; `distro` is that qualifier, "" if absent.
pub record PackageUrl : Type 0 where
  pub kind : Text
  pub namespace : Text
  pub name : Text
  pub version : Text
  pub distro : Text

-- The package that a purl names; its other fields are unset.
pub record Named : Type 0 where
  pub ecosystem : Text
  pub name : Text
  pub version : Text

-- The errors of the parser.
pub data PurlError : Type 0 where
  not_a_purl no_version no_distro no_release unsupported_type : PurlError

pub data Parsed (V : Type 0) : Type 0 where
  failed : PurlError → Parsed V
  parsed : V → Parsed V

-- `releaseOf`
unfoldable pub release_of : Text → Text
unfolding cut
release_of ecosystem = elim (cut b':' ecosystem) [ none ↦ [] | some p ↦ p.1 ]

-- The scope and the bare name of an npm package.
unfoldable pub npm_url : Text → Text → PackageUrl
unfolding cut trim_prefix
npm_url name version = elim (cut b'/' (trim_prefix name (codes "@"))) [
  | some (scope, bare) ↦ record {
    kind = codes "npm";
    namespace = b'@' ∷ scope;
    name = bare;
    version = version;
    distro = [];
  }
  | none ↦ record {
    kind = codes "npm";
    namespace = [];
    name = name;
    version = version;
    distro = [];
  }
]

unfoldable pub go_url : Text → Text → PackageUrl
unfolding cut_last
go_url name version = elim (cut_last b'/' name) [
  | some (namespace, bare) ↦ record {
    kind = codes "golang";
    namespace = namespace;
    name = bare;
    version = version;
    distro = [];
  }
  | none ↦ record {
    kind = codes "golang";
    namespace = [];
    name = name;
    version = version;
    distro = [];
  }
]

abbrev plain_url : Text → Text → Text → PackageUrl
plain_url kind name version = record {
  kind = kind;
  namespace = [];
  name = name;
  version = version;
  distro = [];
}

unfoldable pub deb_url : Text → Text → Text → Text → PackageUrl
deb_url namespace release name version = record {
  kind = codes "deb";
  namespace = namespace;
  name = name;
  version = version;
  distro = if is_empty release then [] else namespace ++ b'-' ∷ release;
}

unfoldable pub apk_url : Text → Text → Text → PackageUrl
apk_url release name version = record {
  kind = codes "apk";
  namespace = codes "alpine";
  name = name;
  version = version;
  distro = release;
}

-- `debEcosystem`: `ubuntu` is the answer of `EqualFold`.
unfoldable pub deb_ecosystem : Bool → Text → Parsed Text
unfolding cut
deb_ecosystem ubuntu distro =
    let base = if ubuntu then ecosystem_ubuntu else ecosystem_debian in
    let release = elim (cut b'-' distro) as (λ _. Text) [ none ↦ distro | some p ↦ p.1 ] in
    if is_empty release then failed no_release else parsed (base ++ b':' ∷ release)

-- A lookup in `purlTypeToEcosystem`.
unfoldable pub find_ecosystem : Text → List (Text × Text) → Option Text
unfolding text_eq
find_ecosystem kind [] = none
find_ecosystem kind ((key, ecosystem) ∷ rest) =
    if text_eq key kind then some ecosystem else find_ecosystem kind rest

abbrev pub purl_types : List (Text × Text)
purl_types =
    (codes "npm", ecosystem_npm)
    ∷ (codes "pypi", ecosystem_pypi)
    ∷ (codes "golang", ecosystem_go)
    ∷ (codes "cargo", ecosystem_crates)
    ∷ (codes "apk", ecosystem_alpine)
    ∷ []

-- The name with its namespace, for the types that keep a part of the name there.
unfoldable pub full_name : PackageUrl → Text
unfolding text_eq
full_name u =
    if not (is_empty u.namespace)
      && (text_eq u.kind (codes "npm")
          || text_eq u.kind (codes "golang")
          || text_eq u.kind (codes "maven"))
    then u.namespace ++ b'/' ∷ u.name
    else u.name

module _ (S : Semver) (table : ℕ → ℕ) where
  -- `PURL` before it is printed.
  unfoldable pub package_url : Text → Text → Text → PackageUrl
  unfolding text_eq base_ecosystem npm_url go_url deb_url apk_url release_of normalize_name to_lower
  package_url ecosystem name version =
      let base = base_ecosystem ecosystem in
      if text_eq base ecosystem_npm
      then npm_url name version
      else if text_eq base ecosystem_pypi
      then plain_url (codes "pypi") (normalize_name S table ecosystem name) version
      else if text_eq base ecosystem_go
      then go_url name version
      else if text_eq base ecosystem_crates
      then plain_url (codes "cargo") name version
      else if text_eq base ecosystem_debian || text_eq base ecosystem_ubuntu
      then deb_url (to_lower table base) (release_of ecosystem) name version
      else if text_eq base ecosystem_alpine
      then apk_url (release_of ecosystem) name version
      else plain_url (to_lower table base) name version

  -- `ecosystemFromPURL`
  unfoldable pub ecosystem_from_purl : PackageUrl → Parsed Text
  unfolding text_eq deb_ecosystem find_ecosystem to_lower
  ecosystem_from_purl u =
      if text_eq u.kind (codes "deb")
      then if is_empty u.distro
        then failed no_distro
        else deb_ecosystem (text_eq (to_lower table u.namespace) (codes "ubuntu")) u.distro
      else elim (find_ecosystem (to_lower table u.kind) purl_types) [
        | none ↦ failed unsupported_type
        | some ecosystem ↦
            if text_eq u.kind (codes "apk") && not (is_empty u.distro)
            then parsed (ecosystem_alpine ++ b':' ∷ u.distro)
            else parsed ecosystem
      ]

  -- `ParsePURLBase` behind the library's parser.
  unfoldable pub named_by : PackageUrl → Parsed Named
  unfolding ecosystem_from_purl full_name
  named_by u = elim (ecosystem_from_purl u) [
    | failed e ↦ failed e
    | parsed ecosystem ↦
        parsed (record { ecosystem = ecosystem; name = full_name u; version = u.version })
  ]

  module _ (print : PackageUrl → Text) (read : Text → Option PackageUrl) where
    -- `PURL`
    unfoldable pub purl : Text → Text → Text → Text
    unfolding package_url
    purl ecosystem name version = print (package_url ecosystem name version)

    -- `PURLBase`
    unfoldable pub purl_base : Text → Text → Text
    unfolding purl
    purl_base ecosystem name = purl ecosystem name []

    -- `ParsePURLBase`
    unfoldable pub parse_purl_base : Text → Parsed Named
    unfolding named_by
    parse_purl_base raw = elim (read raw) [ none ↦ failed not_a_purl | some u ↦ named_by u ]

    -- `ParsePURL`
    unfoldable pub parse_purl : Text → Parsed Named
    unfolding parse_purl_base
    parse_purl raw = elim (parse_purl_base raw) [
      | failed e ↦ failed e
      | parsed pkg ↦ if is_empty pkg.version then failed no_version else parsed pkg
    ]
