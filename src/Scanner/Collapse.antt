-- ===== src/Scanner/Collapse.antt =====
-- `collapse` of internal/scanner/scanner.go: one row for each purl, with the widest scope.
use pkgwatch.Base.{
  Option, ℕ, suc, ◌+◌, ◌≤◌, true, false, ltb, List, [], ◌∷◌, if◌then◌else◌, length, All, Any, ◌≡◌,
  refl, sym, ◌∙◌, ap, ◌⊎◌, inl, inr, arith, Bool-cases,
}
use pkgwatch.Base.Text.{Text, text_eq}
use pkgwatch.Base.Text.Laws.{text_eq_iff}
use pkgwatch.Base.Select.{count}
use pkgwatch.Scanner.{
  Package, PackageRow, scope_rank, merge, has_purl, add_package, collapse_onto, collapse,
  package_purl,
}
use pkgwatch.Match.Purl.{PackageUrl}
use pkgwatch.Version.Npmver.{Semver}

abbrev pub IsKeyed : List PackageRow → Type 0
IsKeyed rows = (key : Text) → count (λ r. text_eq r.purl key) rows ≤ 1

module _ (purl_of : Package → Text) where
  -- The row is the package's, with a scope at least as wide, and its scripts.
  pub record Covers (p : Package) (r : PackageRow) : Type 0 where
    pub purl : r.purl ≡ purl_of p
    pub scope : scope_rank p.scope ≤ scope_rank r.scope
    pub scripts : (p.has_scripts ≡ false) ⊎ (r.has_scripts ≡ true)

  merge-Covers_new : (p : Package) (r : PackageRow) → r.purl ≡ purl_of p → Covers p (merge p r)
  unfolding merge
  merge-Covers_new p r e = elim (Bool-cases (ltb (scope_rank r.scope) (scope_rank p.scope))) [
    | inl wider ↦ rw wider (record { purl = e; scope = omega arith; scripts = ground arith })
    | inr narrower ↦ rw narrower (record { purl = e; scope = ground arith; scripts = ground arith })
  ]

  merge-Covers_old : (p q : Package) (r : PackageRow) → Covers q r → Covers q (merge p r)
  unfolding merge
  merge-Covers_old p q r h = elim (Bool-cases (ltb (scope_rank r.scope) (scope_rank p.scope))) [
    | inl wider ↦ rw wider (record {
      purl = h.purl;
      scope = ground (arith, h.scope);
      scripts = ground (arith, h.scripts);
    })
    | inr narrower ↦
        rw narrower (record { purl = h.purl; scope = h.scope; scripts = ground (arith, h.scripts) })
  ]

  add_package-Covers_new :
      (p : Package) (rows : List PackageRow) → Any (Covers p) (add_package purl_of p rows)
  unfolding add_package
  add_package-Covers_new p [] =
      inl (record { purl = refl; scope = omega arith; scripts = ground arith })
  add_package-Covers_new p (r ∷ rows) = elim (Bool-cases (text_eq r.purl (purl_of p))) [
    | inl same ↦ rw same (inl (merge-Covers_new p r ((text_eq_iff r.purl (purl_of p)).0 same)))
    | inr other ↦ rw other (inr (add_package-Covers_new p rows))
  ]

  add_package-Covers_old :
      (p q : Package) (rows : List PackageRow)
      → Any (Covers q) rows
      → Any (Covers q) (add_package purl_of p rows)
  unfolding add_package
  add_package-Covers_old p q [] h = absurd h
  add_package-Covers_old p q (r ∷ rows) (inl h) = elim (Bool-cases (text_eq r.purl (purl_of p))) [
    | inl same ↦ rw same (inl (merge-Covers_old p q r h))
    | inr other ↦ rw other (inl h)
  ]
  add_package-Covers_old p q (r ∷ rows) (inr h) = elim (Bool-cases (text_eq r.purl (purl_of p))) [
    | inl same ↦ rw same (inr h)
    | inr other ↦ rw other (inr (add_package-Covers_old p q rows h))
  ]

  merge_purl : (p : Package) (r : PackageRow) → (merge p r).purl ≡ r.purl
  unfolding merge
  merge_purl p r = ground arith

  -- One more package is one more row or one more copy.
  length-add_package :
      (p : Package) (rows : List PackageRow)
      → length (add_package purl_of p rows)
        ≡ (if has_purl (purl_of p) rows then length rows else suc (length rows))
  unfolding add_package
  length-add_package p [] = refl
  length-add_package p (r ∷ rows) = ground (arith, length-add_package p rows)

  -- No count of a purl rises but that of a purl that had no row.
  count-add_package :
      (purl : Text) (p : Package) (rows : List PackageRow)
      → count (λ r. text_eq r.purl purl) (add_package purl_of p rows)
        ≡ (if has_purl (purl_of p) rows then 0 else if text_eq (purl_of p) purl then 1 else 0)
          + count (λ r. text_eq r.purl purl) rows
  unfolding add_package
  count-add_package purl p [] = ground arith
  count-add_package purl p (r ∷ rows) =
      ground (arith, count-add_package purl p rows, merge_purl p r)

  count_no_purl :
      (purl : Text) (rows : List PackageRow)
      → has_purl purl rows ≡ false
      → count (λ r. text_eq r.purl purl) rows ≡ 0
  count_no_purl purl [] h = refl
  count_no_purl purl (r ∷ rows) h = ground (arith, count_no_purl purl rows)

  add_package-IsKeyed :
      (p : Package) (rows : List PackageRow) → IsKeyed rows → IsKeyed (add_package purl_of p rows)
  add_package-IsKeyed p rows h purl = elim (Bool-cases (has_purl (purl_of p) rows)) [
    | inl had ↦ ground (arith, h purl, count-add_package purl p rows)
    | inr fresh ↦ elim (Bool-cases (text_eq (purl_of p) purl)) [
      | inl same ↦
          let e = (text_eq_iff (purl_of p) purl).0 same in
          let absent = count_no_purl purl rows (ap (λ x. has_purl x rows) (sym e) ∙ fresh) in
          ground (arith, absent, count-add_package purl p rows)
      | inr other ↦ ground (arith, h purl, count-add_package purl p rows)
    ]
  ]

  collapse_onto-IsKeyed :
      (packages : List Package) (rows : List PackageRow) (copies : ℕ)
      → IsKeyed rows
      → IsKeyed (collapse_onto purl_of rows copies packages).0
  unfolding collapse_onto
  collapse_onto-IsKeyed [] rows copies h = h
  collapse_onto-IsKeyed (p ∷ packages) rows copies h =
      collapse_onto-IsKeyed packages (add_package purl_of p rows) _ (add_package-IsKeyed p rows h)

  -- Each package is in one row or is one copy.
  length-collapse_onto :
      (packages : List Package) (rows : List PackageRow) (copies : ℕ)
      → length (collapse_onto purl_of rows copies packages).0
          + (collapse_onto purl_of rows copies packages).1
        ≡ length rows + copies + length packages
  unfolding collapse_onto
  length-collapse_onto [] rows copies = omega arith
  length-collapse_onto (p ∷ packages) rows copies = ground (
    arith,
    length-add_package p rows,
    length-collapse_onto packages (add_package purl_of p rows)
        (if has_purl (purl_of p) rows then copies + 1 else copies),
  )

  collapse_onto-Covers_old :
      (q : Package) (packages : List Package) (rows : List PackageRow) (copies : ℕ)
      → Any (Covers q) rows
      → Any (Covers q) (collapse_onto purl_of rows copies packages).0
  unfolding collapse_onto
  collapse_onto-Covers_old q [] rows copies h = h
  collapse_onto-Covers_old q (p ∷ packages) rows copies h =
      collapse_onto-Covers_old q packages (add_package purl_of p rows) _
        (add_package-Covers_old p q rows h)

  collapse_onto-Covers :
      (packages : List Package) (rows : List PackageRow) (copies : ℕ)
      → All (λ q. Any (Covers q) (collapse_onto purl_of rows copies packages).0) packages
  unfolding collapse_onto
  collapse_onto-Covers [] rows copies = tt
  collapse_onto-Covers (p ∷ packages) rows copies = (
    collapse_onto-Covers_old p packages (add_package purl_of p rows) _
        (add_package-Covers_new p rows),
    collapse_onto-Covers packages (add_package purl_of p rows) _,
  )

module _ (S : Semver) (table : ℕ → ℕ) (print : PackageUrl → Text)
    (read : Text → Option PackageUrl) where
  -- `collapse` leaves at most one row for each purl; every package is covered by a row of its purl
  -- whose scope is at least as wide and which has scripts when the package has; and the rows and the
  -- copies together are as many as the packages.
  pub collapse_lem :
      (packages : List Package)
      → IsKeyed (collapse S table print read packages).0
        × All
            (λ p.
              Any
                (Covers (package_purl S table print read) p)
                (collapse S table print read packages).0)
            packages
        × length (collapse S table print read packages).0 + (collapse S table print read packages).1
          ≡ length packages
  unfolding collapse
  collapse_lem packages =
      let by = package_purl S table print read in
      (
        collapse_onto-IsKeyed by packages [] 0 (λ key. omega arith),
        collapse_onto-Covers by packages [] 0,
        omega (arith, length-collapse_onto by packages [] 0),
      )
