-- ===== src/Osv/Supported.antt =====
-- What `Advisories` of internal/osv/osv.go lets through.
use pkgwatch.Base.{ℕ, true, List, [], ◌∷◌, ◌≡◌, refl, All, Bool-cases, inl, inr, ◌⊎◌}
use pkgwatch.Base.Text.{Text, text_eq}
use pkgwatch.Base.Text.Laws.{text_eq-eq}
use pkgwatch.Version.Npmver.{Semver}
use pkgwatch.Match.{Range, Advisory, kind_malware}
use pkgwatch.Match.Ecosystem.{supported}
use pkgwatch.Osv.{
  Affected, Record, advisory_of, versions_of, advisories_from, advisories, ranges_of, kind_of,
}

-- An advisory can be compared, and has both versions and ranges only if it is malware.
pub record IsStored (S : Semver) (table : ℕ → ℕ) {Num : Type 0} (adv : Advisory Num) : Type 0 where
  pub comparable : supported S table adv.ecosystem ≡ true
  pub once : (adv.ranges ≡ []) ⊎ (adv.kind ≡ kind_malware) ⊎ (adv.versions ≡ [])

versions_of_once :
    (kind : Text) (ranges : List Range) (versions : List Text)
    → (ranges ≡ []) ⊎ (kind ≡ kind_malware) ⊎ (versions_of kind ranges versions ≡ [])
unfolding versions_of
versions_of_once kind [] versions = inl refl
versions_of_once kind (r ∷ rs) versions = elim (Bool-cases (text_eq kind kind_malware)) [
  | inl m ↦ inr (inl (text_eq-eq kind kind_malware m))
  | inr m ↦ inr (inr (rw m))
]

module _ (S : Semver) (table : ℕ → ℕ) {Num : Type 0} (rec : Record Num) where
  once_of :
      (a : Affected)
      → ((advisory_of rec a).ranges ≡ [])
        ⊎ ((advisory_of rec a).kind ≡ kind_malware)
        ⊎ ((advisory_of rec a).versions ≡ [])
  unfolding advisory_of
  once_of a = versions_of_once (kind_of rec.id) (ranges_of a.ranges) a.versions

  ecosystem-advisory_of : (a : Affected) → (advisory_of rec a).ecosystem ≡ a.ecosystem
  unfolding advisory_of
  ecosystem-advisory_of a = refl

  advisories_from-IsStored :
      (affected : List Affected) → All (IsStored S table) (advisories_from S table rec affected)
  unfolding advisories_from
  advisories_from-IsStored [] = tt
  advisories_from-IsStored (a ∷ affected) = elim (Bool-cases (supported S table a.ecosystem)) [
    | inr n ↦ rw n (advisories_from-IsStored affected)
    | inl y ↦ rw y (
      record { comparable = rw (ecosystem-advisory_of a) y; once = once_of a },
      advisories_from-IsStored affected,
    )
  ]

  -- Every advisory that a record yields can be compared, and stores versions beside its ranges
  -- only if it is malware.
  pub advisories-IsStored : All (IsStored S table) (advisories S table rec)
  unfolding advisories
  advisories-IsStored = advisories_from-IsStored rec.affected
