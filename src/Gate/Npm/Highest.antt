-- ===== src/Gate/Npm/Highest.antt =====
-- `highestVersion` of internal/gate/npm.go never points a tag at a prerelease without need.
use pkgwatch.Base.{
  Ordering, Bool, true, false, ◌||◌, List, [], ◌∷◌, Option, none, some, ◌≡◌, refl, sym, ◌∙◌, ap,
  Bool-cases, inl, inr, ◌⊎◌, All, any,
}
use mathlib.Core.Path.{subst}
use pkgwatch.Base.Text.{Text, is_empty}
use pkgwatch.Version.Npmver.{Semver}
use pkgwatch.Gate.Npm.{Best, better, greater_text, highest_from, raw_of, highest_version}

module _ (S : Semver) where
  -- A text that parses, and as no prerelease.
  abbrev pub is_stable : Text → Bool
  is_stable version = elim (S.new_version version) [
    | none ↦ false
    | some parsed ↦ is_empty (S.prerelease parsed)
  ]

  abbrev Good : Best S → Type 0
  Good best = (is_empty (raw_of S best) ≡ false) × (is_stable (raw_of S best) ≡ true)

  better-Good :
      (parsed : S.Parsed) (version : Text) (best : Best S)
      → is_empty version ≡ false
      → is_stable version ≡ true
      → Good best ⊎ (best ≡ none)
      → Good (better S parsed version best)
  unfolding better
  better-Good parsed version none full stable h = (full, stable)
  better-Good parsed version (some (best, raw)) full stable (inr h) = absurd (cc)
  better-Good parsed version (some (best, raw)) full stable (inl h) =
      go (S.compare parsed best) refl
    where
      go :
          (o : Ordering)
          → S.compare parsed best ≡ o
          → Good (better S parsed version (some (best, raw)))
      go Ordering.gt q = rw (better, q) (full, stable)
      go Ordering.lt q = rw (better, q) h
      go Ordering.eq q = rw (better, q) h

  module _ (version : Text) (versions : List Text) (best fallback : Best S) (raw : Text) where
    step_refused :
        S.new_version version ≡ none
        → highest_from S best fallback raw (version ∷ versions)
          ≡ highest_from S best fallback (greater_text S version raw) versions
    unfolding highest_from
    step_refused q = rw (highest_from, q)

    step_stable :
        (p : S.Parsed)
        → S.new_version version ≡ some p
        → is_empty (S.prerelease p) ≡ true
        → highest_from S best fallback raw (version ∷ versions)
          ≡ highest_from S (better S p version best) fallback (greater_text S version raw) versions
    unfolding highest_from
    step_stable p q e = rw (highest_from, q, e)

    step_prerelease :
        (p : S.Parsed)
        → S.new_version version ≡ some p
        → is_empty (S.prerelease p) ≡ false
        → highest_from S best fallback raw (version ∷ versions)
          ≡ highest_from S best (better S p version fallback) (greater_text S version raw) versions
    unfolding highest_from
    step_prerelease p q e = rw (highest_from, q, e)

  highest_from_lem :
      (versions : List Text) (best fallback : Best S) (raw : Text)
      → All (λ v. is_empty v ≡ false) versions
      → Good best ⊎ ((best ≡ none) × (any is_stable versions ≡ true))
      → Good (highest_from S best fallback raw versions).0
  unfolding highest_from
  highest_from_lem [] best fallback raw full (inl h) = h
  highest_from_lem [] best fallback raw full (inr h) = absurd (cc)
  highest_from_lem (version ∷ versions) best fallback raw full h =
      go (S.new_version version) refl (λ b f r. highest_from_lem versions b f r full.1)
    where
      stable_is :
          (p : S.Parsed)
          → S.new_version version ≡ some p
          → is_stable version ≡ is_empty (S.prerelease p)
      stable_is p q = rw (is_stable, q)

      unstable :
          is_stable version ≡ false → Good best ⊎ ((best ≡ none) × (any is_stable versions ≡ true))
      unstable n = elim h [
        | inl g ↦ inl g
        | inr a ↦ inr (a.0, sym (ap (λ b. b || any is_stable versions) n) ∙ a.1)
      ]

      To : Best S × Best S × Text → Type 0
      To found = Good found.0

      Found : Option S.Parsed → Type 0
      Found o =
          ((b f : Best S) (r : Text)
            → Good b ⊎ ((b ≡ none) × (any is_stable versions ≡ true))
            → Good (highest_from S b f r versions).0)
          → Good (highest_from S best fallback raw (version ∷ versions)).0

      go : (o : Option S.Parsed) → S.new_version version ≡ o → Found o
      go none q ih =
          subst To (sym (step_refused version versions best fallback raw q))
            (ih best fallback (greater_text S version raw) (unstable (rw (is_stable, q) refl)))
      go (some p) q ih = elim (Bool-cases (is_empty (S.prerelease p))) [
        | inl s ↦ subst To (sym (step_stable version versions best fallback raw p q s)) (
            ih (better S p version best) fallback (greater_text S version raw)
              (inl (better-Good p version best full.0 (stable_is p q ∙ s) (found_or h))))
        | inr n ↦ subst To (sym (step_prerelease version versions best fallback raw p q n)) (
            ih best (better S p version fallback) (greater_text S version raw)
              (unstable (stable_is p q ∙ n)))
      ]
        where
          found_or :
              Good best ⊎ ((best ≡ none) × (any is_stable (version ∷ versions) ≡ true))
              → Good best ⊎ (best ≡ none)
          found_or (inl g) = inl g
          found_or (inr a) = inr a.0

  -- If one of the versions parses and is no prerelease, so does the one that `highestVersion` picks
  -- and is none either, in whatever order the map yields them, if no version is the empty text.
  pub highest_version_stable :
      (versions : List Text)
      → All (λ v. is_empty v ≡ false) versions
      → any is_stable versions ≡ true
      → is_stable (highest_version S versions) ≡ true
  unfolding highest_version
  highest_version_stable versions full some_stable =
      let (named, stable) = highest_from_lem versions none none [] full (inr (refl, some_stable)) in
      rw named stable
