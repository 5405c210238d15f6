-- ===== src/Gate/Record.antt =====
-- What `record` of internal/gate/gate.go writes of a verdict.
use pkgwatch.Base.{true, false, ◌≡◌, refl, ◌⊎◌, inl, inr, ◌↔◌, arith, Bool-cases}
use mathlib.Core.Path.{subst}
use pkgwatch.Base.Text.{Text, text_eq}
use pkgwatch.Base.Text.Laws.{text_eq_refl}
use pkgwatch.Gate.{
  Request, Verdict, decision, has_event, point_resolve, decision_withheld, decision_blocked,
  decision_override, decision_allowed,
}

module _ {Num : Type 0} (req : Request) (v : Verdict Num) where
  withheld_is_not_blocked : text_eq decision_withheld decision_blocked ≡ false
  unfolding text_eq
  withheld_is_not_blocked = refl

  decision_resolve :
      v.blocked ≡ true
      → text_eq req.point point_resolve ≡ true
      → (decision req v ≡ decision_withheld) × (has_event req v ≡ false)
  unfolding decision has_event
  decision_resolve b p = (rw (b, p), ground (arith, withheld_is_not_blocked))

  decision_download :
      v.blocked ≡ true
      → text_eq req.point point_resolve ≡ false
      → (decision req v ≡ decision_blocked) × (has_event req v ≡ true)
  unfolding decision has_event
  decision_download b p = (rw (b, p), ground (arith, text_eq_refl decision_blocked))

  allowed_event : v.blocked ≡ false → has_event req v ≡ false
  unfolding has_event
  allowed_event b = rw b

  allowed_decision :
      v.blocked ≡ false → (decision req v ≡ decision_override) ⊎ (decision req v ≡ decision_allowed)
  unfolding decision
  allowed_decision b = elim (Bool-cases (text_eq v.reason decision_override)) [
    | inl o ↦ inl (rw (b, o))
    | inr o ↦ inr (rw (b, o))
  ]

  Refused : Text → Type 0
  Refused d = (d ≡ decision_withheld) ⊎ (d ≡ decision_blocked)

  override_allows : ¬ Refused decision_override
  unfolding Refused
  override_allows h = ground arith

  allowed_allows : ¬ Refused decision_allowed
  unfolding Refused
  allowed_allows h = ground arith

  -- A refused version is recorded as withheld from a listing or as blocked, any other as allowed
  -- or as an override; and a refusal is an event exactly outside of a listing.
  pub decision-has_event :
      ((v.blocked ≡ true)
        ↔ ((decision req v ≡ decision_withheld) ⊎ (decision req v ≡ decision_blocked)))
      × ((has_event req v ≡ true)
          ↔ ((v.blocked ≡ true) × (text_eq req.point point_resolve ≡ false)))
  unfolding Refused
  decision-has_event = elim (Bool-cases v.blocked) [
    | inl b ↦ elim (Bool-cases (text_eq req.point point_resolve)) [
      | inl p ↦
          let (d, e) = decision_resolve b p in
          ((λ _. inl d, λ _. b), (λ h. absurd (cc), λ h. absurd (cc)))
      | inr p ↦ let (d, e) = decision_download b p in ((λ _. inr d, λ _. b), (λ _. (b, p), λ _. e))
    ]
    | inr b ↦
        let e = allowed_event b in
        (
          (
            λ h. absurd (cc),
            λ h. elim (allowed_decision b) [
              | inl d ↦ absurd (override_allows (subst Refused d h))
              | inr d ↦ absurd (allowed_allows (subst Refused d h))
            ],
          ),
          (λ h. absurd (cc), λ h. absurd (cc)),
        )
  ]
