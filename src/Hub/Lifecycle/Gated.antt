-- ===== src/Hub/Lifecycle/Gated.antt =====
-- What has been enrolled is shut out until a person approves it.
use pkgwatch.Base.{
  ℕ, ◌/◌, Bool, true, false, ◌&&◌, List, [], ◌∷◌, Option, some, any, ◌≡◌, ◌≢◌, sym, ◌∙◌, ap, inl,
  inr, arith, Bool-cases,
}
use pkgwatch.Base.Text.{Text, text_eq}
use pkgwatch.Base.Text.Laws.{text_eq_iff}
use mathlib.Core.Path.{subst}
use pkgwatch.Fleet.{Code}
use pkgwatch.Hub.{Device, Tables, status_approved}
use pkgwatch.Hub.Devices.{find_device, enroll, redeem_pair_code}
use pkgwatch.Hub.Auth.{Crypto, Request, second, passed, require_device}
use pkgwatch.Hub.Auth.Passed.{require_device-passed_iff}
use pkgwatch.Hub.Enroll.{EnrollRequest, Part, enrolled, refused, hash_code, row_of, handle_enroll}
use pkgwatch.Hub.Enroll.Terms.{handle_enroll_cases, finish_enroll_enrolled}
use pkgwatch.Hub.Lifecycle.{Action, act_all, approves, is_approved}
use pkgwatch.Hub.Lifecycle.Approval.{act_all_approved, enroll_unapproved}

some_inj : {a b : Device} → ◌≡◌ {A = Option Device} (some a) (some b) → a ≡ b
some_inj h = cc

true_ne_false : true ≡ false → ⊥
true_ne_false h = absurd (cc)

not_refused : {a b c : Text} {n : ℕ} {d : Code} → enrolled a b c ≡ refused n d → ⊥
not_refused h = absurd (cc)

-- A device that passes is approved.
find_device_approved :
    (id : Text) (devices : List Device) (known : Device)
    → find_device id devices ≡ some known
    → known.status ≡ status_approved
    → any (λ d. text_eq d.id id && text_eq d.status status_approved) devices ≡ true
unfolding find_device
find_device_approved id [] known f a = absurd (cc)
find_device_approved id (d ∷ devices) known f a = elim (Bool-cases (text_eq d.id id)) [
  | inl same ↦
      let e = some_inj (rw same at f) in
      ground (arith, same, (text_eq_iff d.status status_approved).1 (ap (λ x. x.status) e ∙ a))
  | inr other ↦ ground (arith, find_device_approved id devices known)
]

module _ {Num : Type 0} (crypto : Crypto) (table : ℕ → ℕ) where
  -- After an enrolment, of a new device or again, and any actions among which nobody approves the
  -- device, no request in its name passes, whatever it is signed with and whichever token it carries.
  pub enrolled-require_device :
      (fails : Part → Bool) (token hash : Text) (http : Request) (pairing : EnrollRequest) (now : ℕ)
      (t : Tables Num) (id answered status : Text)
      → (handle_enroll crypto table fails token hash http pairing now t).0
        ≡ enrolled id answered status
      → (actions : List (Action Num)) → any (approves id) actions ≡ false
      → (req : Request) → req.device ≡ id
      → (clock : ℕ) (known : Device)
      → require_device crypto false
          (act_all crypto table actions
            (handle_enroll crypto table fails token hash http pairing now t).1).devices
          req
          clock
        ≢ passed known
  enrolled-require_device fails token hash http pairing now t id answered status h actions n req e
        clock known p =
      let auth = (require_device-passed_iff crypto _ req clock known).0 p in
      let after = find_device_approved req.device _ known auth.found auth.approved in
      elim (handle_enroll_cases crypto table fails token hash http pairing now t) [
        | inr (code, c, r) ↦ absurd (not_refused (sym h ∙ ap (λ x. x.0) r))
        | inl (key, owner, r) ↦
            let (same, spent, stored) =
              finish_enroll_enrolled crypto table fails key token hash pairing (now / second) t id
                answered status (ap (λ x. x.0) (sym r) ∙ h) in
            let held =
              subst
                (λ i.
                  any (λ d. text_eq d.id i && text_eq d.status status_approved)
                    (act_all crypto table actions
                      (handle_enroll crypto table fails token hash http pairing now t).1).devices
                  ≡ true)
                e after in
            let before = act_all_approved id crypto table actions _ n held in
            absurd (
              true_ne_false (
                sym before
                ∙ ap (λ u. is_approved id u) (ap (λ x. x.1) r ∙ stored)
                ∙ ap
                    (λ i. is_approved i (
                      enroll (row_of key hash pairing) (now / second)
                        (redeem_pair_code (hash_code crypto table pairing.code) (now / second)
                          t).1))
                    same
                ∙ enroll_unapproved (row_of key hash pairing) (now / second)
                    (redeem_pair_code (hash_code crypto table pairing.code) (now / second) t).1))
      ]
