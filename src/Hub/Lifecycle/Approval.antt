-- ===== src/Hub/Lifecycle/Approval.antt =====
-- A device is approved by a person, and by nothing else.
use pkgwatch.Base.{
  ℕ, ◌/◌, Bool, true, false, ◌&&◌, List, [], ◌∷◌, ◌++◌, map, any, ◌≡◌, refl, sym, ◌∙◌, ap, inl, inr,
  arith, Bool-cases, Option-cases, any-append,
}
use pkgwatch.Base.Text.{Text, text_eq}
use pkgwatch.Base.Text.Laws.{text_eq_iff}
use pkgwatch.Fleet.{SyncRequest}
use pkgwatch.Hub.{Device, Tables, status_approved, status_pending}
use pkgwatch.Hub.Devices.{
  issue_pair_code, redeem_pair_code, expire_pair_codes, reenroll, new_row, enroll, with_status,
  set_device_status, with_level, set_device_sync_level, touched, touch_device,
}
use pkgwatch.Hub.Sync.{
  Transaction, write_events, write_findings, write_packages, write_rotation, write_quarantine,
  write_credentials, check_in, handle_sync,
}
use pkgwatch.Hub.Sync.Frame.{handle_sync-Respects}
use pkgwatch.Hub.Auth.{Crypto, Request, verify, second}
use pkgwatch.Hub.Enroll.{EnrollRequest, Part, row_of, hash_code, finish_enroll, handle_enroll}
use pkgwatch.Hub.Lifecycle.{
  Action, issue, redeem, expire, pair, set_status, set_level, push, act, act_all, approves,
  is_approved,
}

-- The row is the device's and approved.
abbrev is_approved_row : Text → Device → Bool
is_approved_row id d = text_eq d.id id && text_eq d.status status_approved

-- An update of the rows that makes none of them the device's and approved.
any-map :
    (p : Device → Bool) (f : Device → Device) (devices : List Device)
    → ((d : Device) → p (f d) ≡ true → p d ≡ true)
    → any p (map f devices) ≡ true
    → any p devices ≡ true
any-map p f [] h k = k
any-map p f (d ∷ devices) h k = elim (Bool-cases (p (f d))) [
  | inl here ↦ ground (arith, h d here)
  | inr there ↦ ground (arith, any-map p f devices h)
]

any_before :
    (p : Device → Bool) (new : Device) (devices : List Device)
    → p new ≡ false
    → any p (devices ++ new ∷ []) ≡ true
    → any p devices ≡ true
any_before p new [] n h = absurd (ground arith)
any_before p new (d ∷ devices) n h = ground (arith, any_before p new devices n)

any-touched :
    (id other version : Text) (now : ℕ) (devices : List Device)
    → any (is_approved_row id) (map (touched other version now) devices)
      ≡ any (is_approved_row id) devices
any-touched id other version now [] = refl
any-touched id other version now (d ∷ devices) =
    ground (arith, any-touched id other version now devices)

not_pending : text_eq status_pending status_approved ≡ false
unfolding text_eq
not_pending = refl

with_level_approved :
    (id other level : Text) (d : Device)
    → is_approved_row id (with_level other level d) ≡ true
    → is_approved_row id d ≡ true
with_level_approved id other level d h = ground arith

reenroll_approved :
    (id : Text) (new d : Device)
    → is_approved_row id (reenroll new d) ≡ true
    → is_approved_row id d ≡ true
reenroll_approved id new d h = ground (arith, not_pending)

with_status_approved :
    (id other status : Text) (now : ℕ) (d : Device)
    → (text_eq other id && text_eq status status_approved) ≡ false
    → is_approved_row id (with_status other status now d) ≡ true
    → is_approved_row id d ≡ true
with_status_approved id other status now d h k = elim (Bool-cases (text_eq d.id other)) [
  | inr different ↦ ground arith
  | inl same ↦ absurd (ground (arith, ap (λ x. text_eq x id) ((text_eq_iff d.id other).0 same)))
]

module _ {Num : Type 0} (id : Text) where
  enroll_approved :
      (new : Device) (now : ℕ) (t : Tables Num)
      → is_approved id (enroll new now t) ≡ true
      → is_approved id t ≡ true
  unfolding enroll
  enroll_approved new now t h = elim (Bool-cases (any (λ old. text_eq old.id new.id) t.devices)) [
    | inl known ↦
        any-map (is_approved_row id) (reenroll new) t.devices (reenroll_approved id new)
          (ground arith)
    | inr unknown ↦
        any_before (is_approved_row id) (new_row new now) t.devices (ground (arith, not_pending))
          (ground arith)
  ]

  finish_enroll_approved :
      (crypto : Crypto) (table : ℕ → ℕ) (fails : Part → Bool) (key token hash : Text)
      (req : EnrollRequest) (now : ℕ) (t : Tables Num)
      → is_approved id (finish_enroll crypto table fails key token hash req now t).1 ≡ true
      → is_approved id t ≡ true
  unfolding finish_enroll redeem_pair_code
  finish_enroll_approved crypto table fails key token hash req now t h = ground (
    arith,
    enroll_approved (row_of key hash req) now
        (redeem_pair_code (hash_code crypto table req.code) now t).1,
  )

  handle_enroll_approved :
      (crypto : Crypto) (table : ℕ → ℕ) (fails : Part → Bool) (token hash : Text) (http : Request)
      (req : EnrollRequest) (now : ℕ) (t : Tables Num)
      → is_approved id (handle_enroll crypto table fails token hash http req now t).1 ≡ true
      → is_approved id t ≡ true
  unfolding handle_enroll
  handle_enroll_approved crypto table fails token hash http req now t h =
      elim (Option-cases (crypto.decode_base64 req.public_key)) [
        | inl undecoded ↦ ground arith
        | inr (key, e) ↦ elim (Option-cases (verify crypto http key now)) [
          | inl signed ↦
              ground (
                arith,
                finish_enroll_approved crypto table fails key token hash req (now / second) t,
              )
          | inr (reason, unsigned) ↦ ground arith
        ]
      ]

  handle_sync_approved :
      (dev : Device) (req : SyncRequest Num) (now : ℕ) (fails : Transaction → Bool) (t : Tables Num)
      → is_approved id (handle_sync dev req now fails t).1 ≡ is_approved id t
  unfolding write_events write_findings write_packages write_rotation write_quarantine
      write_credentials check_in touch_device
  handle_sync_approved dev req now fails t =
      (handle_sync-Respects (is_approved id) dev req now fails (λ t. refl) (inr (λ t. refl))
          (inr (λ t. refl)) (inr (λ t. refl)) (inr (λ t. refl)) (inr (λ t. refl))
          (λ b t. ground (arith, any-touched id dev.id req.version now t.devices))).keeps
        t

  -- An action by which nobody approves the device does not make it approved.
  act_approved :
      (crypto : Crypto) (table : ℕ → ℕ) (a : Action Num) (t : Tables Num)
      → approves id a ≡ false
      → is_approved id (act crypto table a t) ≡ true
      → is_approved id t ≡ true
  unfolding issue_pair_code redeem_pair_code expire_pair_codes set_device_status
      set_device_sync_level
  act_approved crypto table (issue hash now) t n h = h
  act_approved crypto table (redeem hash now) t n h = h
  act_approved crypto table (expire now) t n h = h
  act_approved crypto table (pair fails token hash http req now) t n h =
      handle_enroll_approved crypto table fails token hash http req now t h
  act_approved crypto table (set_status other status now) t n h =
      any-map (is_approved_row id) (with_status other status now) t.devices
        (λ d. with_status_approved id other status now d n) h
  act_approved crypto table (set_level other level) t n h = ground (
    arith,
    any-map (is_approved_row id) (with_level other level) t.devices
        (with_level_approved id other level),
  )
  act_approved crypto table (push dev req now fails) t n h =
      sym (handle_sync_approved dev req now fails t) ∙ h

  pub act_all_approved :
      (crypto : Crypto) (table : ℕ → ℕ) (actions : List (Action Num)) (t : Tables Num)
      → any (approves id) actions ≡ false
      → is_approved id (act_all crypto table actions t) ≡ true
      → is_approved id t ≡ true
  act_all_approved crypto table [] t n h = h
  act_all_approved crypto table (a ∷ actions) t n h =
      act_approved crypto table a t (ground arith)
        (act_all_approved crypto table actions (act crypto table a t) (ground arith) h)

-- No row of the device, no approved one.
any_id :
    (id : Text) (devices : List Device)
    → any (λ d. text_eq d.id id) devices ≡ false
    → any (is_approved_row id) devices ≡ false
any_id id [] h = refl
any_id id (d ∷ devices) h = ground (arith, any_id id devices)

reenroll_pending :
    (new : Device) (devices : List Device)
    → any (is_approved_row new.id) (map (reenroll new) devices) ≡ false
reenroll_pending new [] = refl
reenroll_pending new (d ∷ devices) = ground (arith, reenroll_pending new devices, not_pending)

-- Enrolling, for the first time or again, leaves the device without approval.
pub enroll_unapproved :
    {Num : Type 0} (new : Device) (now : ℕ) (t : Tables Num)
    → is_approved new.id (enroll new now t) ≡ false
unfolding enroll
enroll_unapproved new now t = elim (Bool-cases (any (λ old. text_eq old.id new.id) t.devices)) [
  | inl known ↦ ground (arith, reenroll_pending new t.devices)
  | inr unknown ↦ ground (
    arith,
    any-append (is_approved_row new.id) t.devices (new_row new now ∷ []),
    any_id new.id t.devices,
    not_pending,
  )
]
