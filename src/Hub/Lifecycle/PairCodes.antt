-- ===== src/Hub/Lifecycle/PairCodes.antt =====
-- A pairing code is redeemed at most once.
use pkgwatch.Base.{
  ℕ, ◌+◌, ◌≤◌, ◌/◌, Bool, true, false, ◌&&◌, List, [], ◌∷◌, none, map, any, ◌≡◌, refl, sym, ◌∙◌, ap,
  inl, inr, arith, Bool-cases, any-append,
}
use pkgwatch.Base.Text.{Text, text_eq}
use pkgwatch.Base.Select.{filter, count}
use pkgwatch.Fleet.{SyncRequest}
use pkgwatch.Hub.{Device, Tables, PairCode}
use pkgwatch.Hub.Devices.{
  issue_pair_code, pair_code_ttl, is_unused, is_redeemable, spend, redeem_pair_code,
  expire_pair_codes, enroll, set_device_status, set_device_sync_level, touch_device,
}
use pkgwatch.Hub.Sync.{
  Transaction, write_events, write_findings, write_packages, write_rotation, write_quarantine,
  write_credentials, check_in, handle_sync,
}
use pkgwatch.Hub.Sync.Frame.{handle_sync-Respects}
use pkgwatch.Hub.Auth.{Crypto, second}
use pkgwatch.Hub.Enroll.{EnrollRequest, Part, hash_code, row_of, finish_enroll}
use pkgwatch.Hub.Enroll.Terms.{handle_enroll_cases}
use pkgwatch.Hub.Lifecycle.{
  Action, issue, redeem, expire, pair, set_status, set_level, push, act, act_all, issues,
}

-- The code is there and not used, expired or not.
abbrev is_open : Text → PairCode → Bool
is_open hash c = text_eq c.code_hash hash && is_unused c

abbrev pub is_there : {Num : Type 0} → Text → Tables Num → Bool
is_there hash t = any (is_open hash) t.pair_codes

-- The hash is a primary key.
abbrev pub IsUnique : {Num : Type 0} → Text → Tables Num → Type 0
IsUnique hash t = count (λ c. text_eq c.code_hash hash) t.pair_codes ≤ 1

spend_open :
    (hash other : Text) (now : ℕ) (codes : List PairCode)
    → any (is_open hash) (map (spend other now) codes) ≡ true
    → any (is_open hash) codes ≡ true
spend_open hash other now [] h = h
spend_open hash other now (c ∷ codes) h = ground (arith, spend_open hash other now codes)

filter_open :
    (hash : Text) (p : PairCode → Bool) (codes : List PairCode)
    → any (is_open hash) (filter p codes) ≡ true
    → any (is_open hash) codes ≡ true
filter_open hash p [] h = h
filter_open hash p (c ∷ codes) h = ground (arith, filter_open hash p codes)

redeemable_open :
    (hash : Text) (now : ℕ) (codes : List PairCode)
    → any (is_open hash) codes ≡ false
    → count (is_redeemable hash now) codes ≡ 0
unfolding is_redeemable
redeemable_open hash now [] h = refl
redeemable_open hash now (c ∷ codes) h = ground (arith, redeemable_open hash now codes)

absent :
    (hash : Text) (now : ℕ) (codes : List PairCode)
    → count (λ c. text_eq c.code_hash hash) codes ≡ 0
    → (any (is_open hash) (map (spend hash now) codes) ≡ false)
      × (count (is_redeemable hash now) codes ≡ 0)
unfolding is_redeemable
absent hash now [] h = (refl, refl)
absent hash now (c ∷ codes) h = ground (arith, absent hash now codes)

spent :
    (hash : Text) (now : ℕ) (codes : List PairCode)
    → count (λ c. text_eq c.code_hash hash) codes ≤ 1
    → 1 ≤ count (is_redeemable hash now) codes
    → any (is_open hash) (map (spend hash now) codes) ≡ false
unfolding is_redeemable
spent hash now [] u h = refl
spent hash now (c ∷ codes) u h = ground (arith, spent hash now codes, absent hash now codes)

module _ {Num : Type 0} (hash : Text) where
  redeem_open :
      (other : Text) (now : ℕ) (t : Tables Num)
      → is_there hash (redeem_pair_code other now t).1 ≡ true
      → is_there hash t ≡ true
  unfolding redeem_pair_code
  redeem_open other now t h = spend_open hash other now t.pair_codes h

  enroll_codes :
      (new : Device) (now : ℕ) (t : Tables Num) → (enroll new now t).pair_codes ≡ t.pair_codes
  unfolding enroll
  enroll_codes new now t = ground arith

  finish_enroll_open :
      (crypto : Crypto) (table : ℕ → ℕ) (fails : Part → Bool) (key token other : Text)
      (req : EnrollRequest) (now : ℕ) (t : Tables Num)
      → is_there hash (finish_enroll crypto table fails key token other req now t).1 ≡ true
      → is_there hash t ≡ true
  unfolding finish_enroll
  finish_enroll_open crypto table fails key token other req now t h =
      let u = (redeem_pair_code (hash_code crypto table req.code) now t).1 in
      ground (
        arith,
        redeem_open (hash_code crypto table req.code) now t,
        enroll_codes (row_of key other req) now u,
      )

  handle_sync_codes :
      (dev : Device) (req : SyncRequest Num) (now : ℕ) (fails : Transaction → Bool) (t : Tables Num)
      → (handle_sync dev req now fails t).1.pair_codes ≡ t.pair_codes
  unfolding write_events write_findings write_packages write_rotation write_quarantine
      write_credentials check_in touch_device
  handle_sync_codes dev req now fails t =
      (handle_sync-Respects (λ t. t.pair_codes) dev req now fails (λ t. refl) (inr (λ t. refl))
          (inr (λ t. refl)) (inr (λ t. refl)) (inr (λ t. refl)) (inr (λ t. refl))
          (λ b t. ground arith)).keeps
        t

  set_level_codes :
      (id level : Text) (t : Tables Num)
      → (set_device_sync_level id level t).1.pair_codes ≡ t.pair_codes
  unfolding set_device_sync_level
  set_level_codes id level t = ground arith

  act_open :
      (crypto : Crypto) (table : ℕ → ℕ) (a : Action Num) (t : Tables Num)
      → issues hash a ≡ false
      → is_there hash (act crypto table a t) ≡ true
      → is_there hash t ≡ true
  unfolding issue_pair_code expire_pair_codes set_device_status
  act_open crypto table (issue other now) t n h = ground (
    arith,
    any-append (is_open hash) t.pair_codes (
        record {
          code_hash = other;
          created_at = now;
          expires_at = now + pair_code_ttl;
          used_at = none;
        }
        ∷ []),
  )
  act_open crypto table (redeem other now) t n h = redeem_open other now t h
  act_open crypto table (expire now) t n h = filter_open hash _ t.pair_codes h
  act_open crypto table (pair fails token other http req now) t n h =
      elim (handle_enroll_cases crypto table fails token other http req now t) [
        | inl (key, owner, e) ↦
            finish_enroll_open crypto table fails key token other req (now / second) t
              (sym (ap (λ x. is_there hash x.1) e) ∙ h)
        | inr (n, c, e) ↦ sym (ap (λ x. is_there hash x.1) e) ∙ h
      ]
  act_open crypto table (set_status id status now) t n h = h
  act_open crypto table (set_level id level) t n h =
      sym (ap (λ codes. any (is_open hash) codes) (set_level_codes id level t)) ∙ h
  act_open crypto table (push dev req now fails) t n h =
      sym (ap (λ codes. any (is_open hash) codes) (handle_sync_codes dev req now fails t)) ∙ h

  act_all_open :
      (crypto : Crypto) (table : ℕ → ℕ) (actions : List (Action Num)) (t : Tables Num)
      → any (issues hash) actions ≡ false
      → is_there hash (act_all crypto table actions t) ≡ true
      → is_there hash t ≡ true
  act_all_open crypto table [] t n h = h
  act_all_open crypto table (a ∷ actions) t n h =
      act_open crypto table a t (ground arith)
        (act_all_open crypto table actions (act crypto table a t) (ground arith) h)

  redeem-true_spent :
      (now : ℕ) (t : Tables Num)
      → IsUnique hash t
      → (redeem_pair_code hash now t).0 ≡ true
      → is_there hash (redeem_pair_code hash now t).1 ≡ false
  unfolding redeem_pair_code
  redeem-true_spent now t u h = spent hash now t.pair_codes u (ground arith)

  redeem-false :
      (now : ℕ) (t : Tables Num) → is_there hash t ≡ false → (redeem_pair_code hash now t).0 ≡ false
  unfolding redeem_pair_code
  redeem-false now t h = ground (arith, redeemable_open hash now t.pair_codes h)

  -- Once a code has been redeemed, it is refused ever after, whatever happens in between, at any later
  -- or earlier reading of the clock, unless the same code is issued again. The hash is unique among
  -- the codes, as the primary key of the table has it.
  pub redeem_pair_code_once :
      (crypto : Crypto) (table : ℕ → ℕ) (now : ℕ) (t : Tables Num)
      → IsUnique hash t
      → (redeem_pair_code hash now t).0 ≡ true
      → (actions : List (Action Num)) → any (issues hash) actions ≡ false
      → (later : ℕ)
      → (redeem_pair_code hash later
          (act_all crypto table actions (redeem_pair_code hash now t).1)).0
        ≡ false
  redeem_pair_code_once crypto table now t u h actions n later =
      redeem-false later (act_all crypto table actions (redeem_pair_code hash now t).1)
        (elim (Bool-cases
          (is_there hash (act_all crypto table actions (redeem_pair_code hash now t).1))) [
            | inr gone ↦ gone
            | inl there ↦
                there
                ∙ sym (act_all_open crypto table actions (redeem_pair_code hash now t).1 n there)
                ∙ redeem-true_spent now t u h
          ])
