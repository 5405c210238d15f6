-- ===== src/Hub/Enroll/Terms.antt =====
-- `handleEnroll` of internal/hub/api.go: what an enrolment has proved, and what a refusal costs.
use pkgwatch.Base.{
  ℕ, ◌/◌, Bool, true, ◌||◌, ◌==◌, some, length, ◌≡◌, ap, ◌⊎◌, inl, inr, arith, Bool-cases,
  Option-cases,
}
use pkgwatch.Base.Text.{Text, text_eq}
use pkgwatch.Base.Text.Laws.{text_eq_iff}
use pkgwatch.Fleet.{Code, bad_request, device_auth}
use pkgwatch.Hub.{Tables}
use pkgwatch.Hub.Devices.{redeem_pair_code, enroll}
use pkgwatch.Hub.Auth.{Crypto, Request, verify, second, public_key_size}
use pkgwatch.Hub.Auth.Passed.{IsSigned, verify-IsSigned}
use pkgwatch.Hub.Enroll.{
  EnrollRequest, Part, spend_code, make_token, hash_token, store_device, enrolled, refused, row_of,
  device_id, hash_code, finish_enroll, handle_enroll,
}

module _ (crypto : Crypto) (table : ℕ → ℕ) where
  -- The request is signed by the key that it carries, and its identifier is that key's.
  pub record IsOwner (http : Request) (req : EnrollRequest) (now : ℕ) (key : Text) : Type 0 where
    pub decoded : crypto.decode_base64 req.public_key ≡ some key
    pub length_of_key : length key ≡ public_key_size
    pub identified : device_id crypto table key ≡ req.device_id
    pub signed : IsSigned crypto http key now

  -- Either the caller has shown that the key is theirs and the rest is done, or nothing is.
  pub handle_enroll_cases :
      {Num : Type 0} (fails : Part → Bool) (token hash : Text) (http : Request)
      (req : EnrollRequest) (now : ℕ) (t : Tables Num)
      → ((key : Text) × IsOwner http req now key
          × (handle_enroll crypto table fails token hash http req now t
              ≡ finish_enroll crypto table fails key token hash req (now / second) t))
        ⊎ ((n : ℕ) × (c : Code) × (handle_enroll crypto table fails token hash http req now t
              ≡ (refused n c, t)))
  unfolding handle_enroll
  handle_enroll_cases fails token hash http req now t =
      elim (Option-cases (crypto.decode_base64 req.public_key)) [
        | inl undecoded ↦ inr (400, bad_request, ground arith)
        | inr (key, e) ↦ elim (Bool-cases (length key == public_key_size)) [
          | inr short ↦ inr (400, bad_request, ground arith)
          | inl size ↦ elim (Bool-cases (text_eq (device_id crypto table key) req.device_id)) [
            | inr other ↦ inr (400, bad_request, ground arith)
            | inl same ↦ elim (Option-cases (verify crypto http key now)) [
              | inr (reason, v) ↦ inr (401, device_auth, ground arith)
              | inl v ↦ inl (
                key,
                record {
                  decoded = e;
                  length_of_key = ground arith;
                  identified = (text_eq_iff (device_id crypto table key) req.device_id).0 same;
                  signed = verify-IsSigned crypto http key now v;
                },
                ground arith,
              )
            ]
          ]
        ]
      ]

  -- What the rest has done where it answers with an enrolment.
  pub finish_enroll_enrolled :
      {Num : Type 0} (fails : Part → Bool) (key token hash : Text) (req : EnrollRequest) (now : ℕ)
      (t : Tables Num) (id answered status : Text)
      → (finish_enroll crypto table fails key token hash req now t).0 ≡ enrolled id answered status
      → (id ≡ req.device_id)
        × ((redeem_pair_code (hash_code crypto table req.code) now t).0 ≡ true)
        × ((finish_enroll crypto table fails key token hash req now t).1
            ≡ enroll
                (row_of key hash req)
                now
                (redeem_pair_code (hash_code crypto table req.code) now t).1)
  unfolding finish_enroll
  finish_enroll_enrolled fails key token hash req now t id answered status h =
      elim (Bool-cases (fails spend_code)) [
        | inl failed ↦ absurd (ground arith)
        | inr spent ↦
            elim (Bool-cases (redeem_pair_code (hash_code crypto table req.code) now t).0) [
              | inr bad ↦ absurd (ground arith)
              | inl good ↦
                  elim (Bool-cases (fails make_token || fails hash_token || fails store_device)) [
                    | inl failed ↦ absurd (ground arith)
                    | inr stored ↦ (ground arith, good, ground arith)
                  ]
            ]
      ]

  -- A caller who has not shown that the key is theirs changes nothing: no pairing code is spent and
  -- no device is stored.
  pub handle_enroll_unproved :
      {Num : Type 0} (fails : Part → Bool) (token hash : Text) (http : Request)
      (req : EnrollRequest) (now : ℕ) (t : Tables Num)
      → ((key : Text) → IsOwner http req now key → ⊥)
      → (handle_enroll crypto table fails token hash http req now t).1 ≡ t
  handle_enroll_unproved fails token hash http req now t h =
      elim (handle_enroll_cases fails token hash http req now t) [
        | inl (key, owner, e) ↦ absurd (h key owner)
        | inr (n, c, e) ↦ ap (λ x. x.1) e
      ]
