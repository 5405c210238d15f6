-- ===== src/Hub/Auth/Passed.antt =====
-- `requireDevice` of internal/hub/api.go: which requests pass, and what the others cost.
use pkgwatch.Base.{
  ℕ, ◌+◌, ◌*◌, ◌≤◌, true, false, List, none, some, length, ℤ, pos, negsuc, pos_part, neg_part, ◌≡◌,
  ◌↔◌, inl, inr, arith, Bool-cases, Option-cases,
}
use mathlib.Core.Path.{subst}
use pkgwatch.Base.Text.{Text, text_eq, is_empty, atoi}
use pkgwatch.Base.Text.Laws.{text_eq_iff}
use pkgwatch.Hub.{Device, status_approved}
use pkgwatch.Hub.Devices.{find_device}
use pkgwatch.Hub.Auth.{
  Crypto, Request, second, max_skew, is_skewed, bearer, public_key_size, max_body, passed,
  canonical, verify, check_status, require_device,
}

-- The request's time and the clock are at most 120 seconds apart.
pub record IsFresh (now : ℕ) (ts : ℤ) : Type 0 where
  pub past : now + neg_part ts * second ≤ pos_part ts * second + max_skew
  pub future : pos_part ts * second ≤ now + neg_part ts * second + max_skew

is_skewed-IsFresh : (now : ℕ) (ts : ℤ) → is_skewed now ts ≡ false → IsFresh now ts
unfolding is_skewed
is_skewed-IsFresh now (pos n) h = record { past = ground arith; future = ground arith }
is_skewed-IsFresh now (negsuc n) h = record { past = ground arith; future = ground arith }

IsFresh-is_skewed : (now : ℕ) (ts : ℤ) → IsFresh now ts → is_skewed now ts ≡ false
unfolding is_skewed
IsFresh-is_skewed now (pos n) h = ground (arith, h.past, h.future)
IsFresh-is_skewed now (negsuc n) h = ground (arith, h.past, h.future)

module _ (crypto : Crypto) where
  -- The request carries a fresh time and a signature of its own text by the key.
  pub record IsSigned (req : Request) (key : Text) (now : ℕ) : Type 0 where
    pub ts : ℤ
    pub sig : Text
    pub sent : (is_empty req.timestamp ≡ false) × (is_empty req.signature ≡ false)
    pub time : atoi req.timestamp ≡ some ts
    pub fresh : IsFresh now ts
    pub decoded : crypto.decode_base64 req.signature ≡ some sig
    pub verified :
        crypto.ed25519_verify key (canonical crypto req.method req.path req.body ts) sig ≡ true

  pub verify-IsSigned :
      (req : Request) (key : Text) (now : ℕ)
      → verify crypto req key now ≡ none
      → IsSigned req key now
  unfolding verify
  verify-IsSigned req key now h = elim (Option-cases (atoi req.timestamp)) [
    | inl unread ↦ absurd (ground arith)
    | inr (ts, e) ↦ elim (Option-cases (crypto.decode_base64 req.signature)) [
      | inl undecoded ↦ absurd (ground arith)
      | inr (sig, d) ↦ record {
        ts = ts;
        sig = sig;
        sent = (ground arith, ground arith);
        time = e;
        fresh = is_skewed-IsFresh now ts (ground arith);
        decoded = d;
        verified = ground arith;
      }
    ]
  ]

  IsSigned-verify :
      (req : Request) (key : Text) (now : ℕ)
      → IsSigned req key now
      → verify crypto req key now ≡ none
  unfolding verify
  IsSigned-verify req key now h =
      ground (arith, h.sent, h.time, IsFresh-is_skewed now h.ts h.fresh, h.decoded, h.verified)

  -- A request that a known device has signed, and whose device is approved and whose token is its own.
  pub record IsAuthentic (devices : List Device) (req : Request) (now : ℕ) (known : Device)
      : Type 0 where
    pub named : is_empty req.device ≡ false
    pub found : find_device req.device devices ≡ some known
    pub bounded : length req.body ≤ max_body
    pub key : length known.public_key ≡ public_key_size
    pub signed : IsSigned req known.public_key now
    pub approved : known.status ≡ status_approved
    pub token : crypto.verify_token (bearer req.authorization) known.token_hash ≡ true

  check_status-passed :
      (req : Request) (k known : Device)
      → check_status crypto req k ≡ passed known
      → (k ≡ known)
        × (k.status ≡ status_approved)
        × (crypto.verify_token (bearer req.authorization) k.token_hash ≡ true)
  unfolding check_status
  check_status-passed req k known h = elim (Bool-cases (text_eq k.status status_approved)) [
    | inr other ↦ absurd (ground arith)
    | inl approved ↦
        elim (Bool-cases (crypto.verify_token (bearer req.authorization) k.token_hash)) [
          | inr wrong ↦ absurd (ground arith)
          | inl right ↦ (ground arith, (text_eq_iff k.status status_approved).0 approved, right)
        ]
  ]

  passed-IsAuthentic :
      (devices : List Device) (req : Request) (now : ℕ) (known : Device)
      → require_device crypto false devices req now ≡ passed known
      → IsAuthentic devices req now known
  unfolding require_device
  passed-IsAuthentic devices req now known h =
      elim (Option-cases (find_device req.device devices)) [
        | inl unknown ↦ absurd (ground arith)
        | inr (k, e) ↦ elim (Option-cases (verify crypto req k.public_key now)) [
          | inr (reason, v) ↦ absurd (ground arith)
          | inl v ↦
              let (same, approved, token) = check_status-passed req k known (ground arith) in
              subst (IsAuthentic devices req now) same (record {
                named = ground arith;
                found = e;
                bounded = ground arith;
                key = ground arith;
                signed = verify-IsSigned req k.public_key now v;
                approved = approved;
                token = token;
              })
        ]
      ]

  IsAuthentic-passed :
      (devices : List Device) (req : Request) (now : ℕ) (known : Device)
      → IsAuthentic devices req now known
      → require_device crypto false devices req now ≡ passed known
  unfolding require_device check_status
  IsAuthentic-passed devices req now known h = ground (
    arith,
    h.named,
    h.found,
    h.bounded,
    h.key,
    IsSigned-verify req known.public_key now h.signed,
    (text_eq_iff known.status status_approved).1 h.approved,
    h.token,
  )

  -- Where the devices can be read, a request passes as a device's exactly where it names the device,
  -- the hub knows it, the body is within the limit, the stored key has the length of a key, the
  -- request bears a signature by it over its own method, path, body and a time at most 120 seconds
  -- off in either direction, the device is approved and the token is the device's.
  pub require_device-passed_iff :
      (devices : List Device) (req : Request) (now : ℕ) (known : Device)
      → (require_device crypto false devices req now ≡ passed known)
        ↔ IsAuthentic devices req now known
  require_device-passed_iff devices req now known =
      (passed-IsAuthentic devices req now known, IsAuthentic-passed devices req now known)
