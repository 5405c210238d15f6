-- ===== src/Hub/Enroll.antt =====
-- internal/hub/api.go: `handleEnroll`, from the parsed request on, with `ID` of internal/device and
-- `HashCode` of internal/repo/devices.go.
pub mod Terms
pub mod Samples
mod Tests
use pkgwatch.Base.{
  ℕ, zero, suc, ◌+◌, ◌%◌, ◌/◌, ◌-◌, Bool, true, false, ◌&&◌, ◌||◌, not, ltb, leb, ◌==◌, List, [],
  ◌∷◌, ◌++◌, Option, none, some, if◌then◌else◌, map, length,
}
use pkgwatch.Base.Text.{Text, text_eq, trim_space}
use pkgwatch.Base.Select.{filter}
use pkgwatch.Fleet.{Code, device_auth, bad_request}
use pkgwatch.Hub.{Device, Tables, status_pending}
use pkgwatch.Hub.Devices.{redeem_pair_code, enroll}
use pkgwatch.Hub.Auth.{Crypto, Request, verify, public_key_size, second}

-- `EnrollRequest`
pub record EnrollRequest : Type 0 where
  pub code : Text
  pub device_id : Text
  pub public_key : Text
  pub hostname : Text
  pub os : Text
  pub arch : Text
  pub version : Text
  pub sync_level : Text

-- What may fail after the checks: the update of the codes, the token, its hash, the device's row.
pub data Part : Type 0 where
  spend_code make_token hash_token store_device : Part

-- The answer: `EnrollResponse`, or a status and a code.
pub data Answer : Type 0 where
  enrolled : Text → Text → Text → Answer
  refused : ℕ → Code → Answer

-- The loop of `ID` from the index `i` on.
unfoldable pub grouped : ℕ → Text → Text
grouped i [] = []
grouped i (c ∷ s) =
    let rest = grouped (suc i) s in
    if not (i == 0) && (i % 4 == 0) then b'-' ∷ c ∷ rest else c ∷ rest

-- `strings.ToUpper`: the ASCII letters, and a table for what is beyond ASCII.
unfoldable pub code_upper : (ℕ → ℕ) → Text → Text
code_upper table s =
    map (λ c. if ltb c 0x80 then if leb b'a' c && leb c b'z' then c - 32 else c else table c) s

-- The device of a request.
abbrev pub row_of : Text → Text → EnrollRequest → Device
row_of key hash req = record {
  id = req.device_id;
  public_key = key;
  token_hash = hash;
  hostname = req.hostname;
  os = req.os;
  arch = req.arch;
  status = [];
  sync_level = req.sync_level;
  enrolled_at = 0;
  approved_at = none;
  last_seen = none;
  version = req.version;
}

module _ (crypto : Crypto) (table : ℕ → ℕ) where
  -- `ID`
  unfoldable pub device_id : Text → Text
  unfolding grouped
  device_id key = grouped 0 (crypto.sha256_base32 key)

  -- `HashCode`
  unfoldable pub hash_code : Text → Text
  unfolding code_upper trim_space
  hash_code code =
      crypto.sha256_hex (code_upper table (filter (λ c. not (c == b'-')) (trim_space code)))

  -- From the redemption of the code on, for the decoded key and the token and its hash.
  unfoldable pub finish_enroll :
      {Num : Type 0}
      → (Part → Bool)
      → Text
      → Text
      → Text
      → EnrollRequest
      → ℕ
      → Tables Num
      → Answer × Tables Num
  unfolding redeem_pair_code enroll hash_code
  finish_enroll fails key token hash req now t =
      if fails spend_code
      then (refused 500 bad_request, t)
      else let redeemed = redeem_pair_code (hash_code req.code) now t in
        if not redeemed.0
        then (refused 403 device_auth, redeemed.1)
        else if fails make_token || fails hash_token || fails store_device
        then (refused 500 bad_request, redeemed.1)
        else (
          enrolled req.device_id token status_pending,
          enroll (row_of key hash req) now redeemed.1,
        )

  -- `handleEnroll`, for the HTTP request and what its body says, and the clock in nanoseconds.
  unfoldable pub handle_enroll :
      {Num : Type 0}
      → (Part → Bool)
      → Text
      → Text
      → Request
      → EnrollRequest
      → ℕ
      → Tables Num
      → Answer × Tables Num
  unfolding verify device_id finish_enroll text_eq
  handle_enroll fails token hash http req now t = elim (crypto.decode_base64 req.public_key) [
    | none ↦ (refused 400 bad_request, t)
    | some key ↦
        if not (length key == public_key_size)
        then (refused 400 bad_request, t)
        else if not (text_eq (device_id key) req.device_id)
        then (refused 400 bad_request, t)
        else elim (verify crypto http key now) [
          | some reason ↦ (refused 401 device_auth, t)
          | none ↦ finish_enroll fails key token hash req (now / second) t
        ]
  ]
