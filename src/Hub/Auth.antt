-- ===== src/Hub/Auth.antt =====
-- internal/device/device.go, the signed requests, and `requireDevice` of internal/hub/api.go. Headers
-- and bodies are byte strings. The hash, base64, ed25519 and the token's hash are a parameter.
pub mod Canonical
pub mod Passed
mod Tests
use pkgwatch.Base.{
  ℕ, zero, suc, ◌+◌, ◌*◌, ◌-◌, Bool, true, false, ◌&&◌, ◌||◌, not, leb, ltb, ◌==◌, List, [], ◌∷◌,
  ◌++◌, Option, none, some, if◌then◌else◌, map, length, ℤ, pos, negsuc,
}
use pkgwatch.Base.Text.{Text, text_eq, is_empty, atoi, itoa}
use pkgwatch.Base.Select.{drop}
use pkgwatch.Fleet.{Code, device_pending, device_revoked, device_unknown, device_auth, bad_request}
use pkgwatch.Hub.{Device, status_approved, status_revoked}
use pkgwatch.Hub.Devices.{find_device}

-- The cryptography: the hexadecimal SHA-256, the base32 of its first 16 bytes, unpadded base64, ed25519 of a key, a message and a
-- signature, and `Verify` of internal/secret, an argon2id hash.
pub record Crypto : Type 0 where
  pub sha256_hex : Text → Text
  pub sha256_base32 : Text → Text
  pub decode_base64 : Text → Option Text
  pub ed25519_verify : Text → Text → Text → Bool
  pub verify_token : Text → Text → Bool

-- What is read of a request; a header that is missing is empty.
pub record Request : Type 0 where
  pub method : Text
  pub path : Text
  pub device : Text
  pub timestamp : Text
  pub signature : Text
  pub authorization : Text
  pub body : Text

-- The errors of `Verify`.
pub data VerifyError : Type 0 where
  no_signature bad_signature skew : VerifyError

-- Nanoseconds.
abbrev pub second : ℕ
second = 1000000000

abbrev pub max_skew : ℕ
max_skew = 120 * second

-- `strings.ToUpper` of a method, which is an ASCII token.
abbrev pub upper_char : ℕ → ℕ
upper_char c = if leb b'a' c && leb c b'z' then c - 32 else c

abbrev pub to_upper : Text → Text
to_upper s = map upper_char s

-- `strconv.FormatInt`
unfoldable pub format_int : ℤ → Text
unfolding itoa
format_int (pos n) = itoa n
format_int (negsuc n) = b'-' ∷ itoa (suc n)

-- `strings.Join` with a one-character separator.
unfoldable pub join : ℕ → List Text → Text
join sep [] = []
join sep (s ∷ []) = s
join sep (s ∷ t ∷ rest) = s ++ sep ∷ join sep (t ∷ rest)

-- Whether the drift is beyond `MaxSkew` in either direction, for the receiver's clock in
-- nanoseconds.
unfoldable pub is_skewed : ℕ → ℤ → Bool
is_skewed now (pos ts) = ltb (ts * second + max_skew) now || ltb (now + max_skew) (ts * second)
is_skewed now (negsuc n) = ltb max_skew (now + suc n * second)

-- The key length of ed25519, and the limit of a body.
abbrev pub public_key_size : ℕ
public_key_size = 32

abbrev pub max_body : ℕ
max_body = 32 * 1024 * 1024

-- `bearer`
unfoldable pub bearer : Text → Text
bearer authorization = if leb (length authorization) 7 then [] else drop 7 authorization

-- What becomes of a request: the handler runs for the device, or a status and a code are sent.
pub data Verdict : Type 0 where
  passed : Device → Verdict
  refused : ℕ → Code → Verdict

module _ (crypto : Crypto) where
  -- `canonical`
  unfoldable pub canonical : Text → Text → Text → ℤ → Text
  unfolding join format_int
  canonical method path body ts =
      join b'|' (to_upper method ∷ path ∷ crypto.sha256_hex body ∷ format_int ts ∷ [])

  -- `Verify`, where `none` is no error.
  unfoldable pub verify : Request → Text → ℕ → Option VerifyError
  unfolding canonical is_skewed atoi
  verify req pub_key now =
      if is_empty req.timestamp || is_empty req.signature
      then some no_signature
      else elim (atoi req.timestamp) [
        | none ↦ some no_signature
        | some ts ↦
            if is_skewed now ts then some skew else elim (crypto.decode_base64 req.signature) [
              | none ↦ some no_signature
              | some sig ↦
                  if crypto.ed25519_verify pub_key (canonical req.method req.path req.body ts) sig
                  then none
                  else some bad_signature
            ]
      ]

  -- The checks of `requireDevice` after the signature, for the known device.
  unfoldable pub check_status : Request → Device → Verdict
  unfolding text_eq bearer
  check_status req known =
      if text_eq known.status status_approved
      then if crypto.verify_token (bearer req.authorization) known.token_hash
        then passed known
        else refused 401 device_auth
      else if text_eq known.status status_revoked
      then refused 403 device_revoked
      else refused 403 device_pending

  -- `requireDevice`, for the rows of `devices` and whether the query of them fails.
  unfoldable pub require_device : Bool → List Device → Request → ℕ → Verdict
  unfolding find_device verify check_status
  require_device query_fails devices req now =
      if is_empty req.device
      then refused 401 device_auth
      else if query_fails
      then refused 500 device_auth
      else elim (find_device req.device devices) [
        | none ↦ refused 401 device_unknown
        | some known ↦
            if ltb max_body (length req.body)
            then refused 413 bad_request
            else if not (length known.public_key == public_key_size)
            then refused 500 device_auth
            else elim (verify req known.public_key now) [
              | some reason ↦ refused 401 device_auth
              | none ↦ check_status req known
            ]
      ]
