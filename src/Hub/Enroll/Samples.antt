-- ===== src/Hub/Enroll/Samples.antt =====
-- A pairing for the tests, under a cryptography that can be computed.
use pkgwatch.Base.{ℕ, ◌*◌, Bool, false, [], ◌∷◌, none, some, ◌≡◌, refl}
use pkgwatch.Base.Text.{Text, codes, text_eq}
use pkgwatch.Fleet.{sync_level_full}
use pkgwatch.Hub.{Tables, status_pending}
use pkgwatch.Hub.Samples.{tables}
use pkgwatch.Hub.Auth.{Crypto, Request, second}
use pkgwatch.Hub.Enroll.{EnrollRequest, Part, enrolled, handle_enroll}

-- A signature is the text that it signs.
abbrev pub crypto : Crypto
crypto = record {
  sha256_hex = λ s. s;
  sha256_base32 = λ key. codes "ABCDEFGH";
  decode_base64 = λ s. some s;
  ed25519_verify = λ key message sig. text_eq message sig;
  verify_token = λ token hash. text_eq token hash;
}

abbrev pub table : ℕ → ℕ
table c = c

abbrev pub http : Text → Request
http signature = record {
  method = codes "POST";
  path = codes "/api/v1/enroll";
  device = [];
  timestamp = codes "1000";
  signature = signature;
  authorization = [];
  body = codes "x";
}

abbrev pub signed : Request
signed = http (codes "POST|/api/v1/enroll|x|1000")

abbrev pub pairing : EnrollRequest
pairing = record {
  code = codes "abcd-2345";
  device_id = codes "ABCD-EFGH";
  public_key = codes "0123456789abcdef0123456789abcdef";
  hostname = codes "laptop";
  os = codes "linux";
  arch = codes "amd64";
  version = codes "1";
  sync_level = sync_level_full;
}

abbrev pub none_fails : Part → Bool
none_fails x = false

-- The hub with the code ABCD2345.
abbrev pub hub : Tables ℕ
hub = record tables {
  pair_codes =
      record { code_hash = codes "ABCD2345"; created_at = 900; expires_at = 1500; used_at = none }
      ∷ [];
}

pub pairs :
    (handle_enroll crypto table none_fails
      (codes "t")
      (codes "h")
      signed
      pairing
      (1000 * second)
      hub).0
    ≡ enrolled (codes "ABCD-EFGH") (codes "t") status_pending
unfolding handle_enroll
pairs = refl
