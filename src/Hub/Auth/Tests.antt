-- ===== src/Hub/Auth/Tests.antt =====
-- Requests under a cryptography that can be computed: a signature is the text that it signs.
use pkgwatch.Base.{◌*◌, false, [], ◌∷◌, none, some, ◌≡◌, ◌↔◌, refl, arith, pos}
use pkgwatch.Base.Text.{Text, Lacks, codes, text_eq}
use pkgwatch.Fleet.{device_auth, device_pending}
use pkgwatch.Fleet.{sync_level_findings}
use pkgwatch.Hub.{Device, status_pending, status_approved}
use pkgwatch.Hub.Auth.{
  Crypto, Request, passed, refused, second, to_upper, canonical, require_device,
}
use pkgwatch.Hub.Auth.Canonical.{canonical_inj}
use pkgwatch.Hub.Auth.Passed.{IsAuthentic, require_device-passed_iff}

abbrev crypto : Crypto
crypto = record {
  sha256_hex = λ body. codes "0f";
  sha256_base32 = λ key. codes "ABCDEFGH";
  decode_base64 = λ s. some s;
  ed25519_verify = λ key message sig. text_eq message sig;
  verify_token = λ token hash. text_eq token hash;
}

abbrev device : Text → Device
device status = record {
  id = codes "ABCD-EFGH";
  public_key = codes "0123456789abcdef0123456789abcdef";
  token_hash = codes "secret";
  hostname = codes "laptop";
  os = codes "linux";
  arch = codes "amd64";
  status = status;
  sync_level = sync_level_findings;
  enrolled_at = 1;
  approved_at = none;
  last_seen = none;
  version = codes "1";
}

abbrev request : Request
request = record {
  method = codes "post";
  path = codes "/api/v1/sync";
  device = codes "ABCD-EFGH";
  timestamp = codes "1000";
  signature = codes "POST|/api/v1/sync|0f|1000";
  authorization = codes "Bearer secret";
  body = codes "x";
}

passes :
    require_device crypto false (device status_approved ∷ []) request (1100 * second)
    ≡ passed (device status_approved)
unfolding require_device
passes = refl

-- Two minutes and a second later the signature is worth nothing.
replayed :
    require_device crypto false (device status_approved ∷ []) request (1121 * second)
    ≡ refused 401 device_auth
unfolding require_device
replayed = refl

waits :
    require_device crypto false (device status_pending ∷ []) request (1100 * second)
    ≡ refused 403 device_pending
unfolding require_device
waits = refl

require_device-passed_iff_example :
    (require_device crypto false (device status_approved ∷ []) request (1100 * second)
      ≡ passed (device status_approved))
    ↔ IsAuthentic crypto
        (device status_approved ∷ [])
        request
        (1100 * second)
        (device status_approved)
require_device-passed_iff_example =
    require_device-passed_iff crypto (device status_approved ∷ []) request (1100 * second)
      (device status_approved)

digest_Lacks : (body : Text) → Lacks b'|' (crypto.sha256_hex body)
digest_Lacks body = omega arith

same_text :
    canonical crypto (codes "post") (codes "/a|b") (codes "x") (pos 7)
    ≡ canonical crypto (codes "POST") (codes "/a|b") (codes "y") (pos 7)
unfolding canonical
same_text = refl

canonical_inj_example :
    (to_upper (codes "post") ≡ to_upper (codes "POST"))
    × (codes "a|b" ≡ codes "a|b")
    × (crypto.sha256_hex (codes "x") ≡ crypto.sha256_hex (codes "y"))
    × (pos 7 ≡ pos 7)
canonical_inj_example =
    canonical_inj crypto digest_Lacks (codes "post") (codes "POST") (codes "a|b") (codes "a|b")
      (codes "x") (codes "y") (pos 7) (pos 7) (omega arith) (omega arith) same_text
