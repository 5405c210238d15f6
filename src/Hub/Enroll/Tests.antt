-- ===== src/Hub/Enroll/Tests.antt =====
-- Enrolments under a cryptography that can be computed.
use pkgwatch.Base.{◌*◌, ◌≡◌, refl, arith}
use pkgwatch.Base.Text.{Text, codes, text_eq}
use pkgwatch.Fleet.{device_auth}
use pkgwatch.Hub.Enroll.Samples.{crypto, table, http, pairing, none_fails, hub}
use pkgwatch.Hub.Auth.{second, canonical}
use pkgwatch.Hub.Enroll.{refused, handle_enroll}
use pkgwatch.Hub.Enroll.Terms.{IsOwner, handle_enroll_unproved}

forged :
    (handle_enroll crypto table none_fails
      (codes "t")
      (codes "h")
      (http (codes "guess"))
      pairing
      (1000 * second)
      hub).0
    ≡ refused 401 device_auth
unfolding handle_enroll
forged = refl

-- The guessed signature is that of no time that the request could carry.
no_owner :
    (key : Text) → IsOwner crypto table (http (codes "guess")) pairing (1000 * second) key → ⊥
unfolding canonical text_eq
no_owner key h = absurd (ground (arith, h.signed.verified, h.signed.decoded))

handle_enroll_unproved_example :
    (handle_enroll crypto table none_fails
      (codes "t")
      (codes "h")
      (http (codes "guess"))
      pairing
      (1000 * second)
      hub).1
    ≡ hub
handle_enroll_unproved_example =
    handle_enroll_unproved crypto table none_fails (codes "t") (codes "h") (http (codes "guess"))
      pairing (1000 * second) hub no_owner
