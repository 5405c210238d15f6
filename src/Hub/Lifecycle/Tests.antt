-- ===== src/Hub/Lifecycle/Tests.antt =====
-- A device that pairs, and a code that is used twice.
use pkgwatch.Base.{ℕ, ◌*◌, ◌≤◌, true, false, List, [], ◌∷◌, ◌≡◌, ◌≢◌, refl, arith, any}
use pkgwatch.Base.Text.{codes, text_eq}
use pkgwatch.Base.Select.{count}
use pkgwatch.Hub.{Device, status_pending, status_approved, status_revoked}
use pkgwatch.Hub.Devices.{redeem_pair_code}
use pkgwatch.Hub.Auth.{Request, passed, require_device, second}
use pkgwatch.Hub.Enroll.{row_of, handle_enroll}
use pkgwatch.Hub.Enroll.Samples.{crypto, table, signed, pairing, none_fails, hub, pairs}
use pkgwatch.Hub.Lifecycle.{Action, expire, set_status, approves, act_all}
use pkgwatch.Hub.Lifecycle.Gated.{enrolled-require_device}
use pkgwatch.Hub.Lifecycle.PairCodes.{redeem_pair_code_once}

-- Others are approved, and the device is revoked.
abbrev actions : List (Action ℕ)
actions =
    set_status (codes "A") status_approved 1001
    ∷ set_status (codes "ABCD-EFGH") status_revoked 1002
    ∷ expire 1003
    ∷ []

abbrev sync : Request
sync = record signed { device = codes "ABCD-EFGH"; authorization = codes "Bearer h" }

abbrev known : Device
known = row_of (codes "0123456789abcdef0123456789abcdef") (codes "h") pairing

none_approves : any (approves (codes "ABCD-EFGH")) actions ≡ false
unfolding text_eq
none_approves = refl

enrolled-require_device_example :
    require_device crypto false
      (act_all crypto table actions
        (handle_enroll crypto table none_fails
          (codes "t")
          (codes "h")
          signed
          pairing
          (1000 * second)
          hub).1).devices
      sync
      (1004 * second)
    ≢ passed known
enrolled-require_device_example =
    enrolled-require_device crypto table none_fails (codes "t") (codes "h") signed pairing
      (1000 * second) hub (codes "ABCD-EFGH") (codes "t") status_pending pairs actions none_approves
      sync refl (1004 * second) known

hub_unique : count (λ c. text_eq c.code_hash (codes "ABCD2345")) hub.pair_codes ≤ 1
unfolding text_eq
hub_unique = omega arith

redeemed : (redeem_pair_code (codes "ABCD2345") 1000 hub).0 ≡ true
unfolding redeem_pair_code
redeemed = refl

redeem_pair_code_once_example :
    (redeem_pair_code
      (codes "ABCD2345")
      1200
      (act_all crypto table actions (redeem_pair_code (codes "ABCD2345") 1000 hub).1)).0
    ≡ false
redeem_pair_code_once_example =
    redeem_pair_code_once (codes "ABCD2345") crypto table 1000 hub hub_unique redeemed actions refl
      1200
