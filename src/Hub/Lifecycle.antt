-- ===== src/Hub/Lifecycle.antt =====
-- What happens to pairing codes and devices on a hub, in any order: the operations of
-- internal/repo/devices.go, the handlers of internal/hub and the pushes.
pub mod Approval
pub mod Gated
pub mod PairCodes
mod Tests
use pkgwatch.Base.{ℕ, Bool, true, false, ◌&&◌, List, [], ◌∷◌, any}
use pkgwatch.Base.Text.{Text, text_eq}
use pkgwatch.Fleet.{SyncRequest}
use pkgwatch.Hub.{Device, Tables, status_approved}
use pkgwatch.Hub.Devices.{
  issue_pair_code, redeem_pair_code, expire_pair_codes, enroll, set_device_status,
  set_device_sync_level, touch_device,
}
use pkgwatch.Hub.Sync.{Transaction, handle_sync}
use pkgwatch.Hub.Auth.{Crypto, Request}
use pkgwatch.Hub.Enroll.{EnrollRequest, Part, handle_enroll}

-- What may happen.
pub data Action (Num : Type 0) : Type 0 where
  issue : Text → ℕ → Action Num
  redeem : Text → ℕ → Action Num
  expire : ℕ → Action Num
  pair : (Part → Bool) → Text → Text → Request → EnrollRequest → ℕ → Action Num
  set_status : Text → Text → ℕ → Action Num
  set_level : Text → Text → Action Num
  push : Device → SyncRequest Num → ℕ → (Transaction → Bool) → Action Num

module _ {Num : Type 0} (crypto : Crypto) (table : ℕ → ℕ) where
  abbrev pub act : Action Num → Tables Num → Tables Num
  act (issue hash now) t = issue_pair_code hash now t
  act (redeem hash now) t = (redeem_pair_code hash now t).1
  act (expire now) t = expire_pair_codes now t
  act (pair fails token hash http req now) t =
      (handle_enroll crypto table fails token hash http req now t).1
  act (set_status id status now) t = (set_device_status id status now t).1
  act (set_level id level) t = (set_device_sync_level id level t).1
  act (push dev req now fails) t = (handle_sync dev req now fails t).1

  abbrev pub act_all : List (Action Num) → Tables Num → Tables Num
  act_all [] t = t
  act_all (a ∷ actions) t = act_all actions (act a t)

-- Somebody approves the device.
abbrev pub approves : {Num : Type 0} → Text → Action Num → Bool
approves id (issue hash now) = false
approves id (redeem hash now) = false
approves id (expire now) = false
approves id (pair fails token hash http req now) = false
approves id (set_status other status now) = text_eq other id && text_eq status status_approved
approves id (set_level other level) = false
approves id (push dev req now fails) = false

-- The device is approved on the hub.
abbrev pub is_approved : {Num : Type 0} → Text → Tables Num → Bool
is_approved id t = any (λ d. text_eq d.id id && text_eq d.status status_approved) t.devices

-- A code with the hash is made.
abbrev pub issues : {Num : Type 0} → Text → Action Num → Bool
issues hash (issue other now) = text_eq other hash
issues hash (redeem other now) = false
issues hash (expire now) = false
issues hash (pair fails token other http req now) = false
issues hash (set_status id status now) = false
issues hash (set_level id level) = false
issues hash (push dev req now fails) = false
