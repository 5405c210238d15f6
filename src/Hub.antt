-- ===== src/Hub.antt =====
-- The hub: its tables (internal/repo/fleet.go and devices.go) and its handlers (internal/hub).
pub mod Store
pub mod Devices
pub mod Sync
pub mod Auth
pub mod Enroll
pub mod Lifecycle
pub mod Delivery
pub mod Samples
use pkgwatch.Base.{ℕ, Bool, true, false, not, List, Option}
use pkgwatch.Base.Text.{Text, codes, text_eq}
use pkgwatch.Fleet.{Event, Finding, Package, RotationTick, Credential, Quarantined}

abbrev pub status_pending : Text
status_pending = codes "pending"

abbrev pub status_approved : Text
status_approved = codes "approved"

abbrev pub status_revoked : Text
status_revoked = codes "revoked"

-- `Device`, a row of `devices`; `none` is a time that is not set.
pub record Device : Type 0 where
  pub id : Text
  pub public_key : Text
  pub token_hash : Text
  pub hostname : Text
  pub os : Text
  pub arch : Text
  pub status : Text
  pub sync_level : Text
  pub enrolled_at : ℕ
  pub approved_at : Option ℕ
  pub last_seen : Option ℕ
  pub version : Text

-- A row of `pair_codes`.
pub record PairCode : Type 0 where
  pub code_hash : Text
  pub created_at : ℕ
  pub expires_at : ℕ
  pub used_at : Option ℕ

-- A row that a device has sent, with the time of its arrival.
pub record Owned (A : Type 0) : Type 0 where
  pub device_id : Text
  pub row : A
  pub stored_at : ℕ

-- The tables of the hub.
pub record Tables (Num : Type 0) : Type 0 where
  pub devices : List Device
  pub pair_codes : List PairCode
  pub events : List (Owned Event)
  pub findings : List (Owned (Finding Num))
  pub packages : List (Owned Package)
  pub rotation : List (Owned RotationTick)
  pub quarantine : List (Owned Quarantined)
  pub credentials : List (Owned Credential)

-- `device_id = ?`
abbrev pub is_of : {A : Type 0} → Text → Owned A → Bool
is_of device r = text_eq r.device_id device
