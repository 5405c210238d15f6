-- ===== src/Fleet.antt =====
-- internal/fleet/protocol.go: what an agent and its hub send each other. A time is a number of
-- seconds, as the tables hold it; `none` is the zero time.
pub mod Queue
use pkgwatch.Base.{ℕ, Bool, List, Option}
use pkgwatch.Base.Text.{Text, codes}

-- `Event`; the identifier is the agent's row number.
pub record Event : Type 0 where
  pub agent_id : ℕ
  pub at : ℕ
  pub kind : Text
  pub severity : Text
  pub purl : Text
  pub advisory_id : Text
  pub detail : Text

-- `Finding`; `Num` is float64.
pub record Finding (Num : Type 0) : Type 0 where
  pub purl : Text
  pub advisory_id : Text
  pub tier : Text
  pub score : Num
  pub state : Text
  pub detected_at : ℕ

-- `Package`
pub record Package : Type 0 where
  pub purl : Text
  pub ecosystem : Text
  pub name : Text
  pub version : Text
  pub scope : Text
  pub last_seen : ℕ

-- `RotationTick`
pub record RotationTick : Type 0 where
  pub purl : Text
  pub advisory_id : Text
  pub item_id : Text
  pub checked_at : Option ℕ

-- `Credential`
pub record Credential : Type 0 where
  pub id : Text
  pub category : Text
  pub path : Text
  pub rank : ℕ

-- `Quarantined`
pub record Quarantined : Type 0 where
  pub id : Text
  pub purl : Text
  pub advisory_id : Text
  pub state : Text
  pub origin_path : Text
  pub at : ℕ
  pub restored_at : Option ℕ

-- `SyncRequest`
pub record SyncRequest (Num : Type 0) : Type 0 where
  pub version : Text
  pub sync_level : Text
  pub events : List Event
  pub findings : List (Finding Num)
  pub packages : List Package
  pub rotation : List RotationTick
  pub quarantine : List Quarantined
  pub credentials : List Credential
  pub findings_complete : Bool
  pub rotation_complete : Bool
  pub quarantine_complete : Bool
  pub credentials_complete : Bool

-- `SyncResponse`
pub record SyncResponse : Type 0 where
  pub accepted_through : ℕ
  pub events : ℕ
  pub findings : ℕ
  pub packages : ℕ
  pub rotation : ℕ
  pub quarantine : ℕ
  pub credentials : ℕ

-- The refusal codes.
pub data Code : Type 0 where
  device_pending device_revoked device_unknown device_auth bad_request : Code

-- The sync levels.
abbrev pub sync_level_findings : Text
sync_level_findings = codes "findings"

abbrev pub sync_level_full : Text
sync_level_full = codes "full"
