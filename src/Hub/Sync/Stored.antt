-- ===== src/Hub/Sync/Stored.antt =====
-- What the hub holds of a device after a push.
use pkgwatch.Base.{ℕ, Bool, true, List, none, if◌then◌else◌, ◌≡◌, refl, inr, map, All}
use pkgwatch.Base.Text.{Text}
use pkgwatch.Base.Select.{filter}
use pkgwatch.Fleet.{SyncRequest}
use pkgwatch.Hub.{Device, Tables, Owned, is_of}
use pkgwatch.Hub.Store.{holds_event}
use pkgwatch.Hub.Sync.{
  Transaction, write_events, write_findings, write_packages, write_rotation, write_quarantine,
  write_credentials, takes_packages, takes_credentials, handle_sync,
}
use pkgwatch.Hub.Sync.Frame.{handle_sync-Refuses}

-- What the table holds of the device, in order.
abbrev pub sent : {A : Type 0} → Text → List (Owned A) → List A
sent device rows = map (λ r. r.row) (filter (is_of device) rows)

-- The device's rows of a table that is replaced where the condition holds.
abbrev pub IsReplaced :
    {A : Type 0} → Text → Bool → List A → List (Owned A) → List (Owned A) → Type 0
IsReplaced device condition items old new =
    sent device new ≡ (if condition then items else sent device old)

module _ {Num : Type 0} (dev : Device) (req : SyncRequest Num) (now : ℕ) where
  -- What a push that is stored in full makes of the tables.
  pub record IsStored (t u : Tables Num) : Type 0 where
    pub events : All (λ e. holds_event dev.id e.agent_id u.events ≡ true) req.events
    pub findings : IsReplaced dev.id req.findings_complete req.findings t.findings u.findings
    pub packages : IsReplaced dev.id (takes_packages dev req now) req.packages t.packages u.packages
    pub rotation : IsReplaced dev.id req.rotation_complete req.rotation t.rotation u.rotation
    pub quarantine :
        IsReplaced dev.id req.quarantine_complete req.quarantine t.quarantine u.quarantine
    pub credentials :
        IsReplaced dev.id
          (takes_credentials dev req now)
          req.credentials
          t.credentials
          u.credentials

  -- A push that the hub refuses does not count as a sign of life: no device is touched.
  pub handle_sync_refused :
      (fails : Transaction → Bool) (t : Tables Num)
      → (handle_sync dev req now fails t).0 ≡ none
      → (handle_sync dev req now fails t).1.devices ≡ t.devices
  unfolding write_events write_findings write_packages write_rotation write_quarantine
      write_credentials
  handle_sync_refused fails t h =
      (handle_sync-Refuses (λ t. t.devices) dev req now fails (λ t. refl) (inr (λ t. refl))
          (inr (λ t. refl)) (inr (λ t. refl)) (inr (λ t. refl)) (inr (λ t. refl))).keeps
        t h
