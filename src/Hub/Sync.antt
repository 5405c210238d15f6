-- ===== src/Hub/Sync.antt =====
-- internal/hub/sync.go: one push of an approved device, from the parsed request on. What the
-- database answers to each transaction is a parameter: one that fails, as it does where a
-- constraint is violated, is rolled back. No events make no transaction, which cannot fail.
pub mod Frame
pub mod Terms
pub mod Answer
pub mod Stored
mod Tests
use pkgwatch.Base.{
  ℕ, Bool, true, false, ◌&&◌, not, List, [], ◌∷◌, Option, none, some, if◌then◌else◌, map, length,
}
use pkgwatch.Base.Text.{Text, text_eq}
use pkgwatch.Fleet.{SyncRequest, SyncResponse, sync_level_full}
use pkgwatch.Hub.{Device, Tables}
use pkgwatch.Hub.Store.{ingest_events, replace_rows, replace_credentials}
use pkgwatch.Hub.Devices.{touch_device}

-- The transactions of a push.
pub data Transaction : Type 0 where
  store_events store_findings store_packages store_rotation store_quarantine : Transaction
  store_credentials touch : Transaction

-- A part of the handler: `none` is a refusal, and what was committed before it stays.
abbrev pub Handler : Type 0 → Type 0 → Type 0
Handler Num A = Tables Num → Option A × Tables Num

abbrev pub answer : {Num A : Type 0} → A → Handler Num A
answer a t = (some a, t)

infixl 5 ◌>>=◌
unfoldable pub ◌>>=◌ : {Num A B : Type 0} → Handler Num A → (A → Handler Num B) → Handler Num B
◌>>=◌ m next t = elim (m t).0 [ none ↦ (none, (m t).1) | some a ↦ next a (m t).1 ]

-- A transaction that writes the tables and returns a count; its failure is refused.
unfoldable pub transact : {Num A : Type 0} → Bool → (Tables Num → A × Tables Num) → Handler Num A
transact fails write t = if fails then (none, t) else (some (write t).0, (write t).1)

-- A transaction under a condition; without it nothing is stored and the count stays 0.
unfoldable pub transact_if :
    {Num : Type 0} → Bool → Bool → (Tables Num → ℕ × Tables Num) → Handler Num ℕ
transact_if condition fails write = if condition then transact fails write else answer 0

abbrev pub no_items : {A : Type 0} → List A → Bool
no_items [] = true
no_items (x ∷ xs) = false

-- Whether the hub's record of the device lets its inventory in.
unfoldable pub is_full : Device → Bool
unfolding text_eq
is_full dev = text_eq dev.sync_level sync_level_full

module _ {Num : Type 0} (dev : Device) (req : SyncRequest Num) (now : ℕ) where
  unfoldable pub write_events : Tables Num → (ℕ × ℕ) × Tables Num
  unfolding ingest_events
  write_events t =
      let stored = ingest_events dev.id req.events now t.events in
      (stored.0, record t { events = stored.1 })

  unfoldable pub write_findings : Tables Num → ℕ × Tables Num
  unfolding replace_rows
  write_findings t =
      (length req.findings, record t { findings = replace_rows dev.id now req.findings t.findings })

  unfoldable pub write_packages : Tables Num → ℕ × Tables Num
  unfolding replace_rows
  write_packages t =
      (length req.packages, record t { packages = replace_rows dev.id now req.packages t.packages })

  unfoldable pub write_rotation : Tables Num → ℕ × Tables Num
  unfolding replace_rows
  write_rotation t =
      (length req.rotation, record t { rotation = replace_rows dev.id now req.rotation t.rotation })

  unfoldable pub write_quarantine : Tables Num → ℕ × Tables Num
  unfolding replace_rows
  write_quarantine t = (
    length req.quarantine,
    record t { quarantine = replace_rows dev.id now req.quarantine t.quarantine },
  )

  unfoldable pub write_credentials : Tables Num → ℕ × Tables Num
  unfolding replace_credentials
  write_credentials t = (
    length req.credentials,
    record t {
      credentials =
          replace_credentials dev.id now req.credentials (map (λ c. c.rank) req.credentials)
            t.credentials;
    },
  )

  -- The conditions under which the handler stores the inventory and the credentials.
  abbrev pub takes_packages : Bool
  takes_packages = is_full dev && not (no_items req.packages)

  abbrev pub takes_credentials : Bool
  takes_credentials = is_full dev && req.credentials_complete

  -- The device is touched last, and only if all else was stored; a failure is only logged.
  unfoldable pub check_in : Bool → Tables Num → Tables Num
  unfolding touch_device
  check_in fails t = if fails then t else touch_device dev.id req.version now t

  -- The handler of `handleSync`.
  unfoldable pub handle_sync : (Transaction → Bool) → Handler Num SyncResponse
  handle_sync fails = do
    stored ← transact (fails store_events && not (no_items req.events)) write_events
    findings ← transact_if req.findings_complete (fails store_findings) write_findings
    packages ← transact_if takes_packages (fails store_packages) write_packages
    rotation ← transact_if req.rotation_complete (fails store_rotation) write_rotation
    quarantine ← transact_if req.quarantine_complete (fails store_quarantine) write_quarantine
    credentials ← transact_if takes_credentials (fails store_credentials) write_credentials
    λ t. (
      some (record {
        accepted_through = stored.1;
        events = stored.0;
        findings = findings;
        packages = packages;
        rotation = rotation;
        quarantine = quarantine;
        credentials = credentials;
      }),
      check_in (fails touch) t,
    )
