-- ===== src/Agent.antt =====
-- internal/agent/sync.go: one push of the agent and what it does with the answer. What the queries and
-- the hub return is a parameter. The pairing's revocation marker is a flag,
-- and the time of the last push is left out.
pub mod Backoff
pub mod Inventory
pub mod Lease
mod Tests
use pkgwatch.Base.{
  ℕ, suc, ◌+◌, ◌*◌, Bool, true, false, ◌&&◌, ◌||◌, not, ltb, leb, ◌==◌, List, [], ◌∷◌, ◌++◌, Option,
  none, some, if◌then◌else◌, map, length, ◌⊎◌, inl, inr,
}
use pkgwatch.Base.Text.{Text, codes, text_eq}
use pkgwatch.Fleet.{
  Event, Finding, Package, RotationTick, Credential, Quarantined, SyncRequest, SyncResponse, Code,
  device_pending, device_revoked, device_unknown, device_auth, bad_request, sync_level_full,
}
use pkgwatch.Fleet.Queue.{
  Row, event_queue_cap, queued_events, mark_events_synced, given_up, trim_queue, record_event,
}

-- `eventBatchLimit`
abbrev pub event_batch_limit : ℕ
event_batch_limit = 2000

-- `syncOutcome`
pub data Outcome : Type 0 where
  sync_ok sync_failed sync_skipped sync_halted : Outcome

-- The errors of a push, as `handlePushError` tells them apart.
pub data PushError : Type 0 where
  wrong_certificate network : PushError
  api : Code → PushError

-- The agent's database, as far as a push changes it; `next` is the number of the next event.
pub record Store : Type 0 where
  pub rows : List Row
  pub next : ℕ
  pub revoked : Bool

abbrev pub event_sync_dropped : Text
event_sync_dropped = codes "sync_dropped"

abbrev pub event_sync_refused : Text
event_sync_refused = codes "sync_refused"

-- `RecordEvent`, for an event of this device.
unfoldable pub log_event : Text → Text → Text → ℕ → Store → Store
unfolding record_event
log_event kind severity detail now s = record s {
  rows =
      record_event
        (record {
          agent_id = s.next;
          at = now;
          kind = kind;
          severity = severity;
          purl = [];
          advisory_id = [];
          detail = detail;
        })
        s.rows;
  next = suc s.next;
}

-- What the agent reads for a push: `none` is a query that failed.
pub record Snapshot (Num : Type 0) : Type 0 where
  pub findings : Option (List (Finding Num))
  pub rotation : Option (List RotationTick)
  pub quarantine : Option (List Quarantined × Bool)
  pub credentials : List Credential
  pub packages : Option (List Package)

abbrev pub or_none : {A : Type 0} → Option (List A) → List A
or_none none = []
or_none (some xs) = xs

abbrev pub is_read : {A : Type 0} → Option A → Bool
is_read none = false
is_read (some x) = true

-- The path travels at the full level alone.
abbrev pub with_path : Text → Quarantined → Quarantined
with_path level q = if text_eq level sync_level_full then q else record q { origin_path = [] }

abbrev pub quarantine_rows : Text → Option (List Quarantined × Bool) → List Quarantined
quarantine_rows level none = []
quarantine_rows level (some (rows, complete)) = map (with_path level) rows

abbrev pub quarantine_flag : Option (List Quarantined × Bool) → Bool
quarantine_flag none = false
quarantine_flag (some (rows, complete)) = complete

-- The ranks of the credentials, from the index `i` on.
unfoldable pub ranked_from : ℕ → List Credential → List Credential
ranked_from i [] = []
ranked_from i (c ∷ items) = record c { rank = i } ∷ ranked_from (suc i) items

-- The request that `syncOnce` makes up.
unfoldable pub build_push :
    {Num : Type 0} → Text → Text → List Event → List (Finding Num) → Snapshot Num → SyncRequest Num
unfolding ranked_from text_eq
build_push version level queued findings snap = record {
  version = version;
  sync_level = level;
  events = queued;
  findings = findings;
  packages = if text_eq level sync_level_full then or_none snap.packages else [];
  rotation = or_none snap.rotation;
  quarantine = quarantine_rows level snap.quarantine;
  credentials = if text_eq level sync_level_full then ranked_from 0 snap.credentials else [];
  findings_complete = true;
  rotation_complete = is_read snap.rotation;
  quarantine_complete = quarantine_flag snap.quarantine;
  credentials_complete = text_eq level sync_level_full;
}

-- `handlePushError`, for the text that describes the error.
unfoldable pub handle_push_error : (PushError → Text) → PushError → ℕ → Store → Outcome × Store
unfolding log_event
handle_push_error describe wrong_certificate now s = (
  sync_halted,
  log_event event_sync_refused (codes "critical") (describe wrong_certificate) now s,
)
handle_push_error describe network now s = (sync_failed, s)
handle_push_error describe (api device_revoked) now s = (
  sync_halted,
  log_event event_sync_refused (codes "high") (describe (api device_revoked)) now
      (record s { revoked = true }),
)
handle_push_error describe (api device_unknown) now s = (
  sync_halted,
  log_event event_sync_refused (codes "high") (describe (api device_unknown)) now
      (record s { revoked = true }),
)
handle_push_error describe (api device_pending) now s = (sync_skipped, s)
handle_push_error describe (api device_auth) now s = (sync_failed, s)
handle_push_error describe (api bad_request) now s = (sync_failed, s)

-- The trim at the start of a push, with the event that tells of it.
unfoldable pub trim_first : (ℕ → Text) → ℕ → Store → Store
unfolding trim_queue given_up log_event
trim_first dropped_text now s =
    let dropped = length (given_up event_queue_cap s.rows) in
    let trimmed = record s { rows = trim_queue event_queue_cap s.rows } in
    if dropped == 0
    then trimmed
    else log_event event_sync_dropped [] (dropped_text dropped) now trimmed

-- What comes of the hub's answer to the request.
unfoldable pub settle : (PushError → Text) → SyncResponse ⊎ PushError → ℕ → Store → Outcome × Store
unfolding handle_push_error mark_events_synced
settle describe (inl response) now s = (
  sync_ok,
  record s { rows = mark_events_synced response.accepted_through s.rows; revoked = false },
)
settle describe (inr error) now s = handle_push_error describe error now s

-- `syncOnce` of a paired agent whose database takes what is written, from the trim on.
unfoldable pub sync_once :
    {Num : Type 0}
    → (PushError → Text)
    → (ℕ → Text)
    → (SyncRequest Num → SyncResponse ⊎ PushError)
    → Text
    → Text
    → Snapshot Num
    → ℕ
    → Store
    → Outcome × Store
unfolding trim_first queued_events build_push settle
sync_once describe dropped_text hub version level snap now s =
    let s' = trim_first dropped_text now s in
    elim snap.findings [
      | none ↦ (sync_failed, s')
      | some findings ↦
          settle describe
            (hub (build_push version level (queued_events event_batch_limit s'.rows) findings snap))
            now s'
    ]

-- The bounds of the wait between pushes, in seconds.
abbrev pub sync_interval : ℕ
sync_interval = 300

abbrev pub backoff_initial : ℕ
backoff_initial = 30

abbrev pub backoff_max : ℕ
backoff_max = 1800

-- The `switch` of `runSync`: the wait and the next backoff, `none` where the loop ends.
unfoldable pub next_wait : Outcome → ℕ → Option (ℕ × ℕ)
next_wait sync_halted backoff = none
next_wait sync_failed backoff =
    some (backoff, if leb (backoff * 2) backoff_max then backoff * 2 else backoff_max)
next_wait sync_ok backoff = some (sync_interval, backoff_initial)
next_wait sync_skipped backoff = some (sync_interval, backoff_initial)

-- The waits of the loop, for the outcomes of its pushes.
unfoldable pub run_sync : ℕ → List Outcome → List ℕ
unfolding next_wait
run_sync backoff [] = []
run_sync backoff (o ∷ outcomes) = elim (next_wait o backoff) [
  | none ↦ []
  | some (wait, later) ↦ wait ∷ run_sync later outcomes
]

-- `runSync`, for the configured level; at "off" the agent never pushes.
unfoldable pub start_sync : Text → List Outcome → List ℕ
unfolding run_sync text_eq
start_sync level outcomes =
    if text_eq level (codes "off") then [] else run_sync backoff_initial outcomes
