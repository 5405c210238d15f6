-- ===== src/Hub/Delivery.antt =====
-- One agent's events on their way to the hub: the steps that the agent (internal/agent/sync.go and
-- internal/repo/syncqueue.go), the network, the hub and the other devices take, in any order.
pub mod Waiting
pub mod Invariant
pub mod Agent
pub mod Arrival
pub mod Safe
pub mod Drain
mod Tests
use pkgwatch.Base.{ℕ, ◌≤◌, ◌<◌, Bool, true, false, List, [], ◌∷◌, ◌++◌, Option, some, map, ◌≡◌}
use pkgwatch.Base.Text.{Text, text_eq}
use pkgwatch.Fleet.{Event, SyncRequest, SyncResponse}
use pkgwatch.Fleet.Queue.{
  Row, queued_events, mark_events_synced, given_up, trim_queue, record_event, prune_events,
}
use pkgwatch.Agent.{event_batch_limit}
use pkgwatch.Hub.{Device, Tables}
use pkgwatch.Hub.Store.Ingest.{top}
use pkgwatch.Hub.Sync.{Transaction, handle_sync}

-- The agent's table and the request it has made up, the answer it has received, and the hub's
-- tables; and for the record, all that was ever recorded and the numbers of what was trimmed.
pub record World (Num : Type 0) : Type 0 where
  pub recorded : List Event
  pub rows : List Row
  pub batch : List Event
  pub through : ℕ
  pub trimmed : List ℕ
  pub tables : Tables Num

-- The request of `syncOnce` is made up of what is queued, and no answer has come yet.
abbrev pub made_up : {Num : Type 0} → World Num → World Num
made_up w = record w { batch = queued_events event_batch_limit w.rows; through = 0 }

-- `TrimQueue`, with what it gave up.
abbrev pub cut : {Num : Type 0} → ℕ → World Num → World Num
cut cap w = record w {
  rows = trim_queue cap w.rows;
  trimmed = map (λ r. r.event.agent_id) (given_up cap w.rows) ++ w.trimmed;
}

-- The steps. A request may reach the hub any number of times or not at all, from the request that
-- was signed, and so may the answer; what the hub answers depends on which transactions fail.
pub data Step {Num : Type 0} (device : Text) (w : World Num) : World Num → Type 0 where
  recording :
      (e : Event)
      → top w.recorded < e.agent_id
      → Step device w (record w { recorded = w.recorded ++ e ∷ []; rows = record_event e w.rows })
  trimming : (cap : ℕ) → 0 < cap → Step device w (cut cap w)
  pruning : (cutoff : ℕ) → Step device w (record w { rows = prune_events cutoff true w.rows })
  reading : Step device w (made_up w)
  arriving :
      (dev : Device) (req : SyncRequest Num) (now : ℕ) (fails : Transaction → Bool)
      → dev.id ≡ device
      → req.events ≡ w.batch
      → Step device w (record w { tables = (handle_sync dev req now fails w.tables).1 })
  answering :
      (dev : Device) (req : SyncRequest Num) (now : ℕ) (fails : Transaction → Bool)
      (response : SyncResponse)
      → dev.id ≡ device
      → req.events ≡ w.batch
      → (handle_sync dev req now fails w.tables).0 ≡ some response
      → Step device w (record w {
        tables = (handle_sync dev req now fails w.tables).1;
        through = response.accepted_through;
      })
  marking : Step device w (record w { rows = mark_events_synced w.through w.rows })
  pushing :
      (dev : Device) (req : SyncRequest Num) (now : ℕ) (fails : Transaction → Bool)
      → text_eq dev.id device ≡ false
      → Step device w (record w { tables = (handle_sync dev req now fails w.tables).1 })
  administering :
      (tables : Tables Num)
      → tables.events ≡ w.tables.events
      → Step device w (record w { tables = tables })

-- Any number of steps.
pub data Reach {Num : Type 0} (device : Text) (v : World Num) : World Num → Type 0 where
  here : Reach device v v
  next : {u w : World Num} → Reach device v u → Step device u w → Reach device v w

-- Before the agent has recorded anything, and a hub without events.
abbrev pub start : {Num : Type 0} → Tables Num → World Num
start t = record {
  recorded = [];
  rows = [];
  batch = [];
  through = 0;
  trimmed = [];
  tables = record t { events = [] };
}
