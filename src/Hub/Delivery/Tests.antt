-- ===== src/Hub/Delivery/Tests.antt =====
-- A delivery whose first answer is lost.
use pkgwatch.Base.{ℕ, ◌-◌, ◌*◌, true, false, List, [], ◌∷◌, ◌≡◌, refl, All, arith}
use pkgwatch.Base.Text.{codes}
use pkgwatch.Fleet.{sync_level_full}
use pkgwatch.Fleet.Queue.{Row, queue_depth, queued_events, record_event}
use pkgwatch.Hub.Store.Ingest.{IsOnce}
use pkgwatch.Hub.Sync.{handle_sync}
use pkgwatch.Hub.Samples.{event, device, request, tables, never}
use pkgwatch.Hub.Delivery.{World, Reach, here, next, recording, reading, arriving, start}
use pkgwatch.Hub.Delivery.Invariant.{IsGenuine, IsAccounted}
use pkgwatch.Hub.Delivery.Safe.{delivery_safe}
use pkgwatch.Hub.Delivery.Drain.{acknowledged, queue_depth-acknowledged}

abbrev first : World ℕ
first = start tables

abbrev recorded : World ℕ
recorded = record first {
  recorded = event 1 ∷ [];
  rows = record { event = event 1; synced = false } ∷ [];
}

abbrev ready : World ℕ
ready = record recorded { batch = event 1 ∷ [] }

-- The push arrives and its answer is lost.
abbrev arrived : World ℕ
arrived = record ready {
  tables =
      (handle_sync (device (codes "A") sync_level_full) (request (event 1 ∷ [])) 9 never
        ready.tables).1;
}

to_recorded : Reach (codes "A") first recorded
unfolding record_event
to_recorded = next here (recording (event 1) (omega arith))

to_ready : Reach (codes "A") first ready
unfolding queued_events
to_ready = next to_recorded reading

to_arrived : Reach (codes "A") first arrived
to_arrived =
    next to_ready
      (arriving (device (codes "A") sync_level_full) (request (event 1 ∷ [])) 9 never refl refl)

delivery_safe_example :
    All (IsAccounted (codes "A") arrived) arrived.recorded
    × All (IsGenuine (codes "A") arrived.recorded) arrived.tables.events
    × IsOnce arrived.tables.events
delivery_safe_example = delivery_safe (codes "A") tables arrived to_arrived

abbrev three_rows : List Row
three_rows =
    record { event = event 1; synced = false }
    ∷ record { event = event 2; synced = true }
    ∷ record { event = event 3; synced = false }
    ∷ []

queue_depth-acknowledged_example :
    queue_depth (acknowledged 1 2 three_rows) ≡ queue_depth three_rows - 2 * 1
queue_depth-acknowledged_example =
    queue_depth-acknowledged 1 2 three_rows (omega arith) (ground arith) (omega arith)
