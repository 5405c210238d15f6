-- ===== src/Fleet/Queue.antt =====
-- internal/repo/syncqueue.go: the agent's events on their way to the hub. The table `events` is the
-- list of its rows in the order of their numbers, which AUTOINCREMENT gives out rising.
pub mod Trim
mod Tests
use pkgwatch.Base.{
  ℕ, zero, suc, ◌+◌, ◌-◌, Ordering, lt, eq, gt, Bool, true, false, ◌&&◌, ◌||◌, not, leb, ltb, ◌==◌,
  List, [], ◌∷◌, ◌++◌, if◌then◌else◌, map, any, compare, lex,
}
use pkgwatch.Base.Text.{Text, codes, text_eq}
use pkgwatch.Base.Select.{filter, take, count, sort}
use pkgwatch.Fleet.{Event}

-- A row of `events`.
pub record Row : Type 0 where
  pub event : Event
  pub synced : Bool

abbrev pub event_queue_cap : ℕ
event_queue_cap = 50000

abbrev pub is_queued : Row → Bool
is_queued r = not r.synced

-- `QueuedEvents`, for a limit that is positive; a limit of 0 stands for those that are not.
unfoldable pub queued_events : ℕ → List Row → List Event
queued_events limit rows =
    map (λ r. r.event) (take (if limit == 0 then 1000 else limit) (filter is_queued rows))

-- The update of `MarkEventsSynced` on a row.
abbrev pub mark_through : ℕ → Row → Row
mark_through through r =
    if is_queued r && leb r.event.agent_id through then record r { synced = true } else r

-- `MarkEventsSynced`
unfoldable pub mark_events_synced : ℕ → List Row → List Row
mark_events_synced through rows = if through == 0 then rows else map (mark_through through) rows

-- `QueueDepth`
unfoldable pub queue_depth : List Row → ℕ
queue_depth rows = count is_queued rows

-- The `CASE` on the severity.
unfoldable pub importance : Text → ℕ
unfolding text_eq
importance severity =
    if text_eq severity (codes "critical")
    then 3
    else if text_eq severity (codes "high")
    then 2
    else if text_eq severity (codes "medium")
    then 1
    else 0

-- `ORDER BY CASE … ASC, id ASC`
unfoldable pub trims_before : Row → Row → Bool
trims_before r s =
    elim (lex (compare (importance r.event.severity) (importance s.event.severity))
      (compare r.event.agent_id s.event.agent_id)) [ Ordering.gt ↦ false | _ ↦ true ]

-- `id IN (…)`
abbrev pub has_id : List Row → Row → Bool
has_id chosen r = any (λ s. s.event.agent_id == r.event.agent_id) chosen

-- The rows that `TrimQueue` gives up.
unfoldable pub given_up : ℕ → List Row → List Row
unfolding queue_depth trims_before
given_up cap rows = take (queue_depth rows - cap) (sort trims_before (filter is_queued rows))

abbrev pub give_up : List Row → Row → Row
give_up chosen r = if has_id chosen r then record r { synced = true } else r

-- `TrimQueue`, the table.
unfoldable pub trim_queue : ℕ → List Row → List Row
unfolding queue_depth given_up
trim_queue cap rows =
    if (cap == 0) || leb (queue_depth rows) cap
    then rows
    else map (give_up (given_up cap rows)) rows

-- A row that is written by `RecordEvent`.
unfoldable pub record_event : Event → List Row → List Row
record_event e rows = rows ++ record { event = e; synced = false } ∷ []

-- `Prune` of internal/repo/retention.go, the events: those before the cut go, of an agent with a hub
-- only those that are synced.
unfoldable pub prune_events : ℕ → Bool → List Row → List Row
prune_events cutoff hub_configured rows =
    filter (λ r. not (ltb r.event.at cutoff && (not hub_configured || r.synced))) rows
