-- ===== src/Fleet/Queue/Tests.antt =====
-- Runs of the queue on small tables.
use pkgwatch.Base.{ℕ, Bool, true, false, leb, List, [], ◌∷◌, if◌then◌else◌, ◌≡◌, refl, All, arith}
use pkgwatch.Base.Text.{Text, codes}
use pkgwatch.Fleet.Queue.{
  Row, mark_events_synced, queue_depth, given_up, importance, trim_queue, prune_events,
}
use pkgwatch.Fleet.Queue.Trim.{IsKeyed, IsLeast, trim_queue_lem}

abbrev row : ℕ → Text → Bool → Row
row id severity synced = record {
  event = record {
    agent_id = id;
    at = id;
    kind = codes "scan";
    severity = severity;
    purl = [];
    advisory_id = [];
    detail = [];
  };
  synced = synced;
}

abbrev rows : List Row
rows =
    row 1 (codes "critical") false
    ∷ row 2 [] true
    ∷ row 3 [] false
    ∷ row 4 (codes "medium") false
    ∷ []

rows-IsKeyed : IsKeyed rows
rows-IsKeyed i = ground arith

-- The row without a severity goes first, then the medium one.
given_up_two : given_up 1 rows ≡ row 3 [] false ∷ row 4 (codes "medium") false ∷ []
unfolding given_up importance
given_up_two = refl

trimmed_depth : queue_depth (trim_queue 1 rows) ≡ 1
unfolding trim_queue importance
trimmed_depth = refl

marked : queue_depth (mark_events_synced 3 rows) ≡ 1
unfolding mark_events_synced queue_depth
marked = refl

pruned :
    prune_events 9 true rows
    ≡ row 1 (codes "critical") false ∷ row 3 [] false ∷ row 4 (codes "medium") false ∷ []
unfolding prune_events
pruned = refl

trim_queue_lem_example :
    (queue_depth (trim_queue 1 rows) ≡ (if leb (queue_depth rows) 1 then queue_depth rows else 1))
    × All (IsLeast 1 rows) (given_up 1 rows)
trim_queue_lem_example = trim_queue_lem 1 rows (omega arith) rows-IsKeyed
