-- ===== src/Hub/Delivery/Waiting.antt =====
-- Which numbers wait in the agent's table, after each operation on it.
use pkgwatch.Base.{
  ℕ, zero, suc, ◌≤◌, ◌<◌, Bool, true, false, ◌&&◌, ◌||◌, not, ltb, ◌==◌, List, [], ◌∷◌,
  if◌then◌else◌, map, any, ◌≡◌, refl, sym, ◌∙◌, inl, inr, All, arith, Bool-cases, All-append,
}
use pkgwatch.Base.Select.{filter, take}
use pkgwatch.Base.Select.Sorted.{IsSorted, filter-All}
use pkgwatch.Fleet.{Event}
use pkgwatch.Fleet.Queue.{
  Row, is_queued, queued_events, mark_through, mark_events_synced, has_id, given_up, give_up,
  trim_queue, record_event, prune_events,
}
use pkgwatch.Hub.Store.Ingest.{has_event, top}

-- The event with the number is queued.
abbrev pub is_waiting : ℕ → List Row → Bool
is_waiting i rows = any (λ r. is_queued r && (r.event.agent_id == i)) rows

pub is_waiting-record_event :
    (i : ℕ) (e : Event) (rows : List Row)
    → is_waiting i (record_event e rows) ≡ (is_waiting i rows || (e.agent_id == i))
unfolding record_event
is_waiting-record_event i e [] = ground arith
is_waiting-record_event i e (r ∷ rows) = ground (arith, is_waiting-record_event i e rows)

is_waiting-mark_through :
    (i through : ℕ) (rows : List Row)
    → is_waiting i (map (mark_through through) rows) ≡ (is_waiting i rows && ltb through i)
is_waiting-mark_through i through [] = refl
is_waiting-mark_through i through (r ∷ rows) =
    ground (arith, is_waiting-mark_through i through rows)

-- What the agent marks is what is numbered up to the acknowledgement.
pub is_waiting-mark_events_synced :
    (i through : ℕ) (rows : List Row)
    → is_waiting i (mark_events_synced through rows)
      ≡ (is_waiting i rows && ((through == 0) || ltb through i))
unfolding mark_events_synced
is_waiting-mark_events_synced i through rows =
    ground (arith, is_waiting-mark_through i through rows)

has_id-number :
    (chosen : List Row) (r : Row)
    → has_id chosen r ≡ any (λ j. j == r.event.agent_id) (map (λ s. s.event.agent_id) chosen)
has_id-number [] r = refl
has_id-number (s ∷ chosen) r = ground (arith, has_id-number chosen r)

is_waiting-give_up :
    (i : ℕ) (chosen rows : List Row)
    → is_waiting i (map (give_up chosen) rows)
      ≡ (is_waiting i rows && not (any (λ j. j == i) (map (λ r. r.event.agent_id) chosen)))
is_waiting-give_up i chosen [] = refl
is_waiting-give_up i chosen (r ∷ rows) =
    ground (arith, is_waiting-give_up i chosen rows, has_id-number chosen r)

-- A trim loses no number but those of the rows that it gives up.
pub is_waiting-trim_queue :
    (i cap : ℕ) (rows : List Row)
    → (is_waiting i (trim_queue cap rows) ≡ true → is_waiting i rows ≡ true)
      × (is_waiting i rows ≡ true
          → (is_waiting i (trim_queue cap rows)
              || any (λ j. j == i) (map (λ r. r.event.agent_id) (given_up cap rows)))
            ≡ true)
unfolding trim_queue
is_waiting-trim_queue i cap rows = ground (arith, is_waiting-give_up i (given_up cap rows) rows)

-- With a hub, age removes nothing that waits.
pub is_waiting-prune_events :
    (i cutoff : ℕ) (rows : List Row)
    → is_waiting i (prune_events cutoff true rows) ≡ is_waiting i rows
unfolding prune_events
is_waiting-prune_events i cutoff [] = refl
is_waiting-prune_events i cutoff (r ∷ rows) = ground (arith, is_waiting-prune_events i cutoff rows)

-- The numbers rise along the table.
abbrev pub precedes : Row → Row → Bool
precedes r s = ltb r.event.agent_id s.event.agent_id

abbrev pub IsRising : List Row → Type 0
IsRising rows = IsSorted precedes rows

pub map-IsRising :
    (f : Row → Row) (rows : List Row)
    → ((r : Row) → (f r).event.agent_id ≡ r.event.agent_id)
    → IsRising rows
    → IsRising (map f rows)
map-IsRising f [] keeps h = tt
map-IsRising f (r ∷ rows) keeps h = (behind rows h.0, map-IsRising f rows keeps h.1)
  where
    behind :
        (rs : List Row)
        → All (λ s. precedes r s ≡ true) rs
        → All (λ s. precedes (f r) s ≡ true) (map f rs)
    behind [] k = tt
    behind (s ∷ rs) k = (ground (arith, keeps r, keeps s, k.0), behind rs k.1)

pub filter-IsRising : (p : Row → Bool) (rows : List Row) → IsRising rows → IsRising (filter p rows)
filter-IsRising p [] h = tt
filter-IsRising p (r ∷ rows) h = elim (Bool-cases (p r)) [
  | inl kept ↦ rw kept (filter-All _ p rows h.0, filter-IsRising p rows h.1)
  | inr dropped ↦ rw dropped (filter-IsRising p rows h.1)
]

pub record_event-IsRising :
    (e : Event) (rows : List Row)
    → All (λ r. r.event.agent_id < e.agent_id) rows
    → IsRising rows
    → IsRising (record_event e rows)
unfolding record_event
record_event-IsRising e [] below h = (tt, tt)
record_event-IsRising e (r ∷ rows) below h =
    (All-append _ rows _ h.0 (ground arith, tt), record_event-IsRising e rows below.1 h.1)

is_waiting-filter :
    (i : ℕ) (rows : List Row)
    → is_waiting i rows ≡ any (λ r. r.event.agent_id == i) (filter is_queued rows)
is_waiting-filter i [] = refl
is_waiting-filter i (r ∷ rows) = ground (arith, is_waiting-filter i rows)

precedes-any :
    (i : ℕ) (r : Row) (rows : List Row)
    → All (λ s. precedes r s ≡ true) rows
    → any (λ s. s.event.agent_id == i) rows ≡ true
    → r.event.agent_id < i
precedes-any i r [] h k = absurd (cc)
precedes-any i r (s ∷ rows) h k = ground (arith, precedes-any i r rows h.1, h.0)

take-covers :
    (i n : ℕ) (rows : List Row)
    → 0 < i
    → IsRising rows
    → any (λ r. r.event.agent_id == i) rows ≡ true
    → i ≤ top (map (λ r. r.event) (take n rows))
    → has_event i (map (λ r. r.event) (take n rows)) ≡ true
take-covers i zero rows pos h k below = absurd (omega arith)
take-covers i (suc n) [] pos h k below = absurd (omega arith)
take-covers i (suc n) (r ∷ rows) pos h k below =
    ground (arith, take-covers i n rows pos h.1, precedes-any i r rows h.0)

-- Whatever waits and is numbered no higher than the batch is in the batch.
pub queued_events-covers :
    (i limit : ℕ) (rows : List Row)
    → 0 < i
    → IsRising rows
    → is_waiting i rows ≡ true
    → i ≤ top (queued_events limit rows)
    → has_event i (queued_events limit rows) ≡ true
unfolding queued_events
queued_events-covers i limit rows pos h w =
    take-covers i _ (filter is_queued rows) pos (filter-IsRising is_queued rows h)
      (sym (is_waiting-filter i rows) ∙ w)

mark_through_event : (through : ℕ) (r : Row) → (mark_through through r).event ≡ r.event
mark_through_event through r = ground arith

-- The rows after a mark are the rows with other flags.
pub mark_events_synced_rows :
    (P : List Row → Type 0) (through : ℕ) (rows : List Row)
    → P rows
    → ((f : Row → Row) → ((r : Row) → (f r).event ≡ r.event) → P (map f rows))
    → P (mark_events_synced through rows)
unfolding mark_events_synced
mark_events_synced_rows P through rows same mapped = go (through == 0)
  where
    go : (b : Bool) → P (if b then rows else map (mark_through through) rows)
    go true = same
    go false = mapped _ (mark_through_event through)
