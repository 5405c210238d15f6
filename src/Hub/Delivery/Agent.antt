-- ===== src/Hub/Delivery/Agent.antt =====
-- The agent's steps keep the state of the delivery.
use pkgwatch.Base.{
  ℕ, ◌<◌, Bool, true, false, ◌||◌, leb, ltb, ◌==◌, List, [], ◌∷◌, ◌++◌, if◌then◌else◌, map, ◌≡◌,
  sym, ◌∙◌, ap, inl, inr, All, All-append, any-append, arith, Bool-cases,
}
use mathlib.Core.Path.{subst}
use pkgwatch.Base.Text.{Text}
use pkgwatch.Base.Select.Sorted.{All-imp, All-take, filter-All}
use pkgwatch.Fleet.{Event}
use pkgwatch.Fleet.Queue.{
  Row, is_queued, queued_events, mark_events_synced, given_up, give_up, trim_queue, record_event,
  queue_depth, prune_events,
}
use pkgwatch.Hub.Store.Ingest.{top}
use pkgwatch.Agent.{event_batch_limit}
use pkgwatch.Hub.Delivery.{World, made_up, cut}
use pkgwatch.Hub.Delivery.Waiting.{
  is_waiting, is_waiting-record_event, is_waiting-mark_events_synced, is_waiting-trim_queue,
  is_waiting-prune_events, IsRising, map-IsRising, filter-IsRising, record_event-IsRising,
  queued_events-covers, mark_events_synced_rows,
}
use pkgwatch.Hub.Delivery.Invariant.{
  IsRecorded, IsAccounted, Invariant, IsRecorded-append, IsRecorded-last, IsRecorded-top,
  top_recorded, top-append,
}

map-IsRecorded :
    (recorded : List Event) (f : Row → Row)
    → ((r : Row) → (f r).event ≡ r.event)
    → (rows : List Row) → All (λ r. IsRecorded recorded r.event) rows
    → All (λ r. IsRecorded recorded r.event) (map f rows)
map-IsRecorded recorded f keeps [] h = tt
map-IsRecorded recorded f keeps (r ∷ rows) h =
    (subst (IsRecorded recorded) (sym (keeps r)) h.0, map-IsRecorded recorded f keeps rows h.1)

events-IsRecorded :
    (recorded : List Event) (rows : List Row)
    → All (λ r. IsRecorded recorded r.event) rows
    → All (IsRecorded recorded) (map (λ r. r.event) rows)
events-IsRecorded recorded [] h = tt
events-IsRecorded recorded (r ∷ rows) h = (h.0, events-IsRecorded recorded rows h.1)

queued_events-IsRecorded :
    (recorded : List Event) (limit : ℕ) (rows : List Row)
    → All (λ r. IsRecorded recorded r.event) rows
    → All (IsRecorded recorded) (queued_events limit rows)
unfolding queued_events
queued_events-IsRecorded recorded limit rows h =
    events-IsRecorded recorded _ (All-take _ _ _ (filter-All _ is_queued rows h))

give_up_event : (chosen : List Row) (r : Row) → (give_up chosen r).event ≡ r.event
give_up_event chosen r = ground arith

-- The rows after a trim are the rows with other flags.
trim_queue_rows :
    (P : List Row → Type 0) (cap : ℕ) (rows : List Row)
    → P rows
    → ((f : Row → Row) → ((r : Row) → (f r).event ≡ r.event) → P (map f rows))
    → P (trim_queue cap rows)
unfolding trim_queue
trim_queue_rows P cap rows same mapped = go ((cap == 0) || leb (queue_depth rows) cap)
  where
    go : (b : Bool) → P (if b then rows else map (give_up (given_up cap rows)) rows)
    go true = same
    go false = mapped _ (give_up_event (given_up cap rows))

record_event-IsRecorded :
    (recorded : List Event) (e : Event) (rows : List Row)
    → All (λ r. IsRecorded recorded r.event) rows
    → All (λ r. IsRecorded (recorded ++ e ∷ []) r.event) (record_event e rows)
unfolding record_event
record_event-IsRecorded recorded e rows h =
    All-append _ rows _
      (All-imp _ (λ r. IsRecorded (recorded ++ e ∷ []) r.event)
        (λ r k. IsRecorded-append recorded _ r.event k) rows h)
      (IsRecorded-last recorded e, tt)

module _ {Num : Type 0} (device : Text) (w : World Num) (h : Invariant device w) where
  pub recording-Invariant :
      (e : Event)
      → top w.recorded < e.agent_id
      → Invariant device
          (record w { recorded = w.recorded ++ e ∷ []; rows = record_event e w.rows })
  recording-Invariant e new = record {
    accounted = (
      All-append _ w.recorded _ h.accounted.0 (omega arith, tt),
      All-append _ w.recorded _ (All-imp _ _ (λ x a. still x a) w.recorded h.accounted.1)
          (inl (ground (arith, is_waiting-record_event e.agent_id e w.rows)), tt),
    );
    genuine =
        All-imp _ _
          (λ r g. elim g [ inl o ↦ inl o | inr k ↦ inr (IsRecorded-append w.recorded _ r.row k) ])
          w.tables.events h.genuine;
    once = h.once;
    rising =
        record_event-IsRising e w.rows
          (All-imp _ _ (λ r k. omega (arith, new, IsRecorded-top w.recorded r.event k)) w.rows
            h.rows_recorded)
          h.rising;
    rows_recorded = recorded_rows;
    batch_recorded =
        All-imp _ _ (λ x k. IsRecorded-append w.recorded _ x k) w.batch h.batch_recorded;
    batch_covers = λ i pos waits below.
        h.batch_covers i pos
          (old i waits
            (omega (arith, top_recorded w.recorded w.batch h.batch_recorded, new, below)))
          below;
    through_recorded = omega (arith, top-append w.recorded e new, h.through_recorded);
    through_held = λ i pos waits below.
        h.through_held i pos (old i waits (omega (arith, h.through_recorded, new, below))) below;
  }
    where
      old :
          (i : ℕ)
          → is_waiting i (record_event e w.rows) ≡ true
          → i < e.agent_id
          → is_waiting i w.rows ≡ true
      old i waits less = ground (arith, is_waiting-record_event i e w.rows)

      still :
          (x : Event)
          → IsAccounted device w x
          → IsAccounted device
              (record w { recorded = w.recorded ++ e ∷ []; rows = record_event e w.rows })
              x
      still x (inl waits) = inl (ground (arith, is_waiting-record_event x.agent_id e w.rows))
      still x (inr rest) = inr rest

      recorded_rows : All (λ r. IsRecorded (w.recorded ++ e ∷ []) r.event) (record_event e w.rows)
      recorded_rows = record_event-IsRecorded w.recorded e w.rows h.rows_recorded

  -- The table changes, and no number comes to wait or gets lost.
  pub rows-Invariant :
      (rows : List Row) (trimmed : List ℕ)
      → IsRising rows
      → All (λ r. IsRecorded w.recorded r.event) rows
      → ((i : ℕ) → is_waiting i rows ≡ true → is_waiting i w.rows ≡ true)
      → ((e : Event)
          → 0 < e.agent_id
          → IsAccounted device w e
          → IsAccounted device (record w { rows = rows; trimmed = trimmed }) e)
      → Invariant device (record w { rows = rows; trimmed = trimmed })
  rows-Invariant rows trimmed rising recorded shrinks keeps = record {
    accounted = (h.accounted.0, both w.recorded h.accounted.0 h.accounted.1);
    genuine = h.genuine;
    once = h.once;
    rising = rising;
    rows_recorded = recorded;
    batch_recorded = h.batch_recorded;
    batch_covers = λ i pos waits. h.batch_covers i pos (shrinks i waits);
    through_recorded = h.through_recorded;
    through_held = λ i pos waits. h.through_held i pos (shrinks i waits);
  }
    where
      both :
          (es : List Event)
          → All (λ e. 0 < e.agent_id) es
          → All (IsAccounted device w) es
          → All (IsAccounted device (record w { rows = rows; trimmed = trimmed })) es
      both [] p a = tt
      both (e ∷ es) p a = (keeps e p.0 a.0, both es p.1 a.1)

  pub marking-Invariant : Invariant device (record w { rows = mark_events_synced w.through w.rows })
  marking-Invariant =
      rows-Invariant (mark_events_synced w.through w.rows) w.trimmed
        (mark_events_synced_rows IsRising w.through w.rows h.rising
          (λ f keeps. map-IsRising f w.rows (λ r. ap (λ e. e.agent_id) (keeps r)) h.rising))
        (mark_events_synced_rows (λ rs. All (λ r. IsRecorded w.recorded r.event) rs) w.through
          w.rows h.rows_recorded
          (λ f keeps. map-IsRecorded w.recorded f keeps w.rows h.rows_recorded))
        (λ i waits. ground (arith, is_waiting-mark_events_synced i w.through w.rows))
        (λ e pos a. elim a [
          | inl waits ↦ elim (Bool-cases ((w.through == 0) || ltb w.through e.agent_id)) [
            | inl stays ↦
                inl (ground (arith, is_waiting-mark_events_synced e.agent_id w.through w.rows))
            | inr marked ↦ inr (inl (h.through_held e.agent_id pos waits (ground arith)))
          ]
          | inr rest ↦ inr rest
        ])

  pub trimming-Invariant : (cap : ℕ) → Invariant device (cut cap w)
  trimming-Invariant cap =
      rows-Invariant (trim_queue cap w.rows)
        (map (λ r. r.event.agent_id) (given_up cap w.rows) ++ w.trimmed)
        (trim_queue_rows IsRising cap w.rows h.rising
          (λ f keeps. map-IsRising f w.rows (λ r. ap (λ e. e.agent_id) (keeps r)) h.rising))
        (trim_queue_rows (λ rs. All (λ r. IsRecorded w.recorded r.event) rs) cap w.rows
          h.rows_recorded (λ f keeps. map-IsRecorded w.recorded f keeps w.rows h.rows_recorded))
        (λ i waits. (is_waiting-trim_queue i cap w.rows).0 waits)
        (λ e pos a. elim a [
          | inl waits ↦ elim (Bool-cases (is_waiting e.agent_id (trim_queue cap w.rows))) [
            | inl stays ↦ inl stays
            | inr gone ↦ inr (
                inr (
                  ground (
                    arith,
                    any-append (λ j. j == e.agent_id)
                        (map (λ r. r.event.agent_id) (given_up cap w.rows)) w.trimmed,
                    (is_waiting-trim_queue e.agent_id cap w.rows).1 waits,
                  )))
          ]
          | inr (inl held) ↦ inr (inl held)
          | inr (inr lost) ↦ inr (
              inr (
                ground (
                  arith,
                  any-append (λ j. j == e.agent_id)
                      (map (λ r. r.event.agent_id) (given_up cap w.rows)) w.trimmed,
                )))
        ])

  pub pruning-Invariant :
      (cutoff : ℕ) → Invariant device (record w { rows = prune_events cutoff true w.rows })
  unfolding prune_events
  pruning-Invariant cutoff =
      rows-Invariant (prune_events cutoff true w.rows) w.trimmed (filter-IsRising _ w.rows h.rising)
        (filter-All _ _ w.rows h.rows_recorded)
        (λ i waits. sym (is_waiting-prune_events i cutoff w.rows) ∙ waits)
        (λ e pos a. ground (arith, is_waiting-prune_events e.agent_id cutoff w.rows))

  pub reading-Invariant : Invariant device (made_up w)
  reading-Invariant = record {
    accounted = h.accounted;
    genuine = h.genuine;
    once = h.once;
    rising = h.rising;
    rows_recorded = h.rows_recorded;
    batch_recorded = queued_events-IsRecorded w.recorded event_batch_limit w.rows h.rows_recorded;
    batch_covers = λ i pos. queued_events-covers i event_batch_limit w.rows pos h.rising;
    through_recorded = omega arith;
    through_held = λ i pos waits below. absurd (omega arith);
  }
