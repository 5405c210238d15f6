-- ===== src/Hub/Delivery/Drain.antt =====
-- How the queue of internal/repo/syncqueue.go empties, where the hub acknowledges what it is sent.
use pkgwatch.Base.{
  ℕ, zero, suc, ◌-◌, ◌*◌, ◌≤◌, ◌<◌, Bool, true, false, ltb, ◌==◌, List, [], ◌∷◌, if◌then◌else◌, map,
  ◌≡◌, refl, sym, ◌∙◌, ap, arith, All, length, inl, inr, Bool-cases,
}
use pkgwatch.Base.Select.{filter, take, drop, length-filter, length-drop}
use pkgwatch.Base.Select.Sorted.{All-imp, filter-All}
use pkgwatch.Fleet.Queue.{
  Row, is_queued, queued_events, mark_through, mark_events_synced, queue_depth,
}
use pkgwatch.Hub.Store.Ingest.{top}
use pkgwatch.Hub.Delivery.Waiting.{
  precedes, IsRising, map-IsRising, filter-IsRising, mark_events_synced_rows,
}

-- What is queued after a mark is what was queued behind it.
filter-mark_through :
    (through : ℕ) (rows : List Row)
    → filter is_queued (map (mark_through through) rows)
      ≡ filter (λ r. ltb through r.event.agent_id) (filter is_queued rows)
filter-mark_through through [] = refl
filter-mark_through through (r ∷ rows) = ground (arith, filter-mark_through through rows)

filter_kept : (p : Row → Bool) (rows : List Row) → All (λ r. p r ≡ true) rows → filter p rows ≡ rows
filter_kept p [] h = refl
filter_kept p (r ∷ rows) h = ground (arith, filter_kept p rows h.1)

-- A rising list is cut at the highest number of its first part, here over a lower bound.
filter-top :
    (n m v : ℕ) (rows : List Row)
    → IsRising rows
    → All (λ r. m < r.event.agent_id) rows
    → v ≡ (let high = top (map (λ r. r.event) (take n rows)) in if ltb m high then high else m)
    → filter (λ r. ltb v r.event.agent_id) rows ≡ drop n rows
filter-top zero m v rows h b e =
    filter_kept _ rows (All-imp (λ r. m < r.event.agent_id) _ (λ r k. ground arith) rows b)
filter-top (suc n) m v [] h b e = refl
filter-top (suc n) m v (r ∷ rows) h b e =
    first r rows v (ground arith)
    ∙ filter-top n r.event.agent_id v rows h.1
        (All-imp (λ s. precedes r s ≡ true) _ (λ s k. ground arith) rows h.0) (ground arith)
  where
    first :
        (r : Row) (rows : List Row) (v : ℕ)
        → r.event.agent_id ≤ v
        → filter (λ s. ltb v s.event.agent_id) (r ∷ rows)
          ≡ filter (λ s. ltb v s.event.agent_id) rows
    first r rows v k = ground arith

max_zero : (v : ℕ) → v ≡ (if ltb 0 v then v else 0)
max_zero v = ground arith

mark_none : (v : ℕ) (rows : List Row) → (v == 0) ≡ true → mark_events_synced v rows ≡ rows
unfolding mark_events_synced
mark_none v rows h = ground arith

mark_some :
    (v : ℕ) (rows : List Row)
    → (v == 0) ≡ false
    → mark_events_synced v rows ≡ map (mark_through v) rows
unfolding mark_events_synced
mark_some v rows h = ground arith

map-positive :
    (f : Row → Row) (rows : List Row)
    → ((r : Row) → (f r).event ≡ r.event)
    → All (λ r. 0 < r.event.agent_id) rows
    → All (λ r. 0 < r.event.agent_id) (map f rows)
map-positive f [] keeps h = tt
map-positive f (r ∷ rows) keeps h =
    (ground (arith, ap (λ e. e.agent_id) (keeps r), h.0), map-positive f rows keeps h.1)

rest_of : (n limit a : ℕ) → a - limit - n * limit ≡ a - suc n * limit
rest_of n limit a = omega arith

-- One acknowledged batch takes the batch off the queue, whose numbers rise and are positive.
filter-acknowledged :
    (limit : ℕ) (rows : List Row)
    → IsRising rows
    → All (λ r. 0 < r.event.agent_id) rows
    → filter is_queued (mark_events_synced (top (queued_events limit rows)) rows)
      ≡ drop (if limit == 0 then 1000 else limit) (filter is_queued rows)
unfolding mark_events_synced queued_events
filter-acknowledged limit rows h b = elim (Bool-cases (top (queued_events limit rows) == 0)) [
  | inl none_sent ↦
      ap (filter is_queued) (mark_none (top (queued_events limit rows)) rows none_sent)
      ∙ sym (
          filter_kept _ (filter is_queued rows) (
            All-imp (λ r. 0 < r.event.agent_id) _ (λ r k. ground arith) (filter is_queued rows)
              (filter-All _ is_queued rows b)))
      ∙ at_top
  | inr sent ↦
      ap (filter is_queued) (mark_some (top (queued_events limit rows)) rows sent)
      ∙ filter-mark_through (top (queued_events limit rows)) rows
      ∙ at_top
]
  where
    at_top :
        filter (λ r. ltb (top (queued_events limit rows)) r.event.agent_id) (filter is_queued rows)
        ≡ drop (if limit == 0 then 1000 else limit) (filter is_queued rows)
    at_top =
        filter-top _ 0 (top (queued_events limit rows)) (filter is_queued rows)
          (filter-IsRising is_queued rows h) (filter-All _ is_queued rows b) (max_zero _)

one :
    (limit : ℕ) (rows : List Row)
    → 0 < limit
    → IsRising rows
    → All (λ r. 0 < r.event.agent_id) rows
    → queue_depth (mark_events_synced (top (queued_events limit rows)) rows)
      ≡ queue_depth rows - limit
unfolding queue_depth
one limit rows l h b = ground (
  arith,
  length-filter is_queued (mark_events_synced (top (queued_events limit rows)) rows),
  ap length (filter-acknowledged limit rows h b),
  length-drop (if limit == 0 then 1000 else limit) (filter is_queued rows),
  length-filter is_queued rows,
)

-- The queue after `n` pushes that the hub acknowledges, in which nothing is recorded.
abbrev pub acknowledged : ℕ → ℕ → List Row → List Row
acknowledged limit zero rows = rows
acknowledged limit (suc n) rows =
    acknowledged limit n (mark_events_synced (top (queued_events limit rows)) rows)

-- Each acknowledged push takes its whole batch off the queue, so that the queue is empty after
-- enough of them: `n` pushes of at most `limit` events leave what there was less `n * limit`. The
-- numbers rise along the table and are positive, and the limit is positive.
pub queue_depth-acknowledged :
    (limit n : ℕ) (rows : List Row)
    → 0 < limit
    → IsRising rows
    → All (λ r. 0 < r.event.agent_id) rows
    → queue_depth (acknowledged limit n rows) ≡ queue_depth rows - n * limit
unfolding queue_depth
queue_depth-acknowledged limit zero rows l h b = omega arith
queue_depth-acknowledged limit (suc n) rows l h b =
    let rows' = mark_events_synced (top (queued_events limit rows)) rows in
    queue_depth-acknowledged limit n rows' l
      (mark_events_synced_rows IsRising _ rows h
        (λ f keeps. map-IsRising f rows (λ r. ap (λ e. e.agent_id) (keeps r)) h))
      (mark_events_synced_rows (λ rs. All (λ r. 0 < r.event.agent_id) rs) _ rows b
        (λ f keeps. map-positive f rows keeps b))
    ∙ ap (λ d. d - n * limit) (one limit rows l h b)
    ∙ rest_of n limit (queue_depth rows)
