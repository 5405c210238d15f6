-- ===== src/Hub/Delivery/Invariant.antt =====
-- No event is lost on its way to the hub, stored twice or made up.
use pkgwatch.Base.{
  ℕ, ◌≤◌, ◌<◌, true, false, ◌==◌, List, [], ◌∷◌, ◌++◌, any, ◌≡◌, refl, ap, ◌⊎◌, inl, inr, All, Any,
  arith,
}
use pkgwatch.Base.Text.{Text, text_eq}
use pkgwatch.Fleet.{Event}
use pkgwatch.Hub.{Owned}
use pkgwatch.Hub.Store.{holds_event}
use pkgwatch.Hub.Store.Ingest.{has_event, top, IsOnce}
use pkgwatch.Hub.Delivery.{World}
use pkgwatch.Hub.Delivery.Waiting.{is_waiting, IsRising}

-- The event was recorded.
abbrev pub IsRecorded : List Event → Event → Type 0
IsRecorded recorded e = Any (λ x. x ≡ e) recorded

-- What the hub holds of the device was recorded by it.
abbrev pub IsGenuine : Text → List Event → Owned Event → Type 0
IsGenuine device recorded r = (text_eq r.device_id device ≡ false) ⊎ IsRecorded recorded r.row

module _ {Num : Type 0} (device : Text) where
  -- Where the event is: with the agent, with the hub, or trimmed.
  abbrev pub IsAccounted : World Num → Event → Type 0
  IsAccounted w e =
      (is_waiting e.agent_id w.rows ≡ true)
      ⊎ (holds_event device e.agent_id w.tables.events ≡ true)
      ⊎ (any (λ j. j == e.agent_id) w.trimmed ≡ true)

  -- The state of the delivery.
  pub record Invariant (w : World Num) : Type 0 where
    pub accounted : All (λ e. 0 < e.agent_id) w.recorded × All (IsAccounted w) w.recorded
    pub genuine : All (IsGenuine device w.recorded) w.tables.events
    pub once : IsOnce w.tables.events
    pub rising : IsRising w.rows
    pub rows_recorded : All (λ r. IsRecorded w.recorded r.event) w.rows
    pub batch_recorded : All (IsRecorded w.recorded) w.batch
    pub batch_covers :
        (i : ℕ) → 0 < i → is_waiting i w.rows ≡ true → i ≤ top w.batch → has_event i w.batch ≡ true
    pub through_recorded : w.through ≤ top w.recorded
    pub through_held :
        (i : ℕ)
        → 0 < i
        → is_waiting i w.rows ≡ true
        → i ≤ w.through
        → holds_event device i w.tables.events ≡ true

pub IsRecorded-append :
    (recorded rest : List Event) (e : Event)
    → IsRecorded recorded e
    → IsRecorded (recorded ++ rest) e
IsRecorded-append [] rest e h = absurd h
IsRecorded-append (x ∷ recorded) rest e (inl h) = inl h
IsRecorded-append (x ∷ recorded) rest e (inr h) = inr (IsRecorded-append recorded rest e h)

pub IsRecorded-last : (recorded : List Event) (e : Event) → IsRecorded (recorded ++ e ∷ []) e
IsRecorded-last [] e = inl refl
IsRecorded-last (x ∷ recorded) e = inr (IsRecorded-last recorded e)

pub IsRecorded-top :
    (recorded : List Event) (e : Event) → IsRecorded recorded e → e.agent_id ≤ top recorded
IsRecorded-top [] e h = absurd h
IsRecorded-top (x ∷ recorded) e (inl h) = ground (arith, ap (λ y. y.agent_id) h)
IsRecorded-top (x ∷ recorded) e (inr h) = ground (arith, IsRecorded-top recorded e h)

pub top_recorded :
    (recorded batch : List Event) → All (IsRecorded recorded) batch → top batch ≤ top recorded
top_recorded recorded [] h = omega arith
top_recorded recorded (e ∷ batch) h =
    ground (arith, top_recorded recorded batch h.1, IsRecorded-top recorded e h.0)

pub top-append :
    (recorded : List Event) (e : Event)
    → top recorded < e.agent_id
    → top (recorded ++ e ∷ []) ≡ e.agent_id
top-append [] e h = ground arith
top-append (x ∷ recorded) e h = ground (arith, top-append recorded e)
