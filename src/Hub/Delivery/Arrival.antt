-- ===== src/Hub/Delivery/Arrival.antt =====
-- The steps at the hub keep the state of the delivery.
use pkgwatch.Base.{
  ℕ, Bool, true, false, ◌&&◌, not, List, some, if◌then◌else◌, ◌≡◌, refl, sym, ◌∙◌, ap, ◌⊎◌, inl,
  inr, All, arith, Bool-cases,
}
use mathlib.Core.Path.{subst}
use pkgwatch.Base.Text.{Text, text_eq}
use pkgwatch.Base.Select.Sorted.{All-imp, All-every}
use pkgwatch.Fleet.{Event, SyncRequest, SyncResponse}
use pkgwatch.Hub.{Device, Tables, Owned}
use pkgwatch.Hub.Store.{holds_event, ingest_events}
use pkgwatch.Hub.Store.Ingest.{
  has_event, top, IsOnce, holds_event-ingest_from, holds_event-ingest_from_other, ingest_from-top,
  ingest_from-IsOnce, ingest_from-All,
}
use pkgwatch.Hub.Sync.{Transaction, transact, write_events, handle_sync, no_items, store_events}
use pkgwatch.Hub.Sync.Frame.{handle_sync_view}
use pkgwatch.Hub.Sync.Answer.{handle_sync_answered, snapshot}
use pkgwatch.Hub.Delivery.{World}
use pkgwatch.Hub.Delivery.Invariant.{IsRecorded, IsGenuine, IsAccounted, Invariant, top_recorded}
use pkgwatch.Hub.Devices.{touch_device}
use pkgwatch.Hub.Sync.{
  write_findings, write_packages, write_rotation, write_quarantine, write_credentials, check_in,
  touch,
}

-- A push stores all of its events or none of them.
handle_sync-events :
    {Num : Type 0} (dev : Device) (req : SyncRequest Num) (now : ℕ) (fails : Transaction → Bool)
    (t : Tables Num)
    → ((handle_sync dev req now fails t).1.events ≡ t.events)
      ⊎ ((handle_sync dev req now fails t).1.events
          ≡ (ingest_events dev.id req.events now t.events).1)
unfolding write_events write_findings write_packages write_rotation write_quarantine
    write_credentials check_in touch_device transact
handle_sync-events {Num = Num} dev req now fails t =
    elim (Bool-cases (fails store_events && not (no_items req.events))) [
      | inl failed ↦ inl (
          view
          ∙ stored _
          ∙ ap (λ b. if b then t.events else (ingest_events dev.id req.events now t.events).1)
              failed)
      | inr done ↦ inr (
          view
          ∙ stored _
          ∙ ap (λ b. if b then t.events else (ingest_events dev.id req.events now t.events).1) done)
    ]
  where
    view :
        (handle_sync dev req now fails t).1.events
        ≡ (transact
            (fails store_events && not (no_items req.events))
            (write_events dev req now)
            t).1.events
    view =
        handle_sync_view (λ t. t.events) dev req now fails (inr (λ t. refl)) (inr (λ t. refl))
          (inr (λ t. refl)) (inr (λ t. refl)) (inr (λ t. refl)) (λ b t. ground arith) t

    stored :
        (b : Bool)
        → (transact b (write_events dev req now) t).1.events
          ≡ (if b then t.events else (ingest_events dev.id req.events now t.events).1)
    stored true = refl
    stored false = refl

check_in_events :
    {Num : Type 0} (dev : Device) (req : SyncRequest Num) (now : ℕ) (b : Bool) (t : Tables Num)
    → (check_in dev req now b t).events ≡ t.events
unfolding check_in touch_device
check_in_events dev req now b t = ground arith

-- An answer acknowledges the highest number of the batch, which has been stored.
handle_sync_through :
    {Num : Type 0} (dev : Device) (req : SyncRequest Num) (now : ℕ) (fails : Transaction → Bool)
    (t : Tables Num) (r : SyncResponse)
    → (handle_sync dev req now fails t).0 ≡ some r
    → (r.accepted_through ≡ top req.events)
      × ((handle_sync dev req now fails t).1.events
          ≡ (ingest_events dev.id req.events now t.events).1)
unfolding ingest_events
handle_sync_through dev req now fails t r h =
    let (answered, stored) = handle_sync_answered dev req now fails t r h in
    (
      ground (
        arith,
        ap (λ x. x.accepted_through) answered,
        ingest_from-top dev.id now req.events 0 0 t.events,
      ),
      ap (λ u. u.events) stored
          ∙ check_in_events dev req now (fails touch) (snapshot dev req now t),
    )

module _ {Num : Type 0} (device : Text) (w : World Num) (h : Invariant device w) where
  -- The hub's tables change, and the hub keeps what it holds of the device.
  pub tables-Invariant :
      (tables : Tables Num)
      → ((i : ℕ)
          → holds_event device i w.tables.events ≡ true
          → holds_event device i tables.events ≡ true)
      → All (IsGenuine device w.recorded) tables.events
      → IsOnce tables.events
      → Invariant device (record w { tables = tables })
  tables-Invariant tables keeps genuine once = record {
    accounted = (h.accounted.0, All-imp _ _ (λ e a. still e a) w.recorded h.accounted.1);
    genuine = genuine;
    once = once;
    rising = h.rising;
    rows_recorded = h.rows_recorded;
    batch_recorded = h.batch_recorded;
    batch_covers = h.batch_covers;
    through_recorded = h.through_recorded;
    through_held = λ i pos waits below. keeps i (h.through_held i pos waits below);
  }
    where
      still :
          (e : Event) → IsAccounted device w e → IsAccounted device (record w { tables = tables }) e
      still e (inl waits) = inl waits
      still e (inr (inl held)) = inr (inl (keeps e.agent_id held))
      still e (inr (inr lost)) = inr (inr lost)

  -- What is kept when the events of the hub become these.
  abbrev pub IsKept : List (Owned Event) → Type 0
  IsKept events =
      ((i : ℕ) → holds_event device i w.tables.events ≡ true → holds_event device i events ≡ true)
      × All (IsGenuine device w.recorded) events
      × IsOnce events

  unchanged-IsKept : IsKept w.tables.events
  unchanged-IsKept = (λ i held. held, h.genuine, h.once)

  batch-IsKept :
      (now : ℕ) (batch : List Event)
      → batch ≡ w.batch
      → IsKept (ingest_events device batch now w.tables.events).1
  unfolding ingest_events
  batch-IsKept now batch e = (
    λ i held. ground (arith, holds_event-ingest_from device i now batch 0 0 w.tables.events),
    ingest_from-All (IsGenuine device w.recorded) device now batch 0 0 w.tables.events
        (All-imp _ _ (λ x k. inr k) batch
          (subst (All (IsRecorded w.recorded)) (sym e) h.batch_recorded))
        h.genuine,
    ingest_from-IsOnce device now batch 0 0 w.tables.events h.once,
  )

  batch_holds :
      (i : ℕ) (d : Text) (batch : List Event) (now : ℕ)
      → d ≡ device
      → batch ≡ w.batch
      → has_event i w.batch ≡ true
      → holds_event device i (ingest_events d batch now w.tables.events).1 ≡ true
  unfolding ingest_events
  batch_holds i d batch now same_device e has =
      rw (same_device, e)
        (ground (arith, holds_event-ingest_from device i now w.batch 0 0 w.tables.events))

  other-IsKept :
      (d : Text) (now : ℕ) (events : List Event)
      → text_eq d device ≡ false
      → IsKept (ingest_events d events now w.tables.events).1
  unfolding ingest_events
  other-IsKept d now events e = (
    λ i held. holds_event-ingest_from_other d device i now events 0 0 w.tables.events e ∙ held,
    ingest_from-All (IsGenuine device w.recorded) d now events 0 0 w.tables.events
        (All-every _ (λ x. inl e) events) h.genuine,
    ingest_from-IsOnce d now events 0 0 w.tables.events h.once,
  )

  pub IsKept-Invariant :
      (tables : Tables Num) → IsKept tables.events → Invariant device (record w { tables = tables })
  IsKept-Invariant tables k = tables-Invariant tables k.0 k.1 k.2

  pub administering-Invariant :
      (tables : Tables Num)
      → tables.events ≡ w.tables.events
      → Invariant device (record w { tables = tables })
  administering-Invariant tables e = IsKept-Invariant tables (subst IsKept (sym e) unchanged-IsKept)

  module _ (dev : Device) (req : SyncRequest Num) (now : ℕ) (fails : Transaction → Bool) where
    pushed-Invariant :
        IsKept (ingest_events dev.id req.events now w.tables.events).1
        → Invariant device (record w { tables = (handle_sync dev req now fails w.tables).1 })
    pushed-Invariant k = elim (handle_sync-events dev req now fails w.tables) [
      | inl e ↦ administering-Invariant _ e
      | inr e ↦ IsKept-Invariant _ (subst IsKept (sym e) k)
    ]

    pub pushing-Invariant :
        text_eq dev.id device ≡ false
        → Invariant device (record w { tables = (handle_sync dev req now fails w.tables).1 })
    pushing-Invariant e = pushed-Invariant (other-IsKept dev.id now req.events e)

    pub arriving-Invariant :
        dev.id ≡ device
        → req.events ≡ w.batch
        → Invariant device (record w { tables = (handle_sync dev req now fails w.tables).1 })
    arriving-Invariant d e = pushed-Invariant (
        subst (λ x. IsKept (ingest_events x req.events now w.tables.events).1) (sym d)
          (batch-IsKept now req.events e))

    pub answering-Invariant :
        (response : SyncResponse)
        → dev.id ≡ device
        → req.events ≡ w.batch
        → (handle_sync dev req now fails w.tables).0 ≡ some response
        → Invariant device (record w {
          tables = (handle_sync dev req now fails w.tables).1;
          through = response.accepted_through;
        })
    answering-Invariant response d e answered =
        let inv = arriving-Invariant d e in
        let (through, stored) = handle_sync_through dev req now fails w.tables response answered in
        record {
          accounted = inv.accounted;
          genuine = inv.genuine;
          once = inv.once;
          rising = inv.rising;
          rows_recorded = inv.rows_recorded;
          batch_recorded = inv.batch_recorded;
          batch_covers = inv.batch_covers;
          through_recorded =
              omega (arith, through, ap top e, top_recorded w.recorded w.batch h.batch_recorded);
          through_held = λ i pos waits below.
              ap (λ es. holds_event device i es) stored
              ∙ batch_holds i dev.id req.events now d e
                  (h.batch_covers i pos waits (omega (arith, below, through, ap top e)));
        }
