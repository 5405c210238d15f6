-- ===== src/Hub/Sync/Terms.antt =====
-- On whose terms a push is stored: the other devices' rows and the hub's own level of the device.
use pkgwatch.Base.{
  ℕ, ◌+◌, Bool, true, false, ◌&&◌, not, ltb, List, [], ◌∷◌, ◌++◌, if◌then◌else◌, ◌≡◌, refl, ap, ◌⊎◌,
  inl, inr, map, arith, append-nil, ◌∙◌, Bool-cases,
}
use pkgwatch.Base.Text.{Text, text_eq}
use pkgwatch.Base.Text.Laws.{text_eq_refl}
use pkgwatch.Base.Select.{filter, filter-append}
use pkgwatch.Fleet.{Event, SyncRequest}
use pkgwatch.Hub.{Device, Tables, Owned, is_of}
use pkgwatch.Hub.Store.{
  holds_event, insert_event, ingest_from, ingest_events, replace_rows, replace_credentials,
}
use pkgwatch.Hub.Devices.{touched, touch_device}
use pkgwatch.Hub.Sync.{
  Transaction, write_events, write_findings, write_packages, write_rotation, write_quarantine,
  write_credentials, is_full, check_in, handle_sync,
}
use pkgwatch.Hub.Sync.Frame.{handle_sync-Respects}

-- The rows that are not the device's.
abbrev pub rows_of_others : {A : Type 0} → Text → List (Owned A) → List (Owned A)
rows_of_others device rows = filter (λ r. not (is_of device r)) rows

-- The tables without the rows of the device.
abbrev pub others : {Num : Type 0} → Text → Tables Num → Tables Num
others device t = record {
  devices = filter (λ d. not (text_eq d.id device)) t.devices;
  pair_codes = t.pair_codes;
  events = rows_of_others device t.events;
  findings = rows_of_others device t.findings;
  packages = rows_of_others device t.packages;
  rotation = rows_of_others device t.rotation;
  quarantine = rows_of_others device t.quarantine;
  credentials = rows_of_others device t.credentials;
}

own_rows_of_others :
    {A : Type 0} (device : Text) (now : ℕ) (items : List A)
    → rows_of_others device
        (map (λ x. record { device_id = device; row = x; stored_at = now }) items)
      ≡ []
own_rows_of_others device now [] = refl
own_rows_of_others device now (x ∷ items) =
    ground (arith, text_eq_refl device, own_rows_of_others device now items)

filter-filter : {A : Type 0} (p : A → Bool) (xs : List A) → filter p (filter p xs) ≡ filter p xs
filter-filter p [] = refl
filter-filter p (x ∷ xs) = ground (arith, filter-filter p xs)

pub replace_rows-rows_of_others :
    {A : Type 0} (device : Text) (now : ℕ) (items : List A) (rows : List (Owned A))
    → rows_of_others device (replace_rows device now items rows) ≡ rows_of_others device rows
unfolding replace_rows
replace_rows-rows_of_others device now items rows =
    filter-append _ (rows_of_others device rows) _
    ∙ ap
        (λ u.
          u
          ++ rows_of_others device
              (map (λ x. record { device_id = device; row = x; stored_at = now }) items))
        (filter-filter _ rows)
    ∙ ap (λ u. rows_of_others device rows ++ u) (own_rows_of_others device now items)
    ∙ append-nil _

insert_event-rows_of_others :
    (device : Text) (now : ℕ) (e : Event) (rows : List (Owned Event))
    → rows_of_others device (insert_event device now e rows) ≡ rows_of_others device rows
unfolding insert_event
insert_event-rows_of_others device now e rows =
    elim (Bool-cases (holds_event device e.agent_id rows)) [
      | inl held ↦ ground arith
      | inr new ↦ ground (
        arith,
        filter-append (λ r. not (is_of device r)) rows
            (record { device_id = device; row = e; stored_at = now } ∷ []),
        text_eq_refl device,
        append-nil (rows_of_others device rows),
      )
    ]

ingest_from-rows_of_others :
    (device : Text) (now n m : ℕ) (rows : List (Owned Event)) (events : List Event)
    → rows_of_others device (ingest_from device now n m rows events).1 ≡ rows_of_others device rows
unfolding ingest_from
ingest_from-rows_of_others device now n m rows [] = refl
ingest_from-rows_of_others device now n m rows (e ∷ events) =
    ingest_from-rows_of_others device now (if holds_event device e.agent_id rows then n else n + 1)
      (if ltb m e.agent_id then e.agent_id else m) (insert_event device now e rows) events
    ∙ insert_event-rows_of_others device now e rows

touched_others :
    (device version : Text) (now : ℕ) (devices : List Device)
    → filter (λ d. not (text_eq d.id device)) (map (touched device version now) devices)
      ≡ filter (λ d. not (text_eq d.id device)) devices
touched_others device version now [] = refl
touched_others device version now (d ∷ devices) =
    ground (arith, touched_others device version now devices)

module _ {Num : Type 0} (dev : Device) (req : SyncRequest Num) (now : ℕ) where
  -- A push, whatever it claims and whichever of its transactions fail, changes no row of another
  -- device in any table, and no pairing code.
  pub handle_sync-others :
      (fails : Transaction → Bool) (t : Tables Num)
      → others dev.id (handle_sync dev req now fails t).1 ≡ others dev.id t
  unfolding write_events write_findings write_packages write_rotation write_quarantine
      write_credentials check_in touch_device ingest_events replace_credentials
  handle_sync-others fails =
      (handle_sync-Respects (others dev.id) dev req now fails
        (λ t.
          ap (λ rows. record (others dev.id t) { events = rows })
            (ingest_from-rows_of_others dev.id now 0 0 t.events req.events))
        (inr (λ t.
          ap (λ rows. record (others dev.id t) { findings = rows })
            (replace_rows-rows_of_others dev.id now req.findings t.findings)))
        (inr (λ t.
          ap (λ rows. record (others dev.id t) { packages = rows })
            (replace_rows-rows_of_others dev.id now req.packages t.packages)))
        (inr (λ t.
          ap (λ rows. record (others dev.id t) { rotation = rows })
            (replace_rows-rows_of_others dev.id now req.rotation t.rotation)))
        (inr (λ t.
          ap (λ rows. record (others dev.id t) { quarantine = rows })
            (replace_rows-rows_of_others dev.id now req.quarantine t.quarantine)))
        (inr (λ t.
          ap (λ rows. record (others dev.id t) { credentials = rows })
            (replace_rows-rows_of_others dev.id now _ t.credentials)))
        check_in-others).keeps
    where
      check_in-others :
          (b : Bool) (t : Tables Num) → others dev.id (check_in dev req now b t) ≡ others dev.id t
      check_in-others true t = refl
      check_in-others false t =
          ap (λ ds. record (others dev.id t) { devices = ds })
            (touched_others dev.id req.version now t.devices)

  -- A write that leaves a table alone where its condition does not hold.
  abbrev pub Unless : Bool → Type 0 → Type 0
  Unless condition P = (condition ≡ true) ⊎ P

  -- Whichever of its transactions fail, a push changes the packages only where the hub's own record
  -- of the device is at the full level, the credentials only there and where the request declares
  -- them complete, and the findings, the rotation ticks and the quarantined files only where the
  -- request declares them complete.
  pub handle_sync_terms :
      (fails : Transaction → Bool) (t : Tables Num)
      → let u = (handle_sync dev req now fails t).1 in
        Unless (is_full dev) (u.packages ≡ t.packages)
        × Unless (is_full dev && req.credentials_complete) (u.credentials ≡ t.credentials)
        × Unless req.findings_complete (u.findings ≡ t.findings)
        × Unless req.rotation_complete (u.rotation ≡ t.rotation)
        × Unless req.quarantine_complete (u.quarantine ≡ t.quarantine)
  unfolding write_events write_findings write_packages write_rotation write_quarantine
      write_credentials check_in touch_device
  handle_sync_terms fails t = (
    elim (Bool-cases (is_full dev)) [
      | inl full ↦ inl full
      | inr level ↦ inr (
          (handle_sync-Respects (λ t. t.packages) dev req now fails (λ t. refl) (inr (λ t. refl))
              (inl (ground arith)) (inr (λ t. refl)) (inr (λ t. refl)) (inr (λ t. refl))
              (λ b t. ground arith)).keeps
            t)
    ],
    elim (Bool-cases (is_full dev && req.credentials_complete)) [
      | inl full ↦ inl full
      | inr level ↦ inr (
          (handle_sync-Respects (λ t. t.credentials) dev req now fails (λ t. refl) (inr (λ t. refl))
              (inr (λ t. refl)) (inr (λ t. refl)) (inr (λ t. refl)) (inl level)
              (λ b t. ground arith)).keeps
            t)
    ],
    elim (Bool-cases req.findings_complete) [
      | inl complete ↦ inl complete
      | inr partial ↦ inr (
          (handle_sync-Respects (λ t. t.findings) dev req now fails (λ t. refl) (inl partial)
              (inr (λ t. refl)) (inr (λ t. refl)) (inr (λ t. refl)) (inr (λ t. refl))
              (λ b t. ground arith)).keeps
            t)
    ],
    elim (Bool-cases req.rotation_complete) [
      | inl complete ↦ inl complete
      | inr partial ↦ inr (
          (handle_sync-Respects (λ t. t.rotation) dev req now fails (λ t. refl) (inr (λ t. refl))
              (inr (λ t. refl)) (inl partial) (inr (λ t. refl)) (inr (λ t. refl))
              (λ b t. ground arith)).keeps
            t)
    ],
    elim (Bool-cases req.quarantine_complete) [
      | inl complete ↦ inl complete
      | inr partial ↦ inr (
          (handle_sync-Respects (λ t. t.quarantine) dev req now fails (λ t. refl) (inr (λ t. refl))
              (inr (λ t. refl)) (inr (λ t. refl)) (inl partial) (inr (λ t. refl))
              (λ b t. ground arith)).keeps
            t)
    ],
  )
