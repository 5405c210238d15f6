-- ===== src/Hub/Sync/Frame.antt =====
-- What a push leaves alone, for any view of the tables.
use pkgwatch.Base.{
  ℕ, Bool, true, false, ◌&&◌, not, Option, none, some, ◌≡◌, refl, ◌∙◌, ◌⊎◌, inl, inr,
}
use pkgwatch.Fleet.{SyncRequest}
use pkgwatch.Hub.{Device, Tables}
use pkgwatch.Hub.Sync.{
  Transaction, store_events, touch, Handler, ◌>>=◌, transact, transact_if, write_events,
  write_findings, write_packages, write_rotation, write_quarantine, write_credentials,
  takes_packages, takes_credentials, check_in, handle_sync, no_items,
}

module _ {Num W : Type 0} (view : Tables Num → W) where
  -- A handler that leaves the view alone, whether it answers or refuses.
  pub record Respects {A : Type 0} (m : Handler Num A) : Type 0 where
    pub keeps : (t : Tables Num) → view (m t).1 ≡ view t

  -- Where what follows leaves the view alone, the view is what the first part has made of it.
  bind_view :
      {A B : Type 0} (m : Handler Num A) {next : A → Handler Num B}
      → ((a : A) → Respects (next a))
      → (t : Tables Num) → view ((m >>= next) t).1 ≡ view (m t).1
  unfolding ◌>>=◌
  bind_view {A = A} {B = B} m {next = next} k t = go (m t).0 (m t).1
    where
      go :
          (o : Option A) (u : Tables Num)
          → view (elim o as (λ _. Option B × Tables Num) [ none ↦ (none, u) | some a ↦ next a u ]).1
            ≡ view u
      go none u = refl
      go (some a) u = (k a).keeps u

  bind_Respects :
      {A B : Type 0} {m : Handler Num A} {next : A → Handler Num B}
      → Respects m
      → ((a : A) → Respects (next a))
      → Respects (m >>= next)
  bind_Respects h k = record { keeps = λ t. bind_view _ k t ∙ h.keeps t }

  -- A handler that leaves the view alone if it refuses.
  pub record Refuses {A : Type 0} (m : Handler Num A) : Type 0 where
    pub keeps : (t : Tables Num) → (m t).0 ≡ none → view (m t).1 ≡ view t

  bind_Refuses :
      {A B : Type 0} {m : Handler Num A} {next : A → Handler Num B}
      → Respects m
      → ((a : A) → Refuses (next a))
      → Refuses (m >>= next)
  unfolding ◌>>=◌
  bind_Refuses {A = A} {B = B} {m = m} {next = next} h k = record {
    keeps = λ t e. go (m t).0 (m t).1 e ∙ h.keeps t;
  }
    where
      go :
          (o : Option A) (u : Tables Num)
          → (elim o as (λ _. Option B × Tables Num) [ none ↦ (none, u) | some a ↦ next a u ]).0
            ≡ none
          → view (elim o as (λ _. Option B × Tables Num) [ none ↦ (none, u) | some a ↦ next a u ]).1
            ≡ view u
      go none u e = refl
      go (some a) u e = (k a).keeps u e

  transact-Respects :
      {A : Type 0} (fails : Bool) (write : Tables Num → A × Tables Num)
      → ((t : Tables Num) → view (write t).1 ≡ view t)
      → Respects (transact fails write)
  unfolding transact
  transact-Respects true write h = record { keeps = λ t. refl }
  transact-Respects false write h = record { keeps = h }

  -- A write that leaves the view alone, or whose condition does not hold.
  abbrev pub Spares : Bool → (Tables Num → ℕ × Tables Num) → Type 0
  Spares condition write = (condition ≡ false) ⊎ ((t : Tables Num) → view (write t).1 ≡ view t)

  transact_if-Respects :
      (condition fails : Bool) (write : Tables Num → ℕ × Tables Num)
      → Spares condition write
      → Respects (transact_if condition fails write)
  unfolding transact_if
  transact_if-Respects false fails write h = record { keeps = λ t. refl }
  transact_if-Respects true fails write (inl e) = absurd (cc)
  transact_if-Respects true fails write (inr h) = transact-Respects fails write h

  module _ (dev : Device) (req : SyncRequest Num) (now : ℕ) where
    -- Where the other writes leave the view alone, the view is what the events have made of it.
    pub handle_sync_view :
        (fails : Transaction → Bool)
        → Spares req.findings_complete (write_findings dev req now)
        → Spares (takes_packages dev req now) (write_packages dev req now)
        → Spares req.rotation_complete (write_rotation dev req now)
        → Spares req.quarantine_complete (write_quarantine dev req now)
        → Spares (takes_credentials dev req now) (write_credentials dev req now)
        → ((b : Bool) (t : Tables Num) → view (check_in dev req now b t) ≡ view t)
        → (t : Tables Num)
        → view (handle_sync dev req now fails t).1
          ≡ view
              (transact
                (fails store_events && not (no_items req.events))
                (write_events dev req now)
                t).1
    unfolding handle_sync
    handle_sync_view fails f p r q c touch_view = bind_view _ λ _.
        bind_Respects (transact_if-Respects _ _ _ f) λ _.
          bind_Respects (transact_if-Respects _ _ _ p) λ _.
            bind_Respects (transact_if-Respects _ _ _ r) λ _.
              bind_Respects (transact_if-Respects _ _ _ q) λ _.
                bind_Respects (transact_if-Respects _ _ _ c)
                  λ _. record { keeps = λ t. touch_view (fails touch) t }

    -- A push leaves the view alone if each of its writes does, or does not take place.
    pub handle_sync-Respects :
        (fails : Transaction → Bool)
        → ((t : Tables Num) → view (write_events dev req now t).1 ≡ view t)
        → Spares req.findings_complete (write_findings dev req now)
        → Spares (takes_packages dev req now) (write_packages dev req now)
        → Spares req.rotation_complete (write_rotation dev req now)
        → Spares req.quarantine_complete (write_quarantine dev req now)
        → Spares (takes_credentials dev req now) (write_credentials dev req now)
        → ((b : Bool) (t : Tables Num) → view (check_in dev req now b t) ≡ view t)
        → Respects (handle_sync dev req now fails)
    handle_sync-Respects fails e f p r q c touch_view = record {
      keeps = λ t.
          handle_sync_view fails f p r q c touch_view t
          ∙ (transact-Respects _ (write_events dev req now) e).keeps t;
    }

    -- A push that is refused leaves the view alone if each of its writes does.
    pub handle_sync-Refuses :
        (fails : Transaction → Bool)
        → ((t : Tables Num) → view (write_events dev req now t).1 ≡ view t)
        → Spares req.findings_complete (write_findings dev req now)
        → Spares (takes_packages dev req now) (write_packages dev req now)
        → Spares req.rotation_complete (write_rotation dev req now)
        → Spares req.quarantine_complete (write_quarantine dev req now)
        → Spares (takes_credentials dev req now) (write_credentials dev req now)
        → Refuses (handle_sync dev req now fails)
    unfolding handle_sync
    handle_sync-Refuses fails e f p r q c = bind_Refuses (transact-Respects _ _ e) λ _.
        bind_Refuses (transact_if-Respects _ _ _ f) λ _.
          bind_Refuses (transact_if-Respects _ _ _ p) λ _.
            bind_Refuses (transact_if-Respects _ _ _ r) λ _.
              bind_Refuses (transact_if-Respects _ _ _ q) λ _.
                bind_Refuses (transact_if-Respects _ _ _ c)
                  λ _. record { keeps = λ t e. absurd (cc) }
