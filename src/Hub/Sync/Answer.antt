-- ===== src/Hub/Sync/Answer.antt =====
-- What a push has stored when the hub answers it.
use pkgwatch.Base.{ℕ, Bool, true, false, some, if◌then◌else◌, ◌≡◌, refl, sym, ◌∙◌, ap, map, length}
use pkgwatch.Fleet.{SyncRequest, SyncResponse}
use pkgwatch.Hub.{Device, Tables}
use pkgwatch.Hub.Store.{ingest_events, replace_rows, replace_credentials}
use pkgwatch.Hub.Sync.{
  Transaction, touch, Handler, ◌>>=◌, transact, transact_if, write_events, write_findings,
  write_packages, write_rotation, write_quarantine, write_credentials, takes_packages,
  takes_credentials, check_in, handle_sync,
}

some_inj : {A : Type 0} {a b : A} → some a ≡ some b → a ≡ b
some_inj h = cc

-- Where the hub answers, a transaction has gone through.
run_transact :
    {Num A B : Type 0} (fails : Bool) (write : Tables Num → A × Tables Num)
    (next : A → Handler Num B) (t : Tables Num) (r : B)
    → ((transact fails write >>= next) t).0 ≡ some r
    → (transact fails write >>= next) t ≡ next (write t).0 (write t).1
unfolding ◌>>=◌ transact
run_transact true write next t r h = absurd (cc)
run_transact false write next t r h = refl

run_transact_if :
    {Num B : Type 0} (condition fails : Bool) (write : Tables Num → ℕ × Tables Num)
    (next : ℕ → Handler Num B) (t : Tables Num) (r : B)
    → ((transact_if condition fails write >>= next) t).0 ≡ some r
    → (transact_if condition fails write >>= next) t
      ≡ next (if condition then (write t).0 else 0) (if condition then (write t).1 else t)
unfolding ◌>>=◌ transact_if transact
run_transact_if false fails write next t r h = refl
run_transact_if true true write next t r h = absurd (cc)
run_transact_if true false write next t r h = refl

module _ {Num : Type 0} (dev : Device) (req : SyncRequest Num) (now : ℕ) where
  -- All that a push asks for, at once.
  abbrev pub snapshot : Tables Num → Tables Num
  snapshot t = record t {
    events = (ingest_events dev.id req.events now t.events).1;
    findings =
        if req.findings_complete
        then replace_rows dev.id now req.findings t.findings
        else t.findings;
    packages =
        if takes_packages dev req now
        then replace_rows dev.id now req.packages t.packages
        else t.packages;
    rotation =
        if req.rotation_complete
        then replace_rows dev.id now req.rotation t.rotation
        else t.rotation;
    quarantine =
        if req.quarantine_complete
        then replace_rows dev.id now req.quarantine t.quarantine
        else t.quarantine;
    credentials =
        if takes_credentials dev req now
        then replace_credentials dev.id now req.credentials (map (λ c. c.rank) req.credentials)
            t.credentials
        else t.credentials;
  }

  -- The answer to it.
  abbrev pub receipt : Tables Num → SyncResponse
  receipt t = record {
    accepted_through = (ingest_events dev.id req.events now t.events).0.1;
    events = (ingest_events dev.id req.events now t.events).0.0;
    findings = if req.findings_complete then length req.findings else 0;
    packages = if takes_packages dev req now then length req.packages else 0;
    rotation = if req.rotation_complete then length req.rotation else 0;
    quarantine = if req.quarantine_complete then length req.quarantine else 0;
    credentials = if takes_credentials dev req now then length req.credentials else 0;
  }

  put_findings :
      (c : Bool) (u : Tables Num)
      → (if c then (write_findings dev req now u).1 else u) ≡ record u {
        findings = if c then replace_rows dev.id now req.findings u.findings else u.findings;
      }
  unfolding write_findings
  put_findings true u = refl
  put_findings false u = refl

  put_packages :
      (c : Bool) (u : Tables Num)
      → (if c then (write_packages dev req now u).1 else u) ≡ record u {
        packages = if c then replace_rows dev.id now req.packages u.packages else u.packages;
      }
  unfolding write_packages
  put_packages true u = refl
  put_packages false u = refl

  put_rotation :
      (c : Bool) (u : Tables Num)
      → (if c then (write_rotation dev req now u).1 else u) ≡ record u {
        rotation = if c then replace_rows dev.id now req.rotation u.rotation else u.rotation;
      }
  unfolding write_rotation
  put_rotation true u = refl
  put_rotation false u = refl

  put_quarantine :
      (c : Bool) (u : Tables Num)
      → (if c then (write_quarantine dev req now u).1 else u) ≡ record u {
        quarantine =
            if c then replace_rows dev.id now req.quarantine u.quarantine else u.quarantine;
      }
  unfolding write_quarantine
  put_quarantine true u = refl
  put_quarantine false u = refl

  put_credentials :
      (c : Bool) (u : Tables Num)
      → (if c then (write_credentials dev req now u).1 else u) ≡ record u {
        credentials =
            if c
            then replace_credentials dev.id now req.credentials
                (map (λ c. c.rank) req.credentials)
                u.credentials
            else u.credentials;
      }
  unfolding write_credentials
  put_credentials true u = refl
  put_credentials false u = refl

  all_put :
      (f p r q c : Bool) (u : Tables Num)
      → (let u1 = if f then (write_findings dev req now u).1 else u in
          let u2 = if p then (write_packages dev req now u1).1 else u1 in
          let u3 = if r then (write_rotation dev req now u2).1 else u2 in
          let u4 = if q then (write_quarantine dev req now u3).1 else u3 in
          if c then (write_credentials dev req now u4).1 else u4)
        ≡ record u {
          findings = if f then replace_rows dev.id now req.findings u.findings else u.findings;
          packages = if p then replace_rows dev.id now req.packages u.packages else u.packages;
          rotation = if r then replace_rows dev.id now req.rotation u.rotation else u.rotation;
          quarantine =
              if q then replace_rows dev.id now req.quarantine u.quarantine else u.quarantine;
          credentials =
              if c
              then replace_credentials dev.id now req.credentials
                  (map (λ c. c.rank) req.credentials)
                  u.credentials
              else u.credentials;
        }
  all_put f p r q c u =
      rw (put_findings, put_packages, put_rotation, put_quarantine, put_credentials) refl

  -- Six transactions that all succeed are one update of the six tables.
  pub handle_sync_answered :
      (fails : Transaction → Bool) (t : Tables Num) (r : SyncResponse)
      → (handle_sync dev req now fails t).0 ≡ some r
      → (r ≡ receipt t)
        × ((handle_sync dev req now fails t).1 ≡ check_in dev req now (fails touch) (snapshot t))
  unfolding handle_sync write_events write_findings write_packages write_rotation write_quarantine
      write_credentials
  handle_sync_answered fails t r h =
      let e0 = run_transact _ _ _ t r h in
      let e1 = e0 ∙ run_transact_if _ _ _ _ _ r (ap (λ x. x.0) (sym e0) ∙ h) in
      let e2 = e1 ∙ run_transact_if _ _ _ _ _ r (ap (λ x. x.0) (sym e1) ∙ h) in
      let e3 = e2 ∙ run_transact_if _ _ _ _ _ r (ap (λ x. x.0) (sym e2) ∙ h) in
      let e4 = e3 ∙ run_transact_if _ _ _ _ _ r (ap (λ x. x.0) (sym e3) ∙ h) in
      let e5 = e4 ∙ run_transact_if _ _ _ _ _ r (ap (λ x. x.0) (sym e4) ∙ h) in
      (
        some_inj (sym h ∙ ap (λ x. x.0) e5),
        ap (λ x. x.1) e5
            ∙ ap (check_in dev req now (fails touch))
                (all_put _ _ _ _ _ (write_events dev req now t).1),
      )
