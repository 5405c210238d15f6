-- ===== src/Agent/Tests.antt =====
-- An agent at the findings level and a hub that takes everything.
use pkgwatch.Base.{
  ℕ, true, false, List, [], ◌∷◌, none, some, ◌≡◌, refl, ◌⊎◌, inl, inr, All, ◌≤◌, if◌then◌else◌,
}
use pkgwatch.Base.Text.{codes, text_eq}
use pkgwatch.Fleet.{SyncRequest, SyncResponse, sync_level_full, sync_level_findings, device_revoked}
use pkgwatch.Hub.Samples.{event, a_package}
use pkgwatch.Agent.{
  Snapshot, Store, Outcome, PushError, sync_ok, sync_failed, sync_halted, api, build_push,
  sync_once, run_sync, start_sync, backoff_initial, backoff_max,
}
use pkgwatch.Agent.Backoff.{failures, backoffs, start_sync_waits}

abbrev snapshot : Snapshot ℕ
snapshot = record {
  findings = some [];
  rotation = none;
  quarantine = some ([], true);
  credentials =
      record { id = codes "ssh"; category = codes "ssh"; path = codes "/home/a/.ssh"; rank = 0 }
      ∷ [];
  packages = some (a_package ∷ []);
}

abbrev push : SyncRequest ℕ
push = build_push (codes "1") sync_level_findings (event 1 ∷ []) [] snapshot

abbrev store : Store
store = record { rows = record { event = event 1; synced = false } ∷ []; next = 2; revoked = true }

abbrev hub : SyncRequest ℕ → SyncResponse ⊎ PushError
hub req = inl (record {
  accepted_through = 1;
  events = 1;
  findings = 0;
  packages = 0;
  rotation = 0;
  quarantine = 0;
  credentials = 0;
})

-- A push that is answered empties the queue and clears the marker.
synced :
    (sync_once (λ e. []) (λ n. []) hub (codes "1") sync_level_findings snapshot 7 store).1
    ≡ record store { rows = record { event = event 1; synced = true } ∷ []; revoked = false }
unfolding sync_once
synced = refl

-- A revocation halts the agent, and is an event of its own.
halted :
    (sync_once
      (λ e. codes "refused")
      (λ n. [])
      (λ r. inr (api device_revoked))
      (codes "1")
      sync_level_findings
      snapshot
      7
      store).0
    ≡ sync_halted
unfolding sync_once
halted = refl

waits :
    run_sync 30 (sync_failed ∷ sync_failed ∷ sync_ok ∷ sync_failed ∷ sync_halted ∷ sync_ok ∷ [])
    ≡ 30 ∷ 60 ∷ 300 ∷ 30 ∷ []
unfolding run_sync
waits = refl

start_sync_waits_example :
    ((outcomes : List Outcome)
      → All
          (λ wait. (backoff_initial ≤ wait) × (wait ≤ backoff_max))
          (start_sync sync_level_full outcomes))
    × ((n : ℕ)
        → start_sync sync_level_full (failures n)
          ≡ (if text_eq sync_level_full (codes "off") then [] else backoffs 0 n))
start_sync_waits_example = start_sync_waits sync_level_full
