-- ===== src/Hub/Sync/Tests.antt =====
-- Pushes to a small hub; a score is a number.
use pkgwatch.Base.{ℕ, [], ◌∷◌, none, ◌≡◌, refl}
use pkgwatch.Base.Text.{codes}
use pkgwatch.Fleet.{SyncRequest, SyncResponse, sync_level_findings}
use pkgwatch.Hub.Sync.{
  ◌>>=◌, transact, transact_if, write_events, write_findings, write_packages, write_rotation,
  write_quarantine, write_credentials, is_full, handle_sync,
}
use pkgwatch.Hub.Samples.{event, device, request, tables, late}
use pkgwatch.Hub.Sync.Terms.{others, handle_sync-others}

-- One of two events is new, and the package is not taken in at the findings level.
abbrev response : SyncResponse
response = record {
  accepted_through = 2;
  events = 1;
  findings = 1;
  packages = 0;
  rotation = 0;
  quarantine = 0;
  credentials = 0;
}

abbrev two_events : SyncRequest ℕ
two_events = request (event 1 ∷ event 2 ∷ [])

refused : (handle_sync (device (codes "A") sync_level_findings) two_events 9 late tables).0 ≡ none
unfolding handle_sync ◌>>=◌ transact transact_if write_events write_findings write_packages
    write_rotation write_quarantine write_credentials is_full
refused = refl

handle_sync-others_example :
    others
      (codes "A")
      (handle_sync (device (codes "A") sync_level_findings) two_events 9 late tables).1
    ≡ others (codes "A") tables
handle_sync-others_example =
    handle_sync-others (device (codes "A") sync_level_findings) two_events 9 late tables
