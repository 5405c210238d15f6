-- ===== src/Hub/Samples.antt =====
-- A small hub for the tests; a score is a number.
use pkgwatch.Base.{ℕ, Bool, true, false, List, [], ◌∷◌, none, some}
use pkgwatch.Base.Text.{Text, codes}
use pkgwatch.Fleet.{Event, Package, Finding, SyncRequest, sync_level_findings, sync_level_full}
use pkgwatch.Hub.{Device, Tables, status_approved}
use pkgwatch.Hub.Sync.{
  Transaction, store_events, store_findings, store_packages, store_rotation, store_quarantine,
  store_credentials, touch,
}

abbrev pub event : ℕ → Event
event id = record {
  agent_id = id;
  at = 5;
  kind = codes "scan";
  severity = [];
  purl = [];
  advisory_id = [];
  detail = [];
}

abbrev pub a_package : Package
a_package = record {
  purl = codes "pkg:npm/a@1";
  ecosystem = codes "npm";
  name = codes "a";
  version = codes "1";
  scope = codes "project";
  last_seen = 4;
}

abbrev pub finding : Finding ℕ
finding = record {
  purl = codes "pkg:npm/a@1";
  advisory_id = codes "GHSA-1";
  tier = codes "high";
  score = 7;
  state = codes "open";
  detected_at = 4;
}

abbrev pub device : Text → Text → Device
device id level = record {
  id = id;
  public_key = [];
  token_hash = [];
  hostname = codes "laptop";
  os = codes "linux";
  arch = codes "amd64";
  status = status_approved;
  sync_level = level;
  enrolled_at = 1;
  approved_at = some 2;
  last_seen = none;
  version = codes "1";
}

abbrev pub request : List Event → SyncRequest ℕ
request events = record {
  version = codes "2";
  sync_level = sync_level_full;
  events = events;
  findings = finding ∷ [];
  packages = a_package ∷ [];
  rotation = [];
  quarantine = [];
  credentials = [];
  findings_complete = true;
  rotation_complete = false;
  quarantine_complete = true;
  credentials_complete = true;
}

-- Two devices; the hub holds the first event of the one and a package of the other.
abbrev pub tables : Tables ℕ
tables = record {
  devices = device (codes "A") sync_level_findings ∷ device (codes "B") sync_level_full ∷ [];
  pair_codes = [];
  events = record { device_id = codes "A"; row = event 1; stored_at = 5 } ∷ [];
  findings = [];
  packages = record { device_id = codes "B"; row = a_package; stored_at = 5 } ∷ [];
  rotation = [];
  quarantine = [];
  credentials = [];
}

abbrev pub never : Transaction → Bool
never x = false

abbrev pub late : Transaction → Bool
late store_events = false
late store_findings = false
late store_packages = false
late store_rotation = false
late store_quarantine = true
late store_credentials = false
late touch = false
