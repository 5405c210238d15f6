-- ===== src/Hub/Store.antt =====
-- internal/repo/fleet.go: how a push is stored. A transaction that fails leaves its table alone.
pub mod Ingest
use pkgwatch.Base.{
  ℕ, zero, suc, ◌+◌, Bool, true, false, ◌&&◌, ◌||◌, not, ltb, ◌==◌, List, [], ◌∷◌, ◌++◌,
  if◌then◌else◌, map, any,
}
use pkgwatch.Base.Text.{Text, text_eq}
use pkgwatch.Base.Select.{filter}
use pkgwatch.Fleet.{Event, Credential}
use pkgwatch.Hub.{Owned, is_of}

-- `UNIQUE (device_id, agent_event_id)`
abbrev pub is_event : Text → ℕ → Owned Event → Bool
is_event device id r = text_eq r.device_id device && (r.row.agent_id == id)

abbrev pub holds_event : Text → ℕ → List (Owned Event) → Bool
holds_event device id rows = any (is_event device id) rows

-- `INSERT OR IGNORE INTO fleet_events`
unfoldable pub insert_event : Text → ℕ → Event → List (Owned Event) → List (Owned Event)
unfolding text_eq
insert_event device now e rows =
    if holds_event device e.agent_id rows
    then rows
    else rows ++ record { device_id = device; row = e; stored_at = now } ∷ []

-- The loop of `IngestEvents`, with the number of rows inserted and the highest number so far.
unfoldable pub ingest_from :
    Text → ℕ → ℕ → ℕ → List (Owned Event) → List Event → (ℕ × ℕ) × List (Owned Event)
unfolding insert_event text_eq
ingest_from device now accepted through rows [] = ((accepted, through), rows)
ingest_from device now accepted through rows (e ∷ events) =
    ingest_from device now (if holds_event device e.agent_id rows then accepted else accepted + 1)
      (if ltb through e.agent_id then e.agent_id else through) (insert_event device now e rows)
      events

-- `IngestEvents`, where the transaction succeeds.
unfoldable pub ingest_events :
    Text → List Event → ℕ → List (Owned Event) → (ℕ × ℕ) × List (Owned Event)
unfolding ingest_from
ingest_events device events now rows = ingest_from device now 0 0 rows events

-- `DELETE … WHERE device_id = ?` and an `INSERT` for each item: `ReplaceFindings`,
-- `ReplacePackages`, `ReplaceRotation` and `ReplaceQuarantine`.
unfoldable pub replace_rows : {A : Type 0} → Text → ℕ → List A → List (Owned A) → List (Owned A)
unfolding text_eq
replace_rows device now items rows =
    filter (λ r. not (is_of device r)) rows
    ++ map (λ x. record { device_id = device; row = x; stored_at = now }) items

-- The ranks that `ReplaceCredentials` gives its items, from the index `i` on.
unfoldable pub ranked : ℕ → List Credential → List ℕ → List Credential
ranked i [] ranks = []
ranked i (c ∷ items) [] = record c { rank = i } ∷ ranked (suc i) items []
ranked i (c ∷ items) (r ∷ ranks) = record c { rank = r } ∷ ranked (suc i) items ranks

-- `ReplaceCredentials`
unfoldable pub replace_credentials :
    Text → ℕ → List Credential → List ℕ → List (Owned Credential) → List (Owned Credential)
unfolding replace_rows ranked
replace_credentials device now items ranks rows =
    replace_rows device now (ranked 0 items ranks) rows
