-- ===== src/Hub/Devices.antt =====
-- internal/repo/devices.go: pairing codes and devices. The hash of a code is a parameter.
use pkgwatch.Base.{
  ℕ, ◌+◌, Bool, true, false, ◌&&◌, not, ltb, ◌==◌, List, [], ◌∷◌, ◌++◌, Option, none, some,
  if◌then◌else◌, map, any,
}
use pkgwatch.Base.Text.{Text, text_eq, is_empty}
use pkgwatch.Base.Select.{filter, count}
use pkgwatch.Fleet.{sync_level_findings, sync_level_full}
use pkgwatch.Hub.{Device, PairCode, Tables, is_of, status_pending, status_approved}

-- Ten minutes.
abbrev pub pair_code_ttl : ℕ
pair_code_ttl = 600

-- `IssuePairCode`, for the hash of the code.
unfoldable pub issue_pair_code : {Num : Type 0} → Text → ℕ → Tables Num → Tables Num
issue_pair_code hash now t = record t {
  pair_codes =
      t.pair_codes
      ++ record {
        code_hash = hash;
        created_at = now;
        expires_at = now + pair_code_ttl;
        used_at = none;
      }
        ∷ [];
}

abbrev pub is_unused : PairCode → Bool
is_unused c = elim c.used_at [ none ↦ true | some t ↦ false ]

-- `WHERE code_hash = ? AND used_at IS NULL AND expires_at > ?`
unfoldable pub is_redeemable : Text → ℕ → PairCode → Bool
unfolding text_eq
is_redeemable hash now c = text_eq c.code_hash hash && is_unused c && ltb now c.expires_at

abbrev pub spend : Text → ℕ → PairCode → PairCode
spend hash now c = if is_redeemable hash now c then record c { used_at = some now } else c

-- `RedeemPairCode`: whether a code was spent. The update stands even if it touched several rows,
-- which the primary key rules out.
unfoldable pub redeem_pair_code : {Num : Type 0} → Text → ℕ → Tables Num → Bool × Tables Num
unfolding is_redeemable
redeem_pair_code hash now t = (
  count (is_redeemable hash now) t.pair_codes == 1,
  record t { pair_codes = map (spend hash now) t.pair_codes },
)

-- `ExpirePairCodes`
unfoldable pub expire_pair_codes : {Num : Type 0} → ℕ → Tables Num → Tables Num
expire_pair_codes now t = record t { pair_codes = filter (λ c. ltb now c.expires_at) t.pair_codes }

-- `Device`, the lookup.
unfoldable pub find_device : Text → List Device → Option Device
unfolding text_eq
find_device id [] = none
find_device id (d ∷ devices) = if text_eq d.id id then some d else find_device id devices

-- `ON CONFLICT(id) DO UPDATE`
abbrev pub reenroll : Device → Device → Device
reenroll d old =
    if text_eq old.id d.id
    then record old {
      token_hash = d.token_hash;
      hostname = d.hostname;
      os = d.os;
      arch = d.arch;
      version = d.version;
      status = status_pending;
      approved_at = none;
    }
    else old

abbrev or_default : Text → Text → Text
or_default s fallback = if is_empty s then fallback else s

-- The row that is inserted.
abbrev pub new_row : Device → ℕ → Device
new_row d now = record d {
  status = status_pending;
  sync_level = or_default d.sync_level sync_level_findings;
  enrolled_at = now;
  approved_at = none;
  last_seen = none;
}

-- `Enroll`
unfoldable pub enroll : {Num : Type 0} → Device → ℕ → Tables Num → Tables Num
unfolding text_eq
enroll d now t =
    if any (λ old. text_eq old.id d.id) t.devices
    then record t { devices = map (reenroll d) t.devices }
    else record t { devices = t.devices ++ new_row d now ∷ [] }

-- The update of `SetDeviceStatus` on a row.
abbrev pub with_status : Text → Text → ℕ → Device → Device
with_status id status now d =
    if text_eq d.id id
    then record d {
      status = status;
      approved_at = if text_eq status status_approved then some now else none;
    }
    else d

-- `SetDeviceStatus`: whether the device is there.
unfoldable pub set_device_status : {Num : Type 0} → Text → Text → ℕ → Tables Num → Bool × Tables Num
unfolding text_eq
set_device_status id status now t = (
  any (λ d. text_eq d.id id) t.devices,
  record t { devices = map (with_status id status now) t.devices },
)

abbrev pub with_level : Text → Text → Device → Device
with_level id level d = if text_eq d.id id then record d { sync_level = level } else d

-- `SetDeviceSyncLevel`: whether the level is one and the device is there.
unfoldable pub set_device_sync_level : {Num : Type 0} → Text → Text → Tables Num → Bool × Tables Num
unfolding text_eq
set_device_sync_level id level t =
    if not (text_eq level sync_level_findings) && not (text_eq level sync_level_full)
    then (false, t)
    else if not (any (λ d. text_eq d.id id) t.devices)
    then (false, t)
    else (
      true,
      record t {
        devices = map (with_level id level) t.devices;
        packages =
            if text_eq level sync_level_findings
            then filter (λ r. not (is_of id r)) t.packages
            else t.packages;
      },
    )

abbrev pub touched : Text → Text → ℕ → Device → Device
touched id version now d =
    if text_eq d.id id then record d { last_seen = some now; version = version } else d

-- `TouchDevice`
unfoldable pub touch_device : {Num : Type 0} → Text → Text → ℕ → Tables Num → Tables Num
unfolding text_eq
touch_device id version now t = record t { devices = map (touched id version now) t.devices }
