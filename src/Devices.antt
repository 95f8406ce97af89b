-- ===== src/Devices.antt =====
-- The machines of the shop: enrolling one and retiring one
-- (server/src/devices/devices.service.ts). The enrolment code is drawn at random outside of the
-- model; `code_hash` is its hash. Enrolling answers with the key of the new row, retiring with the
-- drawer; the rest of their answers is the machine's row.
pub mod Tills
pub mod Enrolled
pub mod Retired
pub mod Rest
use jenkin_sri_store.Prelude.{
  ℕ, ◌+◌, Bool, true, false, Option, none, some, List, [], ◌∷◌, ◌++◌, if◌then◌else◌, not, ◌&&◌, leb,
}
use jenkin_sri_store.Store.{
  Text, RowId, Table, put, update, Device, DeviceRole, Action, AuditRow, Db, Tx, ok, pure, modify,
  throw, throw_if, gets, ◌>>=◌, ◌>>◌, pos_device_exists, device_no_exhausted, device_not_found,
  device_already_retired,
}
use jenkin_sri_store.Shifts.{Actor, ShiftWithEntries, close_for_retirement}

abbrev pub max_device_no : ℕ
max_device_no = 99

pub record NewDevice : Type 0 where
  pub label : Text
  pub role : DeviceRole

abbrev pub is_pos : DeviceRole → Bool
is_pos DeviceRole.pos = true
is_pos DeviceRole.backoffice = false

-- `role = 'pos' AND retired_at IS NULL`.
abbrev pub is_till : Device → Bool
is_till d = is_pos d.role && not d.retired

abbrev pub till_row : Option Device → Bool
till_row none = false
till_row (some d) = is_till d

-- `… LIMIT 1` of the tills that are not retired.
unfoldable pub live_till : List RowId → Table Device → Option RowId
live_till [] t = none
live_till (k ∷ ks) t = let rest = live_till ks t in if till_row (t k) then some k else rest

abbrev pub refuse_till : Option RowId → Tx Unit
refuse_till none = pure tt
refuse_till (some k) = throw (pos_device_exists k)

abbrev pub no_of : Option Device → ℕ
no_of none = 0
no_of (some d) = d.device_no

-- `COALESCE(MAX(device_no), 0)`: a retired machine's number counts.
unfoldable pub last_device_no : List RowId → Table Device → ℕ
last_device_no [] t = 0
last_device_no (k ∷ ks) t =
    let rest = last_device_no ks t in if leb (no_of (t k)) rest then rest else no_of (t k)

abbrev pub new_device : NewDevice → ℕ → Text → Device
new_device input n code_hash = record {
  device_no = n;
  label = input.label;
  role = input.role;
  enrol_code_hash = some code_hash;
  retired = false;
}

unfoldable pub insert_device : Device → Tx RowId
insert_device d s = ok (
  s.next_id,
  record s {
    devices = put s.next_id d s.devices;
    device_ids = s.device_ids ++ s.next_id ∷ [];
    next_id = s.next_id + 1;
  },
)

abbrev pub device_audit : Actor → Action → RowId → Db → Db
device_audit actor action id s = record s {
  audit_log =
      s.audit_log
      ++ record {
        user_id = actor.user_id;
        device_id = actor.device_id;
        action = action;
        entity_id = id;
      }
        ∷ [];
}

-- A shop has one till at a time, so a second one is refused; other machines are not counted.
abbrev pub one_till : DeviceRole → Tx Unit
one_till DeviceRole.pos s = refuse_till (live_till s.device_ids s.devices) s
one_till DeviceRole.backoffice s = pure tt s

unfoldable pub create_device : NewDevice → Text → Actor → Tx RowId
unfolding live_till last_device_no insert_device
create_device input code_hash actor = do
  _ ← one_till input.role
  last ← gets (λ s. last_device_no s.device_ids s.devices)
  throw_if (not (leb (last + 1) max_device_no)) device_no_exhausted
  id ← insert_device (new_device input (last + 1) code_hash)
  modify (device_audit actor Action.device_create id)
  pure id

abbrev pub active_row : Option Device → Tx Device
active_row none = throw device_not_found
active_row (some d) = if d.retired then throw device_already_retired else pure d

unfoldable pub lock_device : RowId → Tx Device
lock_device id s = active_row (s.devices id) s

abbrev pub retired_device : Device → Device
retired_device d = record d { retired = true; enrol_code_hash = none }

-- `retireIn`: the drawer is shelved before the machine is.
unfoldable pub retire_device : Actor → RowId → Option ℕ → Tx (Option ShiftWithEntries)
unfolding lock_device
retire_device actor id physical_cash = do
  _ ← lock_device id
  shift ← close_for_retirement id physical_cash
  modify (λ s. record s { devices = update id retired_device s.devices })
  modify (device_audit actor Action.device_retire id)
  pure shift
