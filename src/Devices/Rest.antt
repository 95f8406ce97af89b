-- ===== src/Devices/Rest.antt =====
-- The calls on a machine write no other table than the machines', the drawers' and the audit's.
use jenkin_sri_store.Prelude.{ℕ, ◌≡◌, Option}
use jenkin_sri_store.Store.{Text, RowId, Db, ok, ran, throw_if-ok}
use jenkin_sri_store.Shifts.{Actor, ShiftWithEntries, close_for_retirement}
use jenkin_sri_store.Shifts.Rest.{close_for_retirement-rest}
use jenkin_sri_store.Devices.{NewDevice, insert_device, create_device, retire_device}
use jenkin_sri_store.Devices.Tills.{one_till-ok}
use jenkin_sri_store.Devices.Retired.{lock_device-ok}

abbrev pub OnlyMachines : Db → Db → Type 0
OnlyMachines s t = t ≡ record s {
  devices = t.devices;
  device_ids = t.device_ids;
  shifts = t.shifts;
  drawer_entries = t.drawer_entries;
  audit_log = t.audit_log;
  next_id = t.next_id;
}

pub create_device-rest :
    (input : NewDevice) (code_hash : Text) (actor : Actor) (s : Db) {id : RowId} {t : Db}
    → create_device input code_hash actor s ≡ ok (id, t)
    → OnlyMachines s t × (t.shifts ≡ s.shifts)
unfolding create_device insert_device
create_device-rest input code_hash actor s h = ran _ _ _ h λ u1 a ea k. ran _ _ _ k λ last b eb k.
    ran _ _ _ k λ u2 c ec k. ran _ _ _ k λ new d ed k. ran _ _ _ k λ u3 e ee k.
      let (a_same, alone) = one_till-ok input.role s ea in
      let (fits, c_same) = throw_if-ok _ _ b ec in (cc, cc)

-- The drawers after a retirement are those that shelving the machine's drawer left.
pub retire_device-drawers :
    (actor : Actor) (id : RowId) (cash : Option ℕ) (s : Db) {r : Option ShiftWithEntries} {t : Db}
    → retire_device actor id cash s ≡ ok (r, t)
    → OnlyMachines s t
      × ((u : Db) × (close_for_retirement id cash s ≡ ok (r, u)) × (t.shifts ≡ u.shifts))
unfolding retire_device
retire_device-drawers actor id cash s {r} {t} h = ran _ _ _ h λ d a ea k.
    ran _ _ _ k λ shift b eb k. ran _ _ _ k λ u1 c ec k. ran _ _ _ k λ u2 e ed k.
      let (found, live, a_same) = lock_device-ok id s ea in
      let frame = close_for_retirement-rest id cash a eb in
      let result : shift ≡ r = cc in (cc, (b, rw (a_same, result) at eb, cc))
