-- ===== src/Tests/Machines.antt =====
-- The machines of the shop of the tests.
use jenkin_sri_store.Prelude.{
  ◌≡◌, refl, arith, true, false, some, none, keep, rewrite, ◌==◌, Bool-cases, inl, inr,
}
use jenkin_sri_store.Store.{
  RowId, Device, DeviceRole, Db, ok, err, no_open_shift, device_already_retired, ◌>>=◌,
}
use jenkin_sri_store.Shifts.{
  drawer_of, latest, lock_active, update_shift, close, settle, retire_drawer, close_for_retirement,
  require_open_shift_id_for,
}
use jenkin_sri_store.Devices.{
  NewDevice, create_device, retire_device, live_till, last_device_no, insert_device, lock_device,
}
use jenkin_sri_store.Devices.Tills.{IsNumbered}
use jenkin_sri_store.Devices.Retired.{retire_device_fences}
use jenkin_sri_store.Tests.Shop.{shop, till, clerk, rows_of, answer_of, returned, returned-eq}
use jenkin_sri_store.Tests.Drawers.{shop-OneDrawer}

only_till : (k : RowId) (d : Device) → shop.devices k ≡ some d → (k ≡ 1) × (till ≡ d)
only_till k d h = elim (Bool-cases (1 == k)) [
  | inl same ↦ (ground arith, ground arith)
  | inr other ↦ absurd (ground arith)
]

pub shop-IsNumbered : IsNumbered shop
shop-IsNumbered = record {
  listed = λ k d h. let (key, row) = only_till k d h in rw key refl;
  in_range = λ k d h. let (key, row) = only_till k d h in rw (← row) (omega arith, omega arith);
  apart = λ j k d e hd he same.
      let (key, row) = only_till j d hd in let (key', row') = only_till k e he in cc;
  one = λ j k d e hd he td te.
      let (key, row) = only_till j d hd in let (key', row') = only_till k e he in cc;
}

abbrev desk : NewDevice
desk = record { label = 15; role = DeviceRole.backoffice }

abbrev enrolled : Db
enrolled = rows_of (create_device desk 77 clerk shop)

enrol_returns : returned (create_device desk 77 clerk shop) ≡ true
unfolding create_device live_till last_device_no insert_device ◌>>=◌
enrol_returns = refl

enrol_ran :
    create_device desk 77 clerk shop ≡ ok (answer_of 0 (create_device desk 77 clerk shop), enrolled)
enrol_ran = returned-eq 0 (create_device desk 77 clerk shop) enrol_returns

abbrev fenced : Db
fenced = rows_of (retire_device clerk 1 (some 123400) shop)

retire_returns : returned (retire_device clerk 1 (some 123400) shop) ≡ true
unfolding retire_device lock_device close_for_retirement retire_drawer settle close lock_active
    update_shift drawer_of latest keep rewrite ◌>>=◌
retire_returns = refl

retire_ran :
    retire_device clerk 1 (some 123400) shop
    ≡ ok (answer_of none (retire_device clerk 1 (some 123400) shop), fenced)
retire_ran = returned-eq none (retire_device clerk 1 (some 123400) shop) retire_returns

retire_device_fences_example :
    IsNumbered fenced
    × ((d : Device) × (shop.devices 1 ≡ some d)
        × (d.retired ≡ false)
        × ((e : Device) × (fenced.devices 1 ≡ some e)
            × (e.device_no ≡ d.device_no)
            × (e.role ≡ d.role)
            × (e.label ≡ d.label)
            × (e.enrol_code_hash ≡ none)
            × (e.retired ≡ true)))
    × (drawer_of 1 fenced.shifts ≡ none)
    × (require_open_shift_id_for 1 fenced ≡ err no_open_shift)
    × (retire_device clerk 1 none fenced ≡ err device_already_retired)
retire_device_fences_example =
    retire_device_fences clerk clerk 1 (some 123400) none shop shop-IsNumbered shop-OneDrawer
      retire_ran
