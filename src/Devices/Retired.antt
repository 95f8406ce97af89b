-- ===== src/Devices/Retired.antt =====
-- Retiring a machine.
use jenkin_sri_store.Prelude.{
  ℕ, ◌≡◌, refl, sym, ap, arith, true, false, Option, none, some, ◌==◌, Option-cases, Bool-cases,
  inl, inr,
}
use jenkin_sri_store.Store.{
  RowId, Table, update, update_self, Device, Db, ok, err, ran, ◌>>=◌, no_open_shift,
  device_already_retired,
}
use jenkin_sri_store.Shifts.{Actor, ShiftWithEntries, drawer_of, require_open_shift_id_for}
use jenkin_sri_store.Shifts.Drawer.{OneDrawer, open_drawer_of-none}
use jenkin_sri_store.Shifts.Closing.{close_for_retirement_archives}
use jenkin_sri_store.Shifts.Rest.{close_for_retirement-rest}
use jenkin_sri_store.Devices.{is_pos, is_till, lock_device, retired_device, retire_device}
use jenkin_sri_store.Devices.Tills.{IsNumbered}

pub lock_device-ok :
    (id : RowId) (s : Db) {d : Device} {t : Db}
    → lock_device id s ≡ ok (d, t)
    → (s.devices id ≡ some d) × (d.retired ≡ false) × (t ≡ s)
unfolding lock_device
lock_device-ok id s h = elim (Option-cases (s.devices id)) [
  | inl missing ↦ absurd (ground arith)
  | inr (d, e) ↦ elim (Bool-cases d.retired) [
    | inl gone ↦ absurd (ground arith)
    | inr live ↦ (ground arith, ground arith, ground arith)
  ]
]

retired-is_till : (d : Device) → is_till (retired_device d) ≡ false
retired-is_till d = elim (Bool-cases (is_pos d.role)) [
  | inl till ↦ rw till refl
  | inr other ↦ rw other refl
]

-- A row after the update has the number of the row before, and is a till only if that one was.
update-before :
    (n k : RowId) (e : Device) (t : Table Device)
    → update n retired_device t k ≡ some e
    → (d : Device) × (t k ≡ some d)
      × (e.device_no ≡ d.device_no)
      × (is_till e ≡ true → is_till d ≡ true)
update-before n k e t h = elim (Option-cases (t k)) [
  | inl missing ↦ absurd (ground arith)
  | inr (d, there) ↦ elim (Bool-cases (n == k)) [
    | inl same ↦
        let e_is : retired_device d ≡ e = ground arith in
        let off = retired-is_till d in
        (d, there, ap (λ (z : Device). z.device_no) (sym e_is), λ p. absurd (cc))
    | inr other ↦
        let same : d ≡ e = ground arith in
        (d, there, ap (λ (z : Device). z.device_no) (sym same), λ p. rw same p)
  ]
]

retire-IsNumbered :
    (s : Db) (n : RowId) (t : Db)
    → IsNumbered s
    → t.devices ≡ update n retired_device s.devices
    → t.device_ids ≡ s.device_ids
    → IsNumbered t
retire-IsNumbered s n t num rows keys =
    let before : (k : RowId) (e : Device)
        → t.devices k ≡ some e
        → (d : Device) × (s.devices k ≡ some d)
          × (e.device_no ≡ d.device_no)
          × (is_till e ≡ true → is_till d ≡ true) =
      λ k e h. update-before n k e s.devices (rw rows at h) in
    record {
      listed = λ k e h. let (d, there, same, till) = before k e h in rw keys (num.listed k d there);
      in_range =
          λ k e h. let (d, there, same, till) = before k e h in rw same (num.in_range k d there);
      apart = λ j k a b ha hb eq.
          let (c, hc, same, till) = before j a ha in
          let (d, hd, same', till') = before k b hb in num.apart j k c d hc hd (cc);
      one = λ j k a b ha hb ta tb.
          let (c, hc, same, till) = before j a ha in
          let (d, hd, same', till') = before k b hb in num.one j k c d hc hd (till ta) (till' tb);
    }

-- Where the machines are numbered apart, they are after a retirement.
pub retire_device-IsNumbered :
    (actor : Actor) (id : RowId) (cash : Option ℕ) (s : Db) {r : Option ShiftWithEntries} {t : Db}
    → IsNumbered s
    → retire_device actor id cash s ≡ ok (r, t)
    → IsNumbered t
unfolding retire_device
retire_device-IsNumbered actor id cash s {r} {t} num h = ran _ _ _ h λ d a ea k.
    ran _ _ _ k λ shift b eb k. ran _ _ _ k λ u1 c ec k. ran _ _ _ k λ u2 e ed k.
      let (found, live, a_same) = lock_device-ok id s ea in
      let frame = close_for_retirement-rest id cash a eb in retire-IsNumbered s id t num (cc) (cc)

retired_refuses :
    (actor : Actor) (id : RowId) (cash : Option ℕ) (d : Device) (t : Db)
    → t.devices id ≡ some (retired_device d)
    → drawer_of id t.shifts ≡ none
    → (require_open_shift_id_for id t ≡ err no_open_shift)
      × (retire_device actor id cash t ≡ err device_already_retired)
unfolding retire_device lock_device require_open_shift_id_for ◌>>=◌
retired_refuses actor id cash d t stored empty =
    (ground (arith, open_drawer_of-none id t.shifts empty), rw stored refl)

-- Where the machines are numbered apart and no machine has two current drawers: after a retirement
-- that returned both still hold, the machine keeps its number, role and label, is marked retired
-- and has lost its enrolment code, it has no current drawer, and a bill that wants an open one and a second
-- retirement are refused.
pub retire_device_fences :
    (actor actor' : Actor) (id : RowId) (cash cash' : Option ℕ) (s : Db)
    {r : Option ShiftWithEntries} {t : Db}
    → IsNumbered s
    → OneDrawer s.shifts
    → retire_device actor id cash s ≡ ok (r, t)
    → IsNumbered t
      × ((d : Device) × (s.devices id ≡ some d)
          × (d.retired ≡ false)
          × ((e : Device) × (t.devices id ≡ some e)
              × (e.device_no ≡ d.device_no)
              × (e.role ≡ d.role)
              × (e.label ≡ d.label)
              × (e.enrol_code_hash ≡ none)
              × (e.retired ≡ true)))
      × (drawer_of id t.shifts ≡ none)
      × (require_open_shift_id_for id t ≡ err no_open_shift)
      × (retire_device actor' id cash' t ≡ err device_already_retired)
unfolding retire_device
retire_device_fences actor actor' id cash cash' s {r} {t} num one h = ran _ _ _ h λ d a ea k.
    ran _ _ _ k λ shift b eb k. ran _ _ _ k λ u1 c ec k. ran _ _ _ k λ u2 e ed k.
      let (found, live, a_same) = lock_device-ok id s ea in
      let (empty, _) = close_for_retirement_archives id cash a (rw a_same one) eb in
      let frame = close_for_retirement-rest id cash a eb in
      let rows : t.devices ≡ update id retired_device s.devices = cc in
      let drawers : t.shifts ≡ b.shifts = cc in
      let stored : t.devices id ≡ some (retired_device d) =
        rw rows (update_self id retired_device s.devices d found) in
      let (refused, again) = retired_refuses actor' id cash' d t stored (rw drawers empty) in
      (
        retire_device-IsNumbered actor id cash s num h,
        (d, found, live, (retired_device d, stored, refl, refl, refl, refl, refl)),
        rw drawers empty,
        refused,
        again,
      )
