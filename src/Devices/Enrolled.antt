-- ===== src/Devices/Enrolled.antt =====
-- Enrolling a machine.
use jenkin_sri_store.Prelude.{
  ◌+◌, ◌≤◌, ◌<◌, ◌≡◌, refl, sym, arith, true, false, none, some, [], ◌∷◌, ◌++◌, ◌==◌, ◌⊎◌, leb, not,
  Bool-cases, inl, inr,
}
use jenkin_sri_store.Store.{
  Text, RowId, Table, put, put_self, Device, DeviceRole, Db, ok, ran, throw_if-ok,
  device_no_exhausted,
}
use jenkin_sri_store.Shifts.{Actor}
use jenkin_sri_store.Devices.{
  max_device_no, NewDevice, is_pos, is_till, live_till, last_device_no, new_device, insert_device,
  create_device,
}
use jenkin_sri_store.Devices.Tills.{
  IsNumbered, is_key-append_old, is_key-append_new, no_of-last, live_till-none, one_till-ok,
}

-- A row of the table after an insert: the new one or one that was there.
put-cases :
    (n k : RowId) (d e : Device) (t : Table Device)
    → put n d t k ≡ some e
    → ((n ≡ k) × (d ≡ e)) ⊎ (t k ≡ some e)
put-cases n k d e t h = elim (Bool-cases (n == k)) [
  | inl same ↦ inl (ground arith, ground arith)
  | inr other ↦ inr (ground arith)
]

is_pos-eq : (role : DeviceRole) → is_pos role ≡ true → role ≡ DeviceRole.pos
is_pos-eq DeviceRole.pos h = refl
is_pos-eq DeviceRole.backoffice h = absurd (ground arith)

is_till-role : (d : Device) → is_till d ≡ true → d.role ≡ DeviceRole.pos
is_till-role d h = is_pos-eq d.role (ground arith)

module _ (s : Db) (num : IsNumbered s) where
  older :
      (k : RowId) (e : Device)
      → s.devices k ≡ some e
      → e.device_no ≤ last_device_no s.device_ids s.devices
  older k e h = let below = no_of-last k s.device_ids s.devices (num.listed k e h) in ground arith

  no_till :
      (k : RowId) (e : Device)
      → live_till s.device_ids s.devices ≡ none
      → s.devices k ≡ some e
      → is_till e ≡ false
  no_till k e free h =
      let off = live_till-none k s.device_ids s.devices free (num.listed k e h) in rw h at off

  insert-IsNumbered :
      (n : RowId) (d : Device) (t : Db)
      → d.device_no ≡ last_device_no s.device_ids s.devices + 1
      → d.device_no ≤ 99
      → (d.role ≡ DeviceRole.pos → live_till s.device_ids s.devices ≡ none)
      → t.devices ≡ put n d s.devices
      → t.device_ids ≡ s.device_ids ++ n ∷ []
      → IsNumbered t
  insert-IsNumbered n d t number small alone rows keys =
      let cases : (k : RowId) (e : Device)
          → t.devices k ≡ some e
          → ((n ≡ k) × (d ≡ e)) ⊎ (s.devices k ≡ some e) =
        λ k e h. put-cases n k d e s.devices (rw rows at h) in
      record {
        listed = λ k e h. elim (cases k e h) [
          | inl (same, _) ↦ rw keys (rw same (is_key-append_new k s.device_ids))
          | inr old ↦ rw keys (is_key-append_old k n s.device_ids (num.listed k e old))
        ];
        in_range = λ k e h. elim (cases k e h) [
          | inl (_, same) ↦ rw (sym same) (omega arith, small)
          | inr old ↦ num.in_range k e old
        ];
        apart = λ j k a b ha hb same. elim (cases j a ha) [
          | inl (nj, da) ↦ elim (cases k b hb) [
            | inl (nk, db) ↦ cc
            | inr old ↦ let below = older k b old in absurd (ground arith)
          ]
          | inr olda ↦ elim (cases k b hb) [
            | inl (nk, db) ↦ let below = older j a olda in absurd (ground arith)
            | inr old ↦ num.apart j k a b olda old same
          ]
        ];
        one = λ j k a b ha hb ta tb. elim (cases j a ha) [
          | inl (nj, da) ↦ elim (cases k b hb) [
            | inl (nk, db) ↦ cc
            | inr old ↦ let off = no_till k b (alone (is_till-role d (rw da ta))) old in absurd (cc)
          ]
          | inr olda ↦ elim (cases k b hb) [
            | inl (nk, db) ↦
                let off = no_till j a (alone (is_till-role d (rw db tb))) olda in absurd (cc)
            | inr old ↦ num.one j k a b olda old ta tb
          ]
        ];
      }

-- Where the machines are numbered apart: enrolling one that returned keeps that so, gives the new
-- machine a number no earlier machine had, retired ones included, and stores the hash of its code.
pub create_device_numbers :
    (input : NewDevice) (code_hash : Text) (actor : Actor) (s : Db) {id : RowId} {t : Db}
    → IsNumbered s
    → create_device input code_hash actor s ≡ ok (id, t)
    → IsNumbered t
      × ((d : Device) × (t.devices id ≡ some d)
          × (d.enrol_code_hash ≡ some code_hash)
          × (d.retired ≡ false)
          × ((k : RowId) (e : Device) → s.devices k ≡ some e → e.device_no < d.device_no))
unfolding create_device insert_device
create_device_numbers input code_hash actor s {id} {t} num h = ran _ _ _ h λ u1 a ea k.
    ran _ _ _ k λ last b eb k. ran _ _ _ k λ u2 c ec k. ran _ _ _ k λ new d ed k.
      ran _ _ _ k λ u3 e ee k.
        let (a_same, alone) = one_till-ok input.role s ea in
        let (fits, c_same) =
          throw_if-ok (not (leb (last + 1) max_device_no)) device_no_exhausted b ec in
        let number : last ≡ last_device_no s.device_ids s.devices = cc in
        let c_is : c ≡ s = cc in
        let rows : t.devices ≡ put id (new_device input (last + 1) code_hash) s.devices = cc in
        let keys : t.device_ids ≡ s.device_ids ++ id ∷ [] = cc in
        (
          insert-IsNumbered s num id (new_device input (last + 1) code_hash) t (ground arith)
              (ground arith) alone rows keys,
          (
            new_device input (last + 1) code_hash,
            rw rows (put_self id (new_device input (last + 1) code_hash) s.devices),
            refl,
            refl,
            λ k e found. let below = older s num k e found in ground arith,
          ),
        )
