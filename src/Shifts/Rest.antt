-- ===== src/Shifts/Rest.antt =====
-- The calls on a drawer write no other table than the drawers' own.
use jenkin_sri_store.Prelude.{
  ℕ, ◌≡◌, arith, Option, none, some, Bool-cases, inl, inr, ◌==◌, Option-cases,
}
use jenkin_sri_store.Documents.{number_of}
use jenkin_sri_store.Store.{
  Text, RowId, Shift, DrawerEntry, EntryType, Db, ok, ran, or_throw-ok, throw_if-ok, new_id,
  is_some, device_role_forbidden, no_open_shift, shift_already_closed, drawer_closed,
}
use jenkin_sri_store.Shifts.{
  Actor, ShiftWithEntries, drawer_of, lock_active, insert_shift, update_shift, settle,
  retire_drawer, start_drawer, open_after, open_shift, close, add_entry, close_for_retirement,
}

abbrev pub OnlyDrawers : Db → Db → Type 0
OnlyDrawers s t =
    t ≡ record s { shifts = t.shifts; drawer_entries = t.drawer_entries; next_id = t.next_id }

insert_shift-rest :
    (x : Shift) (s : Db) {y : Shift} {t : Db} → insert_shift x s ≡ ok (y, t) → OnlyDrawers s t
unfolding insert_shift
insert_shift-rest x s h = elim (Option-cases (drawer_of x.device_id s.shifts)) [
  | inl free ↦ ground arith
  | inr (w, taken) ↦ ground arith
]

start_drawer-rest :
    (actor : Actor) (cash : ℕ) (s : Db) {r : ShiftWithEntries} {t : Db}
    → start_drawer actor cash s ≡ ok (r, t)
    → OnlyDrawers s t
unfolding start_drawer new_id
start_drawer-rest actor cash s h = ran _ _ _ h λ id u e k.
    ran _ _ _ k
      λ row v e' k'. ran _ _ _ k' λ shift w e'' k''. let put = insert_shift-rest row v e'' in cc

open_after-rest :
    (actor : Actor) (cash : ℕ) (active : Option Shift) (s : Db) {r : ShiftWithEntries} {t : Db}
    → open_after actor cash active s ≡ ok (r, t)
    → OnlyDrawers s t
unfolding open_after update_shift
open_after-rest actor cash none s h = start_drawer-rest actor cash s h
open_after-rest actor cash (some active) s {r} {t} h = ran _ _ _ h λ today u e k.
    ran _ _ _ k λ now v e' k'. elim (Bool-cases (active.date_str == today)) [
      | inl again ↦ ground arith
      | inr later ↦
          ran _ _ _ (rw later at k')
            λ a w e'' k''. let started = start_drawer-rest actor cash w k'' in cc
    ]

pub open_shift-rest :
    (actor : Actor) (cash : ℕ) (s : Db) {r : ShiftWithEntries} {t : Db}
    → open_shift actor cash s ≡ ok (r, t)
    → OnlyDrawers s t
unfolding open_shift
open_shift-rest actor cash s h = ran _ _ _ h λ d u e k. ran _ _ _ k λ n v e' k'.
    ran _ _ _ k' λ active w e'' k''.
      let (known, same) = or_throw-ok (number_of d) device_role_forbidden u e' in
      let opened = open_after-rest actor cash active w k'' in cc

pub close-rest :
    (device : RowId) (cash : ℕ) (s : Db) {r : ShiftWithEntries} {t : Db}
    → close device cash s ≡ ok (r, t)
    → OnlyDrawers s t
unfolding close lock_active update_shift
close-rest device cash s h = ran _ _ _ h λ x u e k. ran _ _ _ k λ a v e' k'.
    ran _ _ _ k' λ now w e'' k''. ran _ _ _ k'' λ b y f k3.
      let (found, same) = or_throw-ok (drawer_of device s.shifts) no_open_shift s e in
      let (live, same') = throw_if-ok (is_some x.closed_at) shift_already_closed u e' in cc

pub add_entry-rest :
    (actor : Actor) (type : EntryType) (amount : ℕ) (text : Option Text) (s : Db) {r : DrawerEntry}
    {t : Db}
    → add_entry actor type amount text s ≡ ok (r, t)
    → (t.shifts ≡ s.shifts) × OnlyDrawers s t
unfolding add_entry lock_active new_id
add_entry-rest actor type amount text s h = ran _ _ _ h λ x u e k. ran _ _ _ k λ a v e' k'.
    ran _ _ _ k' λ id w e'' k''. ran _ _ _ k'' λ now y f k3. ran _ _ _ k3 λ b z g k4.
      let (found, same) = or_throw-ok (drawer_of actor.device_id s.shifts) no_open_shift s e in
      let (live, same') = throw_if-ok (is_some x.closed_at) drawer_closed u e' in (cc, cc)

settle-rest :
    (device : RowId) (cash : Option ℕ) (x : Shift) (o : Option ℕ) (s : Db) {r : ShiftWithEntries}
    {t : Db}
    → settle device cash x o s ≡ ok (r, t)
    → OnlyDrawers s t
unfolding settle
settle-rest device cash x (some n) s h = ground arith
settle-rest device none x none s h = cc
settle-rest device (some n) x none s h = close-rest device n s h

pub close_for_retirement-rest :
    (device : RowId) (cash : Option ℕ) (s : Db) {r : Option ShiftWithEntries} {t : Db}
    → close_for_retirement device cash s ≡ ok (r, t)
    → OnlyDrawers s t
unfolding close_for_retirement retire_drawer update_shift
close_for_retirement-rest device cash s {r} {t} h = ran _ _ _ h λ x u e k. elim (Option-cases x) [
  | inl empty ↦ ground arith
  | inr (y, there) ↦ ran _ _ _ (rw there at k) λ result v e' k'. ran _ _ _ k' λ now w f k2.
      ran _ _ _ k2 λ a z g k3. let settled = settle-rest device cash y y.closed_at u e' in cc
]
