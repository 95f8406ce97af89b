-- ===== src/Shifts/Opening.antt =====
-- Opening the drawer (`POST /shifts/open`).
use jenkin_sri_store.Prelude.{
  ℕ, ◌≡◌, refl, sym, ap, ◌∙◌, Bool, true, Option, none, some, List, [], ◌∷◌, ◌++◌, inl, inr, arith,
  keep, keep-append, length-append, rewrite, Bool-cases, Option-cases, ◌==◌, ==→eq,
}
use jenkin_sri_store.Documents.{number_of}
use jenkin_sri_store.Store.{
  RowId, Shift, Db, ok, ran, or_throw-ok, ◌>>=◌, new_id, device_role_forbidden,
}
use jenkin_sri_store.Shifts.{
  Actor, ShiftWithEntries, latest, is_current, drawer_of, with_entries, update_shift, insert_shift,
  archived, start_drawer, open_after, open_shift,
}
use jenkin_sri_store.Shifts.Drawer.{
  OneDrawer, latest-eq-none, length-keep-rewrite, keep-rewrite_last,
}

-- A row added for a device with no current drawer keeps the index unique.
add-OneDrawer :
    (xs : List Shift) (x : Shift)
    → OneDrawer xs
    → drawer_of x.device_id xs ≡ none
    → OneDrawer (xs ++ x ∷ [])
unfolding drawer_of keep
add-OneDrawer xs x one free device =
    let nothing : keep (is_current x.device_id) xs ≡ [] = latest-eq-none _ free in
    rw (keep-append (is_current device) xs (x ∷ [])) (
      rw (length-append {0} (keep (is_current device) xs))
        (elim (Bool-cases (x.device_id == device)) [
          | inl e ↦
              let same : x.device_id ≡ device = ==→eq _ _ e in
              let here : keep (is_current device) xs ≡ [] = rw same at nothing in
              rw here (ground arith)
          | inr e ↦ rw e (omega (arith, one device))
        ]))

insert_shift-OneDrawer :
    (x : Shift) (s : Db) {r : Shift} {t : Db}
    → OneDrawer s.shifts
    → insert_shift x s ≡ ok (r, t)
    → OneDrawer t.shifts
unfolding insert_shift
insert_shift-OneDrawer x s {r} {t} one h = elim (Option-cases (drawer_of x.device_id s.shifts)) [
  | inl free ↦
      let e : t.shifts ≡ s.shifts ++ x ∷ [] = ground arith in
      rw e (add-OneDrawer s.shifts x one free)
  | inr (w, taken) ↦ let e : t.shifts ≡ s.shifts = ground arith in rw e one
]

start_drawer-OneDrawer :
    (actor : Actor) (cash : ℕ) (s : Db) {r : ShiftWithEntries} {t : Db}
    → OneDrawer s.shifts
    → start_drawer actor cash s ≡ ok (r, t)
    → OneDrawer t.shifts
unfolding start_drawer new_id
start_drawer-OneDrawer actor cash s {r} {t} one h = ran _ _ _ h λ id u e k.
    ran _ _ _ k λ row v e' k'. ran _ _ _ k' λ shift w e'' k''.
      let same : v.shifts ≡ s.shifts = ground arith in
      let last : t.shifts ≡ w.shifts = ground arith in
      rw last (insert_shift-OneDrawer row v (rw same one) e'')

-- Rewriting rows without making any of them current keeps the index unique.
pub rewrite-OneDrawer :
    (q : Shift → Bool) (f : Shift → Shift) (xs : List Shift)
    → ((device : RowId) (x : Shift) → is_current device (f x) ≡ true → is_current device x ≡ true)
    → OneDrawer xs
    → OneDrawer (rewrite q f xs)
rewrite-OneDrawer q f xs h one device =
    omega (arith, length-keep-rewrite (is_current device) q f (h device) xs, one device)

archive-OneDrawer :
    (id : RowId) (now : ℕ) (s : Db) {a : Unit {0}} {t : Db}
    → OneDrawer s.shifts
    → update_shift id (archived now) s ≡ ok (a, t)
    → OneDrawer t.shifts
unfolding update_shift
archive-OneDrawer id now s {a} {t} one h =
    let e : t.shifts ≡ rewrite (λ x. x.id == id) (archived now) s.shifts = ground arith in
    rw e (rewrite-OneDrawer _ (archived now) s.shifts (λ device x k. ground arith) one)

open_after-OneDrawer :
    (actor : Actor) (cash : ℕ) (active : Option Shift) (s : Db) {r : ShiftWithEntries} {t : Db}
    → OneDrawer s.shifts
    → open_after actor cash active s ≡ ok (r, t)
    → OneDrawer t.shifts
unfolding open_after
open_after-OneDrawer actor cash none s one h = start_drawer-OneDrawer actor cash s one h
open_after-OneDrawer actor cash (some active) s {r} {t} one h = ran _ _ _ h λ today u e k.
    ran _ _ _ k λ now v e' k'.
      let same : v ≡ s = ground arith in
      elim (Bool-cases (active.date_str == today)) [
        | inl again ↦ let t_same : t ≡ s = ground arith in rw t_same one
        | inr later ↦ ran _ _ _ (rw later at k') λ a w e'' k''.
            start_drawer-OneDrawer actor cash w
              (archive-OneDrawer active.id now v (rw same one) e'') k''
      ]

-- If no device has two current drawers, then none has after a drawer was opened.
pub open_shift-OneDrawer :
    (actor : Actor) (cash : ℕ) (s : Db) {r : ShiftWithEntries} {t : Db}
    → OneDrawer s.shifts
    → open_shift actor cash s ≡ ok (r, t)
    → OneDrawer t.shifts
unfolding open_shift
open_shift-OneDrawer actor cash s one h = ran _ _ _ h λ d u e k. ran _ _ _ k λ n v e' k'.
    ran _ _ _ k' λ active w e'' k''.
      let same : w ≡ s = ground (arith, or_throw-ok (number_of d) device_role_forbidden u e') in
      open_after-OneDrawer actor cash active w (rw same one) k''

-- The drawer that the caller is handed: the device's current one, of today, with its entries.
pub record IsToday (device : RowId) (r : ShiftWithEntries) (t : Db) : Type 0 where
  pub current : drawer_of device t.shifts ≡ some r.shift
  pub dated : r.shift.date_str ≡ t.today
  pub listed : r ≡ with_entries r.shift t

insert_shift-current :
    (x : Shift) (s : Db) {r : Shift} {t : Db}
    → drawer_of x.device_id s.shifts ≡ none
    → x.is_active ≡ true
    → insert_shift x s ≡ ok (r, t)
    → (r ≡ x) × (drawer_of x.device_id t.shifts ≡ some x) × (t ≡ record s { shifts = t.shifts })
unfolding insert_shift drawer_of keep latest
insert_shift-current x s {r} {t} free active h =
    let nothing : keep (is_current x.device_id) s.shifts ≡ [] = latest-eq-none _ free in
    let e : t.shifts ≡ s.shifts ++ x ∷ [] = ground arith in
    (
      ground arith,
      rw e
          (rw (keep-append (is_current x.device_id) s.shifts (x ∷ [])) (rw nothing (ground arith))),
      ground arith,
    )

with_entries-shift :
    {r : ShiftWithEntries} (x : Shift) (t : Db)
    → r ≡ with_entries x t
    → (r.shift ≡ x) × (r ≡ with_entries r.shift t)
unfolding with_entries
with_entries-shift {r} x t e =
    let same : r.shift ≡ x = ap (λ (y : ShiftWithEntries). y.shift) e in
    (same, e ∙ ap (λ (y : Shift). with_entries y t) (sym same))

start_drawer-IsToday :
    (actor : Actor) (cash : ℕ) (s : Db) {r : ShiftWithEntries} {t : Db}
    → drawer_of actor.device_id s.shifts ≡ none
    → start_drawer actor cash s ≡ ok (r, t)
    → IsToday actor.device_id r t × (t.devices ≡ s.devices) × (t.today ≡ s.today)
unfolding start_drawer new_id
start_drawer-IsToday actor cash s {r} {t} free h = ran _ _ _ h λ id u e k.
    ran _ _ _ k λ row v e' k'. ran _ _ _ k' λ shift w e'' k''.
      let shifts_same : v.shifts ≡ s.shifts = ground arith in
      let device_same : row.device_id ≡ actor.device_id = ground arith in
      let free_now : drawer_of row.device_id v.shifts ≡ none = rw (device_same, shifts_same) free in
      let (same, now, only) = insert_shift-current row v free_now (ground arith) e'' in
      let t_same : t ≡ w = ground arith in
      let (r_shift, listed) = with_entries-shift {r = r} shift t (ground arith) in
      let current : drawer_of actor.device_id t.shifts ≡ some r.shift = ground arith in
      (
        record { current = current; dated = ground arith; listed = listed },
        ground arith,
        ground arith,
      )

-- Archiving a device's one current drawer leaves it with none.
archived_drawer :
    (device : RowId) (x : Shift) (now : ℕ) (s t : Db) {a : Unit {0}}
    → OneDrawer s.shifts
    → drawer_of device s.shifts ≡ some x
    → update_shift x.id (archived now) s ≡ ok (a, t)
    → drawer_of device t.shifts ≡ none
unfolding drawer_of update_shift latest
archived_drawer device x now s t one found h =
    let e : t.shifts ≡ rewrite (λ y. y.id == x.id) (archived now) s.shifts = ground arith in
    let gone =
      keep-rewrite_last (is_current device) (λ y. y.id == x.id) (archived now) (λ y. ground arith)
        s.shifts x (one device) found (ground arith) in
    rw e (rw gone refl)

-- The drawer that a new day opens, once the last one is archived.
open_after-IsToday :
    (actor : Actor) (cash : ℕ) (active : Option Shift) (s : Db) {r : ShiftWithEntries} {t : Db}
    → OneDrawer s.shifts
    → drawer_of actor.device_id s.shifts ≡ active
    → open_after actor cash active s ≡ ok (r, t)
    → IsToday actor.device_id r t × (t.devices ≡ s.devices) × (t.today ≡ s.today)
unfolding open_after
open_after-IsToday actor cash none s one free h = start_drawer-IsToday actor cash s free h
open_after-IsToday actor cash (some active) s {r} {t} one found h = ran _ _ _ h λ today u e k.
    ran _ _ _ k λ now v e' k'.
      let same : v ≡ s = ground arith in
      elim (Bool-cases (active.date_str == today)) [
        | inl again ↦
            let t_same : t ≡ s = ground arith in
            let (r_shift, listed) = with_entries-shift {r = r} active t (ground arith) in
            (
              record {
                current = rw t_same (rw r_shift found);
                dated = ground arith;
                listed = listed;
              },
              ground arith,
              ground arith,
            )
        | inr later ↦ ran _ _ _ (rw later at k') λ a w e'' k''.
            let (is, devices, todays) =
              start_drawer-IsToday actor cash w
                (archived_drawer actor.device_id active now v w (rw same one) (rw same found) e'')
                k'' in
            (is, ground arith, ground arith)
      ]

opened_today :
    (actor : Actor) (cash : ℕ) (s : Db) {r : ShiftWithEntries} {t : Db}
    → OneDrawer s.shifts
    → open_shift actor cash s ≡ ok (r, t)
    → (n : ℕ) × (number_of (s.devices actor.device_id) ≡ some n)
      × IsToday actor.device_id r t
      × (t.devices ≡ s.devices)
      × (t.today ≡ s.today)
unfolding open_shift
opened_today actor cash s {r} {t} one h = ran _ _ _ h λ d u e k. ran _ _ _ k λ n v e' k'.
    ran _ _ _ k' λ active w e'' k''.
      let (known, back) = or_throw-ok (number_of d) device_role_forbidden u e' in
      let same : w ≡ s = ground arith in
      let found : drawer_of actor.device_id w.shifts ≡ active = ground arith in
      let (is, devices, todays) = open_after-IsToday actor cash active w (rw same one) found k'' in
      (n, ground arith, is, ground arith, ground arith)

-- Where no device has two current drawers: a drawer that has been opened is the device's current
-- drawer, dated today, and opening it again, with whatever starting cash, answers with it and
-- writes nothing.
pub open_shift_again :
    (actor : Actor) (cash cash' : ℕ) (s : Db) {r : ShiftWithEntries} {t : Db}
    → OneDrawer s.shifts
    → open_shift actor cash s ≡ ok (r, t)
    → (drawer_of actor.device_id t.shifts ≡ some r.shift)
      × (r.shift.date_str ≡ s.today)
      × (open_shift actor cash' t ≡ ok (r, t))
unfolding open_shift open_after ◌>>=◌
open_shift_again actor cash cash' s {r} {t} one h =
    let (number, known, is, devices, today) = opened_today actor cash s one h in
    (is.current, ground arith, ground (arith, is.current, is.dated, is.listed))
