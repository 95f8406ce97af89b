-- ===== src/Shifts/Closing.antt =====
-- Closing the drawer, and retiring its machine (`POST /shifts/close`, `closeForRetirement`).
use jenkin_sri_store.Prelude.{ℕ, ◌≡◌, refl, ap, true, Option, none, some, arith, rewrite, ◌==◌}
use jenkin_sri_store.Store.{
  Text, RowId, Shift, EntryType, Db, ok, err, ran, or_throw-ok, throw_if-ok, ◌>>=◌, is_some,
  no_open_shift, shift_already_closed, drawer_closed,
}
use jenkin_sri_store.Shifts.{
  Actor, ShiftWithEntries, latest, is_current, drawer_of, with_entries, update_shift, lock_active,
  closed, shelved, close, settle, retire_drawer, add_entry, close_for_retirement,
  require_open_shift_id_for,
}
use jenkin_sri_store.Shifts.Drawer.{
  OneDrawer, keep-rewrite_last, latest-keep-rewrite, open_drawer_of-drawer, open_drawer_of-none,
}
use jenkin_sri_store.Shifts.Opening.{rewrite-OneDrawer}

-- What a close did: the drawer that was open is stamped and counted, and stays the current one.
pub record Closed (device : RowId) (cash : ℕ) (s : Db) (r : ShiftWithEntries) (t : Db)
    : Type 0 where
  pub before : Shift
  pub found : drawer_of device s.shifts ≡ some before
  pub was_open : before.closed_at ≡ none
  pub current : drawer_of device t.shifts ≡ some (closed s.now cash before)
  pub answer : r.shift ≡ closed s.now cash before
  pub one : OneDrawer t.shifts

-- Where no device has two current drawers, a close that returned stamped the device's open drawer
-- with the time and the counted cash; that drawer stays the device's current one, and no device
-- has two.
pub close-Closed :
    (device : RowId) (cash : ℕ) (s : Db) {r : ShiftWithEntries} {t : Db}
    → OneDrawer s.shifts
    → close device cash s ≡ ok (r, t)
    → Closed device cash s r t
unfolding close lock_active update_shift with_entries drawer_of
close-Closed device cash s {r} {t} one h = ran _ _ _ h λ x u e k. ran _ _ _ k λ a v e' k'.
    ran _ _ _ k' λ now w e'' k''. ran _ _ _ k'' λ b y f k3.
      let (found, same) = or_throw-ok (drawer_of device s.shifts) no_open_shift s e in
      let (not_closed, same') = throw_if-ok (is_some x.closed_at) shift_already_closed u e' in
      let w_same : w ≡ s = ground arith in
      let now_eq : now ≡ s.now = ground arith in
      let shifts : t.shifts ≡ rewrite (λ z. z.id == x.id) (closed s.now cash) s.shifts =
        ground arith in
      record {
        before = x;
        found = found;
        was_open = ground arith;
        current = rw shifts (
            latest-keep-rewrite (is_current device) (λ z. z.id == x.id) (closed s.now cash)
              (λ z. refl) s.shifts x (one device) found (ground arith));
        answer = ground arith;
        one = rw shifts (rewrite-OneDrawer _ (closed s.now cash) s.shifts (λ d z p. p) one);
      }

-- What the other calls answer on a device whose current drawer has been closed.
closed_refuses :
    (device : RowId) (x : Shift) (cash : ℕ) (actor : Actor) (type : EntryType) (amount : ℕ)
    (note : Option Text) (t : Db)
    → actor.device_id ≡ device
    → OneDrawer t.shifts
    → drawer_of device t.shifts ≡ some x
    → is_some x.closed_at ≡ true
    → (require_open_shift_id_for device t ≡ err no_open_shift)
      × (close device cash t ≡ err shift_already_closed)
      × (add_entry actor type amount note t ≡ err drawer_closed)
unfolding require_open_shift_id_for close lock_active add_entry ◌>>=◌
closed_refuses device x cash actor type amount remark t same one found stamped = (
  ground (arith, open_drawer_of-drawer device t.shifts x one found),
  rw found (rw stamped refl),
  rw same (rw found (rw stamped refl)),
)

-- Where no device has two current drawers: once the drawer is closed, a bill that wants an open
-- one, a second close and a cash entry are each refused.
pub close_settles :
    (device : RowId) (cash cash' : ℕ) (actor : Actor) (type : EntryType) (amount : ℕ)
    (note : Option Text) (s : Db) {r : ShiftWithEntries} {t : Db}
    → actor.device_id ≡ device
    → OneDrawer s.shifts
    → close device cash s ≡ ok (r, t)
    → (require_open_shift_id_for device t ≡ err no_open_shift)
      × (close device cash' t ≡ err shift_already_closed)
      × (add_entry actor type amount note t ≡ err drawer_closed)
close_settles device cash cash' actor type amount remark s {r} {t} same one h =
    let c = close-Closed device cash s one h in
    closed_refuses device (closed s.now cash c.before) cash' actor type amount remark t same c.one
      c.current refl

settle-drawer :
    (device : RowId) (cash : Option ℕ) (x : Shift) (stamp : Option ℕ) (s : Db)
    {r : ShiftWithEntries} {t : Db}
    → OneDrawer s.shifts
    → drawer_of device s.shifts ≡ some x
    → settle device cash x stamp s ≡ ok (r, t)
    → OneDrawer t.shifts × ((y : Shift) × (drawer_of device t.shifts ≡ some y) × (y.id ≡ x.id))
unfolding settle
settle-drawer device cash x (some n) s {r} {t} one found h =
    let same : t ≡ s = ground arith in (rw same one, (x, rw same found, refl))
settle-drawer device none x none s one found h = cc
settle-drawer device (some n) x none s one found h =
    let c = close-Closed device n s one h in
    let before : c.before ≡ x = cc (c.found) in
    (c.one, (closed s.now n c.before, c.current, ap (λ (z : Shift). z.id) before))

retire_drawer-none :
    (device : RowId) (cash : Option ℕ) (x : Option Shift) (s : Db) {r : Option ShiftWithEntries}
    {t : Db}
    → OneDrawer s.shifts
    → drawer_of device s.shifts ≡ x
    → retire_drawer device cash x s ≡ ok (r, t)
    → drawer_of device t.shifts ≡ none
unfolding retire_drawer update_shift
retire_drawer-none device cash none s {r} {t} one found h =
    let e : t ≡ s = ground arith in rw e found
retire_drawer-none device cash (some x) s {r} {t} one found h = ran _ _ _ h λ result u e k.
    ran _ _ _ k λ now v e' k'. ran _ _ _ k' λ a w e'' k''.
      let (one', (y, current, same)) = settle-drawer device cash x x.closed_at s one found e in
      let shifts : t.shifts ≡ rewrite (λ z. z.id == x.id) (shelved now) u.shifts = ground arith in
      rw shifts (
        unfold drawer_of latest in
        rw
          (keep-rewrite_last (is_current device) (λ z. z.id == x.id) (shelved now)
            (λ z. ground arith) u.shifts y (one' device) current (ground arith))
          refl)

-- Where no device has two current drawers: after a retirement that returned, the device has no
-- current drawer, and a bill that wants an open one is refused.
pub close_for_retirement_archives :
    (device : RowId) (cash : Option ℕ) (s : Db) {r : Option ShiftWithEntries} {t : Db}
    → OneDrawer s.shifts
    → close_for_retirement device cash s ≡ ok (r, t)
    → (drawer_of device t.shifts ≡ none) × (require_open_shift_id_for device t ≡ err no_open_shift)
unfolding close_for_retirement require_open_shift_id_for
close_for_retirement_archives device cash s {r} {t} one h = ran _ _ _ h λ x u e k.
    let same : u ≡ s = ground arith in
    let found : drawer_of device u.shifts ≡ x = ground arith in
    let gone = retire_drawer-none device cash x u (rw same one) found k in
    (gone, ground (arith, open_drawer_of-none device t.shifts gone))
