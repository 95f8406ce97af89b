-- ===== src/Shifts.antt =====
-- The cash drawer (server/src/shifts/shifts.service.ts): at most one current drawer for each
-- device, and the drawer that a bill or a refund is stamped with.
pub mod Drawer
pub mod Opening
pub mod Closing
pub mod Rest
use jenkin_sri_store.Prelude.{
  ℕ, Bool, true, false, Option, none, some, List, [], ◌∷◌, ◌++◌, ◌&&◌, ◌||◌, leb, ◌==◌,
  if◌then◌else◌, keep, rewrite, sort_by,
}
use jenkin_sri_store.Documents.{number_of}
use jenkin_sri_store.Store.{
  Text, RowId, Shift, EntryType, DrawerEntry, Db, ok, err, Tx, pure, throw, throw_if, gets,
  or_throw, modify, new_id, ◌>>=◌, ◌>>◌, is_some, is_none, no_open_shift, shift_already_closed,
  drawer_closed, physical_cash_required, device_role_forbidden,
}

-- `Actor`: the user and the device of the token.
pub record Actor : Type 0 where
  pub user_id : RowId
  pub device_id : RowId

pub record ShiftWithEntries : Type 0 where
  pub shift : Shift
  pub entries : List DrawerEntry

-- `ORDER BY opened_at DESC LIMIT 1`.
unfoldable pub latest : List Shift → Option Shift
latest [] = none
latest (x ∷ xs) = elim (latest xs) [
  | none ↦ some x
  | some y ↦ if leb y.opened_at x.opened_at then some x else some y
]

-- `WHERE device_id = $2 AND is_active`, the current drawer of a device.
abbrev pub is_current : RowId → Shift → Bool
is_current device x = (x.device_id == device) && x.is_active

-- `… AND closed_at IS NULL`, the drawer that takes money.
abbrev pub is_open : RowId → Shift → Bool
is_open device x = is_current device x && is_none x.closed_at

unfoldable pub drawer_of : RowId → List Shift → Option Shift
unfolding latest
drawer_of device shifts = latest (keep (is_current device) shifts)

unfoldable pub open_drawer_of : RowId → List Shift → Option Shift
unfolding latest
open_drawer_of device shifts = latest (keep (is_open device) shifts)

-- `withEntries`: the newest entry first.
unfoldable pub with_entries : Shift → Db → ShiftWithEntries
with_entries shift s = record {
  shift = shift;
  entries =
      sort_by (λ x y. leb y.created_at x.created_at)
        (keep (λ x. x.shift_id == shift.id) s.drawer_entries);
}

-- `UPDATE shifts … WHERE id = $2`.
unfoldable pub update_shift : RowId → (Shift → Shift) → Tx (Unit {0})
update_shift id f = modify (λ s. record s { shifts = rewrite (λ x. x.id == id) f s.shifts })

-- `currentShiftIdFor` and `requireOpenShiftIdFor`.
unfoldable pub current_shift_id_for : RowId → Tx (Option RowId)
unfolding open_drawer_of
current_shift_id_for device s =
    ok (elim (open_drawer_of device s.shifts) [ none ↦ none | some x ↦ some x.id ], s)

unfoldable pub require_open_shift_id_for : RowId → Tx RowId
unfolding open_drawer_of
require_open_shift_id_for device s = elim (open_drawer_of device s.shifts) [
  | none ↦ err no_open_shift
  | some x ↦ ok (x.id, s)
]

-- `lockActive`.
unfoldable pub lock_active : RowId → Tx Shift
unfolding drawer_of
lock_active device s = or_throw (drawer_of device s.shifts) no_open_shift s

-- `COALESCE(archived_at, now())`.
abbrev pub coalesce : Option ℕ → ℕ → Option ℕ
coalesce none n = some n
coalesce (some m) n = some m

-- `archive`: a shift that was never closed is flagged, not discarded.
abbrev pub archived : ℕ → Shift → Shift
archived now x = record x {
  is_active = false;
  auto_archived = x.auto_archived || is_none x.closed_at;
  archived_at = coalesce x.archived_at now;
}

-- The row that `POST /shifts/open` inserts.
abbrev pub opened : RowId → Text → ℕ → ℕ → Actor → Shift
opened id today now starting_cash actor = record {
  id = id;
  date_str = today;
  starting_cash = starting_cash;
  opened_at = now;
  closed_at = none;
  physical_cash = none;
  is_active = true;
  auto_archived = false;
  archived_at = none;
  opened_by = some actor.user_id;
  device_id = actor.device_id;
}

-- `INSERT INTO shifts … ON CONFLICT (tenant_id, device_id) WHERE is_active DO NOTHING`, and the read
-- of the winner when it inserted nothing.
unfoldable pub insert_shift : Shift → Tx Shift
unfolding drawer_of
insert_shift x s = elim (drawer_of x.device_id s.shifts) [
  | none ↦ ok (x, record s { shifts = s.shifts ++ x ∷ [] })
  | some winner ↦ ok (winner, s)
]

-- A new drawer for the device, or the one that a request opened meanwhile.
unfoldable pub start_drawer : Actor → ℕ → Tx ShiftWithEntries
unfolding insert_shift new_id
start_drawer actor starting_cash = do
  id ← new_id
  row ← gets (λ s. opened id s.today s.now starting_cash actor)
  shift ← insert_shift row
  gets (with_entries shift)

-- The rest of `openIn`, once the device's current drawer has been read.
unfoldable pub open_after : Actor → ℕ → Option Shift → Tx ShiftWithEntries
unfolding update_shift
open_after actor starting_cash none = start_drawer actor starting_cash
open_after actor starting_cash (some active) = do
  today ← gets (λ s. s.today)
  now ← gets (λ s. s.now)
  let reopen : Tx ShiftWithEntries = gets (with_entries active)
  let archive : Tx (Unit {0}) = update_shift active.id (archived now)
  if active.date_str == today then reopen else (archive >> start_drawer actor starting_cash)

-- `openIn`.
unfoldable pub open_shift : Actor → ℕ → Tx ShiftWithEntries
open_shift actor starting_cash = do
  device ← gets (λ s. s.devices actor.device_id)
  number ← or_throw (number_of device) device_role_forbidden
  active ← gets (λ s. drawer_of actor.device_id s.shifts)
  open_after actor starting_cash active

-- `closeIn`: `closed_at` and the counted cash, once.
abbrev pub closed : ℕ → ℕ → Shift → Shift
closed now cash x = record x { closed_at = some now; physical_cash = some cash }

unfoldable pub close : RowId → ℕ → Tx ShiftWithEntries
unfolding lock_active update_shift
close device physical_cash = do
  shift ← lock_active device
  throw_if (is_some shift.closed_at) shift_already_closed
  now ← gets (λ s. s.now)
  update_shift shift.id (closed now physical_cash)
  gets (with_entries (closed now physical_cash shift))

-- `note ?? ''`: the id 0 stands for the empty text.
abbrev text_or_empty : Option Text → Text
text_or_empty none = 0
text_or_empty (some text) = text

-- `addEntryIn`.
unfoldable pub add_entry : Actor → EntryType → ℕ → Option Text → Tx DrawerEntry
unfolding lock_active new_id
add_entry actor type amount note = do
  shift ← lock_active actor.device_id
  throw_if (is_some shift.closed_at) drawer_closed
  id ← new_id
  now ← gets (λ s. s.now)
  let entry : DrawerEntry = record {
    id = id;
    shift_id = shift.id;
    type = type;
    amount = amount;
    note = text_or_empty note;
    created_at = now;
    created_by = actor.user_id;
  }
  modify (λ s. record s { drawer_entries = s.drawer_entries ++ entry ∷ [] })
  pure entry

-- `closeForRetirementIn`: the drawer of a machine that is retired is closed, if it still is open,
-- and archived in every case.
abbrev pub shelved : ℕ → Shift → Shift
shelved now x = record x { is_active = false; archived_at = coalesce x.archived_at now }

-- The close that an open drawer wants: without the counted cash it is refused.
unfoldable pub settle : RowId → Option ℕ → Shift → Option ℕ → Tx ShiftWithEntries
unfolding close
settle device physical_cash shift (some _) = gets (with_entries shift)
settle device none shift none = throw (physical_cash_required shift.id)
settle device (some cash) shift none = close device cash

unfoldable pub retire_drawer : RowId → Option ℕ → Option Shift → Tx (Option ShiftWithEntries)
unfolding update_shift
retire_drawer device physical_cash none = pure none
retire_drawer device physical_cash (some shift) = do
  result ← settle device physical_cash shift shift.closed_at
  now ← gets (λ s. s.now)
  update_shift shift.id (shelved now)
  pure (some (record { shift = shelved now result.shift; entries = result.entries }))

unfoldable pub close_for_retirement : RowId → Option ℕ → Tx (Option ShiftWithEntries)
close_for_retirement device physical_cash = do
  shift ← gets (λ s. drawer_of device s.shifts)
  retire_drawer device physical_cash shift
