-- ===== src/Tests/Drawers.antt =====
-- The drawer of the machine.
use jenkin_sri_store.Prelude.{◌≡◌, refl, arith, true, none, [], keep, rewrite}
use jenkin_sri_store.Store.{
  EntryType, Db, ok, err, new_id, ◌>>=◌, no_open_shift, shift_already_closed, drawer_closed,
}
use jenkin_sri_store.Shifts.{
  ShiftWithEntries, latest, drawer_of, update_shift, lock_active, insert_shift, start_drawer,
  open_after, open_shift, close, add_entry, require_open_shift_id_for,
}
use jenkin_sri_store.Shifts.Drawer.{OneDrawer}
use jenkin_sri_store.Shifts.Closing.{close_settles}
use jenkin_sri_store.Tests.Shop.{shop, drawer, clerk, rows_of, answer_of, returned, returned-eq}

abbrev no_drawer : ShiftWithEntries
no_drawer = record { shift = drawer; entries = [] }

pub shop-OneDrawer : OneDrawer shop.shifts
unfolding keep
shop-OneDrawer device = ground arith

-- The next day, on which the drawer that was left open is archived.
abbrev next_day : Db
next_day = record shop { today = 21; now = 9 }

abbrev opened_day : Db
opened_day = rows_of (open_shift clerk 50000 next_day)

open_returns : returned (open_shift clerk 50000 next_day) ≡ true
unfolding open_shift open_after start_drawer insert_shift update_shift drawer_of latest keep rewrite
    new_id ◌>>=◌
open_returns = refl

open_ran :
    open_shift clerk 50000 next_day
    ≡ ok (answer_of no_drawer (open_shift clerk 50000 next_day), opened_day)
open_ran = returned-eq no_drawer (open_shift clerk 50000 next_day) open_returns

abbrev counted : Db
counted = rows_of (close 1 123400 shop)

close_returns : returned (close 1 123400 shop) ≡ true
unfolding close lock_active update_shift drawer_of latest keep rewrite ◌>>=◌
close_returns = refl

close_ran : close 1 123400 shop ≡ ok (answer_of no_drawer (close 1 123400 shop), counted)
close_ran = returned-eq no_drawer (close 1 123400 shop) close_returns

close_settles_example :
    (require_open_shift_id_for 1 counted ≡ err no_open_shift)
    × (close 1 99 counted ≡ err shift_already_closed)
    × (add_entry clerk EntryType.money_in 500 none counted ≡ err drawer_closed)
close_settles_example =
    close_settles 1 123400 99 clerk EntryType.money_in 500 none shop refl shop-OneDrawer close_ran
