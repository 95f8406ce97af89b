-- ===== src/Requests/Reached.antt =====
-- What holds of the shop after any number of requests.
use jenkin_sri_store.Prelude.{ℕ, refl}
use jenkin_sri_store.Store.{Text, RowId, Db}
use jenkin_sri_store.Shifts.Drawer.{OneDrawer}
use jenkin_sri_store.Sales.Movements.{
  IsSettled, Posted, Posted-same, Posted-trans, Posted-IsSettled,
}
use jenkin_sri_store.Sales.Void.RoundTrip.{HaveBills}
use jenkin_sri_store.Returns.Create.Refunds.{IsWithin}
use jenkin_sri_store.PurchaseOrders.Receipt.Runnings.{OneRow}
use jenkin_sri_store.Devices.Tills.{IsNumbered}
use jenkin_sri_store.Requests.Machines.{Step-IsNumbered}
use jenkin_sri_store.Requests.{Step, Reach, here, next}
use jenkin_sri_store.Requests.Keeps.{Step-Keeps}
use jenkin_sri_store.Requests.Ledger.{Step-Posted}

-- The invariant of the shop: the movements come to the stock, no bill has had more come back than
-- it sold, no device has two drawers, every line has its bill, a key is no two products,
-- and the machines are numbered apart.
pub record IsSound (opening : RowId → ℕ) (s : Db) : Type 0 where
  pub settled : IsSettled opening s
  pub refunds : IsWithin s
  pub drawers : OneDrawer s.shifts
  pub bills : HaveBills s
  pub keys : OneRow s.product_ids
  pub machines : IsNumbered s

module _ (lower : Text → Text) where
  Step-IsSound :
      (opening : RowId → ℕ) {s t : Db} → IsSound opening s → Step lower s t → IsSound opening t
  Step-IsSound opening {s} {t} i step =
      let k = Step-Keeps lower i.keys step in
      record {
        settled = Posted-IsSettled opening (Step-Posted lower i.keys step) i.settled;
        refunds = k.refunds i.refunds;
        drawers = k.drawers i.drawers;
        bills = k.bills i.bills;
        keys = rw k.keys i.keys;
        machines = Step-IsNumbered lower i.keys step i.machines;
      }

-- The invariant of the shop outlives any number of requests in any order, bills, voids, credit
-- notes, purchase orders, corrections, payments, quotes, drawers and machines, with the clock
-- moving between them: the movements come to the stock of every product, no bill has had more come
-- back of a product at a price than it sold, no device has two current drawers, every line has its
-- bill, a key is no two products, the machines are numbered apart from 1 to 99, and one till at
-- most is not retired. The edits of the list of products are not among the requests.
pub Reach-IsSound :
    (lower : Text → Text) (opening : RowId → ℕ) {s t : Db}
    → IsSound opening s
    → Reach lower s t
    → IsSound opening t
Reach-IsSound lower opening i here = i
Reach-IsSound lower opening i (next r step) =
    Step-IsSound lower opening (Reach-IsSound lower opening i r) step

pub Reach-keys :
    (lower : Text → Text) {s t : Db} → OneRow s.product_ids → Reach lower s t → OneRow t.product_ids
Reach-keys lower one here = one
Reach-keys lower one (next r step) =
    let k = Step-Keeps lower (Reach-keys lower one r) step in rw k.keys (Reach-keys lower one r)

-- Any number of bills, voids, credit notes, purchase orders with their receipts, corrections of the
-- count, payments, quotes, drawers and machines, in any order, refines the ledger of the stock: they
-- only append movements, rewrite none, and leave each product with what the new movements come to
-- from what it had. A key is no two products. The edits of the list of products are not among
-- them: a product that is created with a stock has no movement for it.
pub Reach-Posted :
    (lower : Text → Text) {s t : Db} → OneRow s.product_ids → Reach lower s t → Posted s t
Reach-Posted lower one here = Posted-same refl refl
Reach-Posted lower one (next r step) =
    Posted-trans (Reach-Posted lower one r) (Step-Posted lower (Reach-keys lower one r) step)
