-- ===== src/PurchaseOrders/Receipt/Accepted.antt =====
-- Which receipts are accepted.
use jenkin_sri_store.Prelude.{
  ◌+◌, ◌≤◌, ◌≡◌, refl, ap, subst, ◌∙◌, arith, All, false, Option, some, List, [], ◌∷◌, ◌==◌, ltb,
  leb, ◌++◌, rewrite, sum_by, sum_by-sort_by, keep, Option-cases, Bool-cases, inl, inr,
}
use jenkin_sri_store.Store.{
  Text, RowId, int4_max, Product, PoStatus, PurchaseOrder, PoLine, Table, Db, ok, each, ◌>>=◌,
  Returns, Returns-next, throw_if, on_commit, po_already_received, po_cancelled,
}
use jenkin_sri_store.Shifts.{Actor}
use jenkin_sri_store.Sales.Stock.Deduction.{stock_of}
use jenkin_sri_store.PurchaseOrders.{is_received, is_cancelled, lines_of_po, lock_po}
use jenkin_sri_store.PurchaseOrders.Receipt.{
  Running, Tally, add_to, state_of, lock_named, apply_line, apply_lines, touched_of, write_product,
  mark_received, close_receipt, receive_po,
}
use jenkin_sri_store.PurchaseOrders.Receipt.Runnings.{
  delta_of, OneRow, Tells, id_of, lock_named-OneEach, lock_named-delta, lock_named-Tells,
}
use jenkin_sri_store.PurchaseOrders.Receipt.Applied.{
  landed, brought, InStep, apply_line-InStep, landed-brought, Joins-All,
}
use jenkin_sri_store.PurchaseOrders.Receipt.Received.{ordered}

module _ (lower : Text → Text) where
  -- The running that a part number meets is one of the runnings.
  state_of-All :
      (P : Running → Type 0) (key : Text) (rs : List Running) (r : Running)
      → All P rs
      → state_of lower key rs ≡ some r
      → P r
  unfolding state_of
  state_of-All P key [] r h e = absurd (cc)
  state_of-All P key (x ∷ rs) r (one, h) e = elim (Option-cases (state_of lower key rs)) [
    | inl none_later ↦ elim (Bool-cases (lower x.part_no == lower key)) [
      | inl hit ↦ let same : x ≡ r = ground arith in subst P same one
      | inr miss ↦ absurd (ground arith)
    ]
    | inr (y, later) ↦
        let same : y ≡ r = ground arith in state_of-All P key rs r h (later ∙ ap some same)
  ]

  state_of-delta :
      (key : Text) (rs : List Running) (r : Running)
      → state_of lower key rs ≡ some r
      → r.delta ≤ sum_by (delta_of r.id) rs
  unfolding state_of sum_by
  state_of-delta key [] r e = cc
  state_of-delta key (x ∷ rs) r e = elim (Option-cases (state_of lower key rs)) [
    | inl none_later ↦ ground arith
    | inr (y, later) ↦
        let same : y ≡ r = ground arith in
        ground (arith, state_of-delta key rs r (later ∙ ap some same))
  ]

  module _ (products : Table Product) (lands : Text → Option RowId) where
    -- Room for the lines that are left, on top of what the runnings hold.
    abbrev HasRoom : List PoLine → List Running → Type 0
    HasRoom ls rs =
        (p : RowId)
        → stock_of (products p)
            + sum_by (delta_of p) rs
            + sum_by (λ (l : PoLine). landed (lands l.part_no) p l.qty) ls
          ≤ int4_max

    apply_line-Returns :
        (l : PoLine) (ls : List PoLine) (t : Tally) (s : Db)
        → InStep lower products lands t.runnings
        → HasRoom (l ∷ ls) t.runnings
        → Returns (apply_line lower l t) s
    unfolding apply_line sum_by
    apply_line-Returns l ls t s i room = elim (Option-cases (state_of lower l.part_no t.runnings)) [
      | inl e ↦ (record t { unmatched = t.unmatched ++ l.part_no ∷ [] }, s, rw e refl)
      | inr (r, e) ↦
          let tells = state_of-All (Tells products) l.part_no t.runnings r i.told e in
          let there : lands l.part_no ≡ some r.id = ground (arith, i.met l.part_no) in
          let here : landed (lands l.part_no) r.id l.qty ≡ l.qty = rw there (ground arith) in
          let fits : ltb int4_max (r.stock + l.qty) ≡ false =
            ground (arith, tells.stock, room r.id, here, state_of-delta l.part_no t.runnings r e) in
          (
            record t { runnings = rewrite (λ x. x.id == r.id) (add_to l) t.runnings },
            s,
            rw (e, fits) refl,
          )
    ]

    apply_lines-Returns :
        (ls : List PoLine) (t : Tally) (s : Db)
        → InStep lower products lands t.runnings
        → HasRoom ls t.runnings
        → Returns (apply_lines lower ls t) s
    unfolding apply_lines sum_by
    apply_lines-Returns [] t s i room = (t, s, refl)
    apply_lines-Returns (l ∷ ls) t s i room =
        let (t', u, e) = apply_line-Returns l ls t s i room in
        let (same, j, sums) = apply_line-InStep lower products lands l t s i e in
        Returns-next (apply_line lower l t) (apply_lines lower ls) s e
          (apply_lines-Returns ls t' u j (λ p. omega (arith, room p, sums p)))

write_products-Returns :
    (id : RowId) (po : PurchaseOrder) (rs : List Running) (s : Db)
    → Returns (each (write_product id po) rs) s
unfolding each write_product
write_products-Returns id po [] s = ([], s, refl)
write_products-Returns id po (r ∷ rs) s = Returns-next (write_product id po r) _ s refl (
    let (ms, t, e) = write_products-Returns id po rs _ in
    Returns-next (each (write_product id po) rs) _ _ e (_, t, refl))

close_receipt-Returns :
    (id : RowId) (actor : Actor) (rs : List Running) (s : Db)
    → Returns (close_receipt id actor rs) s
unfolding close_receipt on_commit ◌>>=◌
close_receipt-Returns id actor [] s = (tt, _, refl)
close_receipt-Returns id actor (r ∷ rs) s = (tt, _, refl)

-- An order that is open is received, as long as no product's stock would pass the largest `int`
-- with what the order brings of it. A key is no two products.
pub receive_po_accepts :
    (lower : Text → Text) (id : RowId) (actor : Actor) (s : Db) (po : PurchaseOrder)
    → OneRow s.product_ids
    → s.purchase_orders id ≡ some po
    → po.status ≡ PoStatus.placed
    → ((p : RowId) → stock_of (s.products p) + ordered lower id s p ≤ int4_max)
    → Returns (receive_po lower id actor) s
unfolding receive_po lock_po mark_received
receive_po_accepts lower id actor s po one found placed room =
    let lines = lines_of_po id s.po_items in
    let locked = lock_named lower lines s.product_ids s.products in
    let lands = λ (key : Text). id_of (state_of lower key locked) in
    let start : InStep lower s.products lands locked = record {
      told = lock_named-Tells lower lines s.product_ids s.products;
      once = lock_named-OneEach lower lines s.product_ids s.products one;
      met = λ key. refl;
    } in
    let fits : HasRoom lower s.products lands lines locked = λ p. omega (
      arith,
      room p,
      lock_named-delta lower p lines s.product_ids s.products,
      landed-brought lower s.product_ids s.products lines p lines (Joins-All lower lines),
      sum_by-sort_by (brought lower s.product_ids s.products p)
          (λ (a b : PoLine). leb a.line_no b.line_no) (keep (λ l. l.po_id == id) s.po_items),
    ) in
    let (tally, t, e) =
      apply_lines-Returns lower s.products lands lines
        (record { runnings = locked; unmatched = [] }) s start fits in
    let (ms, u, e') = write_products-Returns id po (touched_of tally.runnings) t in
    let (at, v, e'') : Returns (mark_received id) u = (_, _, refl) in
    let (x, w, e3) = close_receipt-Returns id actor (touched_of tally.runnings) v in
    let read : lock_po id s ≡ ok (po, s) = rw found refl in
    let fresh : throw_if (is_received po.status) po_already_received s ≡ ok (tt, s) =
      rw placed refl in
    let live : throw_if (is_cancelled po.status) po_cancelled s ≡ ok (tt, s) = rw placed refl in
    Returns-next _ _ s read (
      Returns-next _ _ s fresh (
        Returns-next _ _ s live (
          Returns-next _ _ s refl (
            Returns-next _ _ s refl (
              Returns-next _ _ s e (
                Returns-next _ _ t e'
                  (Returns-next _ _ u e'' (Returns-next _ _ v e3 (_, w, refl)))))))))
