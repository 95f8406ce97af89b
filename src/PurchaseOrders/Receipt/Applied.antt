-- ===== src/PurchaseOrders/Receipt/Applied.antt =====
-- What applying the lines leaves of the runnings.
use jenkin_sri_store.Prelude.{
  ℕ, ◌+◌, ◌≡◌, refl, ◌∙◌, arith, All, Option, none, some, List, [], ◌∷◌, ◌==◌, if◌then◌else◌, ltb,
  sum_by, rewrite, Option-cases, Bool-cases, inl, inr, All-rewrite, All-map,
}
use jenkin_sri_store.Store.{Text, RowId, int4_max, Product, PoLine, Table, Db, ok, ran}
use jenkin_sri_store.PurchaseOrders.Receipt.{
  Running, Tally, add_to, named_by, state_of, lock_named, apply_line, apply_lines,
}
use jenkin_sri_store.PurchaseOrders.Receipt.Runnings.{
  delta_of, OneEach, OneRow, Tells, id_of, rewrite-count, rewrite-delta, state_of_once,
  state_of-rewrite, product_of, Joins, lock_named-product_of, lock_named-OneEach, lock_named-delta,
  lock_named-Tells,
}

-- What a line that lands on a product brings of another.
abbrev pub landed : Option RowId → RowId → ℕ → ℕ
landed none p n = 0
landed (some k) p n = if k == p then n else 0

module _ (lower : Text → Text) (products : Table Product) (lands : Text → Option RowId) where
  -- The runnings while the lines are applied.
  pub record InStep (rs : List Running) : Type 0 where
    pub told : All (Tells products) rs
    pub once : OneEach rs
    pub met : (key : Text) → id_of (state_of lower key rs) ≡ lands key

  pub apply_line-InStep :
      (line : PoLine) (t : Tally) (s : Db) {t' : Tally} {u : Db}
      → InStep t.runnings
      → apply_line lower line t s ≡ ok (t', u)
      → (u ≡ s)
        × InStep t'.runnings
        × ((p : RowId)
            → sum_by (delta_of p) t'.runnings
              ≡ sum_by (delta_of p) t.runnings + landed (lands line.part_no) p line.qty)
  unfolding apply_line
  apply_line-InStep line t s {t'} {u} i h =
      elim (Option-cases (state_of lower line.part_no t.runnings)) [
        | inl e ↦
            let same : t'.runnings ≡ t.runnings = ground arith in
            let nowhere : lands line.part_no ≡ none = ground (arith, i.met line.part_no) in
            (ground arith, rw same i, λ p. rw (same, nowhere) (omega arith))
        | inr (r, e) ↦ elim (Bool-cases (ltb int4_max (r.stock + line.qty))) [
          | inl e' ↦ absurd (ground arith)
          | inr e' ↦
              let after : t'.runnings ≡ rewrite (λ x. x.id == r.id) (add_to line) t.runnings =
                ground arith in
              let there : lands line.part_no ≡ some r.id = ground (arith, i.met line.part_no) in
              let one = state_of_once lower line.part_no t.runnings r i.once e in
              (
                ground arith,
                rw after (record {
                  told =
                      All-rewrite (Tells products) (λ x. x.id == r.id) (add_to line)
                        (λ x one. record { row = one.row; stock = omega (arith, one.stock) })
                        t.runnings i.told;
                  once = λ p. rw (rewrite-count p r.id line t.runnings) (i.once p);
                  met = λ key. state_of-rewrite lower key r.id line t.runnings ∙ i.met key;
                }),
                λ p. rw (after, there) (rewrite-delta p r.id line t.runnings one),
              )
        ]
      ]

  pub apply_lines-InStep :
      (ls : List PoLine) (t : Tally) (s : Db) {t' : Tally} {u : Db}
      → InStep t.runnings
      → apply_lines lower ls t s ≡ ok (t', u)
      → (u ≡ s)
        × InStep t'.runnings
        × ((p : RowId)
            → sum_by (delta_of p) t'.runnings
              ≡ sum_by (delta_of p) t.runnings
                + sum_by (λ (l : PoLine). landed (lands l.part_no) p l.qty) ls)
  unfolding apply_lines sum_by
  apply_lines-InStep [] t s {t'} {u} i h =
      let same : t' ≡ t = cc in (cc, rw same i, λ p. rw same (omega arith))
  apply_lines-InStep (l ∷ ls) t s {t'} {u} i h = ran _ _ _ h λ m a e k.
      let (at, j, one) = apply_line-InStep l t s i e in
      let (at', j', rest) = apply_lines-InStep ls m a j k in
      (at' ∙ at, j', λ p. omega (arith, one p, rest p))

-- What the lines bring of a product, each to the live product of its part number.
abbrev pub brought : (Text → Text) → List RowId → Table Product → RowId → PoLine → ℕ
brought lower ids products p l = landed (product_of lower l.part_no ids products) p l.qty

module _ (lower : Text → Text) where
  Joins-cons :
      (line : PoLine) (ls : List PoLine) (key : Text)
      → Joins lower ls key
      → Joins lower (line ∷ ls) key
  unfolding named_by
  Joins-cons line ls key joins part_no e = ground (arith, joins part_no e)

  -- Every line joins the rows that it names.
  pub Joins-All : (ls : List PoLine) → All (λ (l : PoLine). Joins lower ls l.part_no) ls
  unfolding named_by
  Joins-All [] = tt
  Joins-All (l ∷ ls) = (
    λ part_no e. ground arith,
    All-map (λ (x : PoLine) j. Joins-cons l ls x.part_no j) ls (Joins-All ls),
  )

  module _ (ids : List RowId) (products : Table Product) (all : List PoLine) where
    pub landed-brought :
        (p : RowId) (ls : List PoLine)
        → All (λ (l : PoLine). Joins lower all l.part_no) ls
        → sum_by
            (λ (l : PoLine).
              landed (id_of (state_of lower l.part_no (lock_named lower all ids products))) p l.qty)
            ls
          ≡ sum_by (brought lower ids products p) ls
    unfolding sum_by
    landed-brought p [] h = refl
    landed-brought p (l ∷ ls) (joins, h) =
        rw (lock_named-product_of lower all l.part_no ids products joins, landed-brought p ls h)
          refl

    -- Applied to the rows that they lock, the lines add up product by product.
    pub apply_lines-brought :
        (s : Db) {t' : Tally} {u : Db}
        → OneRow ids
        → apply_lines lower all
            (record { runnings = lock_named lower all ids products; unmatched = [] })
            s
          ≡ ok (t', u)
        → (u ≡ s)
          × (All (Tells products) t'.runnings)
          × (OneEach t'.runnings)
          × ((p : RowId)
              → sum_by (delta_of p) t'.runnings ≡ sum_by (brought lower ids products p) all)
    apply_lines-brought s {t'} {u} one h =
        let locked = lock_named lower all ids products in
        let start : InStep lower products (λ key. id_of (state_of lower key locked)) locked =
          record {
            told = lock_named-Tells lower all ids products;
            once = lock_named-OneEach lower all ids products one;
            met = λ key. refl;
          } in
        let (same, after, sums) =
          apply_lines-InStep lower products (λ key. id_of (state_of lower key locked)) all _ s start
            h in
        (
          same,
          after.told,
          after.once,
          λ p. omega (
            arith,
            sums p,
            lock_named-delta lower p all ids products,
            landed-brought p all (Joins-All all),
          ),
        )
