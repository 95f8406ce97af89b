-- ===== src/Sales/Movements.antt =====
-- The movements as a ledger: it accounts for the stock of every product.
use jenkin_sri_store.Prelude.{
  ℕ, ◌+◌, ◌-◌, ◌≡◌, refl, sym, ◌∙◌, List, [], ◌∷◌, ◌++◌, append-nil, append_assoc, sum_by,
  if◌then◌else◌, ◌==◌,
}
use jenkin_sri_store.Prelude.Int.{pos_part, neg_part}
use jenkin_sri_store.Store.{RowId, Movement, Db}
use jenkin_sri_store.Sales.Stock.Deduction.{stock_of}

-- What the movements brought in of a product, and what they took out.
abbrev pub in_qty : RowId → Movement → ℕ
in_qty p m = if m.product_id == p then pos_part m.delta else 0

abbrev pub out_qty : RowId → Movement → ℕ
out_qty p m = if m.product_id == p then neg_part m.delta else 0

-- The ledger accounts for the stock: what a product had at the opening, and every movement since.
pub record IsBalanced (opening : RowId → ℕ) (s : Db) : Type 0 where
  pub accounted :
      (p : RowId)
      → stock_of (s.products p) + sum_by (out_qty p) s.movements
        ≡ opening p + sum_by (in_qty p) s.movements

-- The stock that one movement leaves of what it finds, which is never below 0: a correction of the
-- count may write down more than there is.
abbrev pub move_stock : RowId → Movement → ℕ → ℕ
move_stock p m n = if m.product_id == p then n + pos_part m.delta - neg_part m.delta else n

-- The stock that the ledger comes to, movement by movement.
unfoldable pub ledger_stock : RowId → List Movement → ℕ → ℕ
ledger_stock p [] n = n
ledger_stock p (m ∷ ms) n = ledger_stock p ms (move_stock p m n)

-- The stock of every product is what its movements come to from what it had at the opening.
pub record IsSettled (opening : RowId → ℕ) (s : Db) : Type 0 where
  pub settled : (p : RowId) → ledger_stock p s.movements (opening p) ≡ stock_of (s.products p)

pub ledger_stock-append :
    (p : RowId) (xs ys : List Movement) (n : ℕ)
    → ledger_stock p (xs ++ ys) n ≡ ledger_stock p ys (ledger_stock p xs n)
unfolding ledger_stock
ledger_stock-append p [] ys n = refl
ledger_stock-append p (m ∷ ms) ys n = ledger_stock-append p ms ys (move_stock p m n)

-- The step of the ledger that a request may take of it: rows are appended, none is rewritten, and
-- the stock of every product is what the new rows come to from what it was.
pub record Posted (s t : Db) : Type 0 where
  pub rows : List Movement
  pub appended : t.movements ≡ s.movements ++ rows
  pub stock : (p : RowId) → stock_of (t.products p) ≡ ledger_stock p rows (stock_of (s.products p))

pub Posted-same : {s t : Db} → t.products ≡ s.products → t.movements ≡ s.movements → Posted s t
unfolding ledger_stock
Posted-same {s} {t} products movements = record {
  rows = [];
  appended = movements ∙ sym (append-nil s.movements);
  stock = λ p. rw products refl;
}

pub Posted-trans : {s t u : Db} → Posted s t → Posted t u → Posted s u
Posted-trans {s} {t} {u} a b = record {
  rows = a.rows ++ b.rows;
  appended = b.appended ∙ (rw (a.appended) (append_assoc s.movements a.rows b.rows));
  stock = λ p.
      b.stock p
      ∙ (rw (a.stock p) (sym (ledger_stock-append p a.rows b.rows (stock_of (s.products p)))));
}

-- Rows of other tables do not count.
pub Posted-view :
    {s t : Db} (s' t' : Db)
    → s'.products ≡ s.products
    → s'.movements ≡ s.movements
    → t'.products ≡ t.products
    → t'.movements ≡ t.movements
    → Posted s t
    → Posted s' t'
Posted-view {s} {t} s' t' a b c d h = record {
  rows = h.rows;
  appended = cc (h.appended);
  stock = λ p. rw (a, c) (h.stock p);
}

pub Posted-IsSettled :
    (opening : RowId → ℕ) {s t : Db} → Posted s t → IsSettled opening s → IsSettled opening t
Posted-IsSettled opening {s} {t} h i = record {
  settled = λ p.
      rw (h.appended, ledger_stock-append p s.movements h.rows (opening p), i.settled p)
        (sym (h.stock p));
}
