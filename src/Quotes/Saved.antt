-- ===== src/Quotes/Saved.antt =====
-- Saving a quote, and the bill that it is sold as.
use jenkin_sri_store.Prelude.{
  ℕ, ◌≡◌, refl, sym, ap, ◌∙◌, arith, false, none, List, [], ◌∷◌, ◌++◌, ◌==◌, ==_refl, leb, map,
  keep, keep-append, sort_by, sum_by, sum_by-sort_by, Option-cases, inl, inr,
}
use jenkin_sri_store.Prelude.Int.{sub_ℕ}
use jenkin_sri_store.Store.{
  RowId, DocType, Quote, QuoteItem, Db, ok, ran, throw_if-ok, put, new_id, total_mismatch,
}
use jenkin_sri_store.Documents.Series.{issue-Issued}
use jenkin_sri_store.Sales.Request.{SaleLine, totals_off, computed_subtotal}
use jenkin_sri_store.Quotes.{
  QuoteLine, QuoteCreate, QuoteOut, lines_of_quote, to_quote, sale_line, stored_line, priced_line,
  assert_quote_totals, new_quote, insert_quote, create_quote,
}
use jenkin_sri_store.Quotes.Sold.{read_quote-ok}

sum_by-map :
    {A B : Type 0} (f : B → ℕ) (g : A → B) (xs : List A)
    → sum_by f (map g xs) ≡ sum_by (λ x. f (g x)) xs
unfolding sum_by
sum_by-map f g [] = refl
sum_by-map f g (x ∷ xs) = rw (sum_by-map f g xs) refl

keep-stored :
    (id : RowId) (items : List QuoteLine)
    → keep (λ (i : QuoteItem). i.quote_id == id) (map (stored_line id) items)
      ≡ map (stored_line id) items
unfolding keep
keep-stored id [] = refl
keep-stored id (l ∷ ls) = rw (==_refl id) (rw (keep-stored id ls) refl)

-- What the lines of a quote come to is what the lines of the request come to.
pub lines_of_quote-sum :
    (f : SaleLine → ℕ) (id : RowId) (before : List QuoteItem) (items : List QuoteLine)
    → keep (λ (i : QuoteItem). i.quote_id == id) before ≡ []
    → sum_by f (map sale_line (lines_of_quote id (before ++ map (stored_line id) items)))
      ≡ sum_by f (map priced_line items)
unfolding lines_of_quote
lines_of_quote-sum f id before items fresh =
    sum_by-map f sale_line (
      sort_by (λ a b. leb a.line_no b.line_no)
        (keep (λ (i : QuoteItem). i.quote_id == id) (before ++ map (stored_line id) items)))
    ∙ sum_by-sort_by (λ i. f (sale_line i)) (λ a b. leb a.line_no b.line_no)
        (keep (λ (i : QuoteItem). i.quote_id == id) (before ++ map (stored_line id) items))
    ∙ ap (sum_by (λ i. f (sale_line i)))
        (keep-append (λ (i : QuoteItem). i.quote_id == id) before (map (stored_line id) items))
    ∙ rw (fresh, keep-stored id items)
        (sum_by-map (λ i. f (sale_line i)) (stored_line id) items
          ∙ sym (sum_by-map f priced_line items))

pub insert_quote-ok :
    (id : RowId) (q : Quote) (lines : List QuoteItem) (s : Db) {u : Unit {0}} {t : Db}
    → insert_quote id q lines s ≡ ok (u, t)
    → (s.quotes id ≡ none)
      × (t ≡ record s { quotes = put id q s.quotes; quote_items = s.quote_items ++ lines })
unfolding insert_quote
insert_quote-ok id q lines s h = elim (Option-cases (s.quotes id)) [
  | inl e ↦ (e, ground arith)
  | inr (x, e) ↦ absurd (ground arith)
]

-- What saving a quote writes.
pub record Saved (input : QuoteCreate) (s : Db) (o : QuoteOut) (t : Db) : Type 0 where
  pub honest :
      totals_off (map priced_line input.items) input.subtotal input.discount input.total ≡ false
  pub id : o.id ≡ s.next_id
  pub fresh : s.quotes s.next_id ≡ none
  pub quote_no : List ℕ
  pub stored : t.quotes ≡ put s.next_id (new_quote input quote_no s.now) s.quotes
  pub lined : t.quote_items ≡ s.quote_items ++ map (stored_line s.next_id) input.items
  pub only : t ≡ record s {
    quotes = t.quotes;
    quote_items = t.quote_items;
    doc_counters = t.doc_counters;
    next_id = t.next_id;
  }

pub create_quote-Saved :
    (input : QuoteCreate) (device : RowId) (s : Db) {o : QuoteOut} {t : Db}
    → create_quote input device s ≡ ok (o, t)
    → Saved input s o t
unfolding create_quote new_id assert_quote_totals to_quote
create_quote-Saved input device s {o} {t} h = ran _ _ _ h λ u1 a ea k. ran _ _ _ k λ id b eb k.
    ran _ _ _ k λ number c ec k. ran _ _ _ k λ now d ed k. ran _ _ _ k λ u2 e ee k.
      let lines = map priced_line input.items in
      let (honest, a_same) =
        throw_if-ok (totals_off lines input.subtotal input.discount input.total)
          (total_mismatch (computed_subtotal lines)
            (sub_ℕ (computed_subtotal lines) input.discount))
          s ea in
      let counted = (issue-Issued device DocType.quote b ec).only_counters in
      let id_at : id ≡ s.next_id = cc in
      let now_at : now ≡ s.now = cc in
      let (fresh, wrote) =
        insert_quote-ok id (new_quote input number now) (map (stored_line id) input.items) d ee in
      let ((q, found, told), t_same) = read_quote-ok id e k in
      let d_quotes : d.quotes ≡ s.quotes = cc in
      let d_items : d.quote_items ≡ s.quote_items = cc in
      let base : d ≡ record s { doc_counters = d.doc_counters; next_id = d.next_id } = cc in
      record {
        honest = honest;
        id = rw (told, id_at) refl;
        fresh = rw (d_quotes, id_at) at fresh;
        quote_no = number;
        stored = rw (t_same, wrote, d_quotes, id_at, now_at) refl;
        lined = rw (t_same, wrote, d_items, id_at) refl;
        only = rw (t_same, wrote) (cc);
      }
