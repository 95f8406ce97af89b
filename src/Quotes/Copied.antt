-- ===== src/Quotes/Copied.antt =====
-- Duplicating a quote, and the other calls that write quotes alone.
use jenkin_sri_store.Prelude.{ℕ, ◌≡◌, refl, none, some, List, ◌++◌, map}
use jenkin_sri_store.Store.{
  RowId, DocType, Quote, Db, ok, ran, throw_if-ok, put, new_id, quote_already_converted,
}
use jenkin_sri_store.Documents.Series.{issue-Issued}
use jenkin_sri_store.Quotes.{
  QuotePatch, QuoteOut, is_converted, lines_of_quote, to_quote, quote_item_out, copied_line,
  renewed, duplicate_quote, update_quote, delete_quote,
}
use jenkin_sri_store.Quotes.Sold.{lock_quote-ok, read_quote-ok}
use jenkin_sri_store.Quotes.Saved.{insert_quote-ok}

-- The tables that the calls of this module leave alone.
abbrev pub OnlyQuotes : Db → Db → Type 0
OnlyQuotes s t = t ≡ record s {
  quotes = t.quotes;
  quote_items = t.quote_items;
  doc_counters = t.doc_counters;
  next_id = t.next_id;
}

pub update_quote-rest :
    (id : RowId) (patch : QuotePatch) (s : Db) {o : QuoteOut} {t : Db}
    → update_quote id patch s ≡ ok (o, t)
    → OnlyQuotes s t
unfolding update_quote
update_quote-rest id patch s h = ran _ _ _ h λ q a ea k. ran _ _ _ k λ u1 b eb k.
    ran _ _ _ k λ u2 c ec k.
      let (found, a_same) = lock_quote-ok id s ea in
      let (free, b_same) =
        throw_if-ok (is_converted q.status) (quote_already_converted q.converted_sale_id) a eb in
      let (shown, t_same) = read_quote-ok id c k in cc

pub delete_quote-rest :
    (id : RowId) (s : Db) {x : RowId} {t : Db} → delete_quote id s ≡ ok (x, t) → OnlyQuotes s t
unfolding delete_quote
delete_quote-rest id s h =
    ran _ _ _ h
      λ q a ea k. ran _ _ _ k λ u1 b eb k. let (found, a_same) = lock_quote-ok id s ea in cc

-- What duplicating a quote wrote.
pub record Copied (id : RowId) (s : Db) (o : QuoteOut) (t : Db) : Type 0 where
  pub source : Quote
  pub found : s.quotes id ≡ some source
  pub named : o.id ≡ s.next_id
  pub fresh : s.quotes s.next_id ≡ none
  pub quote_no : List ℕ
  pub stored : t.quotes ≡ put s.next_id (renewed source quote_no s.now) s.quotes
  pub lined :
      t.quote_items
      ≡ s.quote_items
        ++ map (copied_line s.next_id) (map quote_item_out (lines_of_quote id s.quote_items))
  pub only : OnlyQuotes s t

pub duplicate_quote-Copied :
    (id device : RowId) (s : Db) {o : QuoteOut} {t : Db}
    → duplicate_quote id device s ≡ ok (o, t)
    → Copied id s o t
unfolding duplicate_quote new_id to_quote
duplicate_quote-Copied id device s {o} {t} h = ran _ _ _ h λ src a ea k. ran _ _ _ k λ new b eb k.
    ran _ _ _ k λ number c ec k. ran _ _ _ k λ now d ed k. ran _ _ _ k λ u2 e ee k.
      let ((source, there, shown), a_same) = read_quote-ok id s ea in
      let counted = (issue-Issued device DocType.quote b ec).only_counters in
      let new_at : new ≡ s.next_id = cc in
      let now_at : now ≡ s.now = cc in
      let row : src.row ≡ source = rw shown refl in
      let items : src.items ≡ map quote_item_out (lines_of_quote id s.quote_items) =
        rw shown refl in
      let (fresh, wrote) =
        insert_quote-ok new (renewed src.row number now) (map (copied_line new) src.items) d ee in
      let ((q, found, told), t_same) = read_quote-ok new e k in
      let d_quotes : d.quotes ≡ s.quotes = cc in
      let d_items : d.quote_items ≡ s.quote_items = cc in
      let base : d ≡ record s { doc_counters = d.doc_counters; next_id = d.next_id } = cc in
      let stored : t.quotes ≡ put s.next_id (renewed source number s.now) s.quotes =
        rw (t_same, wrote, d_quotes, new_at, now_at, row) refl in
      record {
        source = source;
        found = there;
        named = rw (told, new_at) refl;
        fresh = rw (d_quotes, new_at) at fresh;
        quote_no = number;
        stored = stored;
        lined = rw (t_same, wrote, d_items, new_at, items) refl;
        only = rw (t_same, wrote) (cc);
      }
