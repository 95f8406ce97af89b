-- ===== src/Products/Pages.antt =====
-- The list of products that a till reads page by page: `listUncachedIn` of
-- server/src/products/products.service.ts. A time is in microseconds, and the order of the numbers
-- of rows is the database's order of their ids.
pub mod Handler
pub mod Rest
pub mod Followed
use jenkin_sri_store.Prelude.{
  ℕ, ◌*◌, ◌-◌, ◌/◌, Bool, true, false, ◌&&◌, ◌||◌, not, Option, none, some, List, [], ◌∷◌, ◌++◌,
  ◌==◌, ltb, leb, if◌then◌else◌, map, length, keep, sort_by,
}
use jenkin_sri_store.Prelude.Int.{ℤ, pos}
use jenkin_sri_store.Prelude.Sorted.{take, drop, last_of}
use jenkin_sri_store.Store.{RowId}
use jenkin_sri_store.Wire.{is_empty, trim, same_text, from_satang}

pub record ProductRow : Type 0 where
  pub id : RowId
  pub part_no : List ℕ
  pub name : List ℕ
  pub name_th : List ℕ
  pub category : List ℕ
  pub brand : List ℕ
  pub price : ℕ
  pub cost : ℕ
  pub stock : ℕ
  pub min_stock : ℤ
  pub compat : Option (List ℕ)
  pub updated_at : ℕ
  pub deleted_at : Option ℕ

-- The `Product` of an answer: its times are in milliseconds.
pub record ProductOut : Type 0 where
  pub id : RowId
  pub part_no : List ℕ
  pub name : List ℕ
  pub name_th : List ℕ
  pub category : List ℕ
  pub brand : List ℕ
  pub price : List ℕ
  pub cost : List ℕ
  pub stock : ℕ
  pub min_stock : ℤ
  pub compat : Option (List ℕ)
  pub updated_at : ℕ
  pub deleted_at : Option ℕ

abbrev in_milliseconds : Option ℕ → Option ℕ
in_milliseconds none = none
in_milliseconds (some t) = some (t / 1000)

unfoldable pub to_product : ProductRow → ProductOut
unfolding from_satang
to_product row = record {
  id = row.id;
  part_no = row.part_no;
  name = row.name;
  name_th = row.name_th;
  category = row.category;
  brand = row.brand;
  price = from_satang (pos row.price);
  cost = from_satang (pos row.cost);
  stock = row.stock;
  min_stock = row.min_stock;
  compat = row.compat;
  updated_at = row.updated_at / 1000;
  deleted_at = in_milliseconds row.deleted_at;
}

pub record ListQuery : Type 0 where
  pub search : Option (List ℕ)
  pub part_no : Option (List ℕ)
  pub category : Option (List ℕ)
  pub updated_since : Option ℕ
  pub after_id : Option RowId
  pub page : ℕ
  pub limit : ℕ

pub record SyncCursor : Type 0 where
  pub updated_since : ℕ
  pub after_id : RowId

-- `nextCursor` is undefined, null or a cursor.
pub record CachedList : Type 0 where
  pub items : List ProductOut
  pub total : ℕ
  pub next_cursor : Option (Option SyncCursor)

-- `escapeLike`: `\`, `%` and `_` lose their meaning in a pattern.
abbrev escape_char : ℕ → List ℕ
escape_char c = if (c == 92) || (c == 37) || (c == 95) then 92 ∷ c ∷ [] else c ∷ []

unfoldable pub escape_like : List ℕ → List ℕ
escape_like [] = []
escape_like (c ∷ s) = escape_char c ++ escape_like s

abbrev or_empty : Option (List ℕ) → List ℕ
or_empty none = []
or_empty (some s) = s

-- `value || undefined`, and `if (value)`: the empty text is no filter.
abbrev pub given_text : Option (List ℕ) → Option (List ℕ)
given_text none = none
given_text (some s) = if is_empty s then none else some s

-- The row is behind the key `(updated_at, id)`.
abbrev pub after_key : ℕ → RowId → ProductRow → Bool
after_key t id row = ltb t row.updated_at || ((t == row.updated_at) && ltb id row.id)

abbrev pub after_cursor : Option ℕ → Option RowId → ProductRow → Bool
after_cursor none after_id row = true
after_cursor (some t) none row = ltb t row.updated_at
after_cursor (some t) (some id) row = after_key t id row

-- `deleted_at IS NULL`.
abbrev pub is_live : ProductRow → Bool
is_live row = elim row.deleted_at [ none ↦ true | some t ↦ false ]

-- A sync reads the deleted rows too.
abbrev pub visible : Option ℕ → ProductRow → Bool
visible (some t) row = true
visible none row = is_live row

-- `ORDER BY updated_at ASC, id ASC`, and `ORDER BY id ASC`.
abbrev pub by_key : ProductRow → ProductRow → Bool
by_key a b = not (after_key b.updated_at b.id a)

abbrev pub order : Option ℕ → ProductRow → ProductRow → Bool
order none a b = leb a.id b.id
order (some t) a b = by_key a b

abbrev pub next_cursor : Option ℕ → List ProductRow → Option (Option SyncCursor)
next_cursor none rows = none
next_cursor (some t) [] = some none
next_cursor (some t) (row ∷ rows) =
    let last = last_of row rows in
    some (some (record { updated_since = last.updated_at; after_id = last.id }))

-- The database's `lower`, and its `LIKE` and `ILIKE` of a pattern and a text.
module _ (lower : List ℕ → List ℕ) (like ilike : List ℕ → List ℕ → Bool) where
  unfoldable pub search_expression : ProductRow → List ℕ
  search_expression row =
      lower (row.part_no ++ (32 ∷ (row.name ++ (32 ∷ (row.name_th ++ (32 ∷ or_empty row.compat))))))

  unfoldable pub found_by : Option (List ℕ) → ProductRow → Bool
  unfolding escape_like search_expression
  found_by none row = true
  found_by (some s) row =
      let pattern = 37 ∷ (escape_like s ++ (37 ∷ [])) in
      like (lower pattern) (search_expression row)
      && (ilike pattern row.part_no || ilike pattern row.name || ilike pattern row.name_th)

  unfoldable pub same_number : Option (List ℕ) → ProductRow → Bool
  unfolding trim same_text
  same_number none row = true
  same_number (some s) row = same_text (lower row.part_no) (lower (trim s))

  unfoldable pub in_category : Option (List ℕ) → ProductRow → Bool
  unfolding same_text
  in_category none row = true
  in_category (some s) row = same_text row.category s

  -- The conditions but the cursor's.
  unfoldable pub filters : ListQuery → ProductRow → Bool
  unfolding found_by same_number in_category
  filters q row =
      visible q.updated_since row
      && found_by (given_text q.search) row
      && same_number (given_text q.part_no) row
      && in_category (given_text q.category) row

  unfoldable pub where_clause : ListQuery → ProductRow → Bool
  unfolding filters
  where_clause q row = filters q row && after_cursor q.updated_since q.after_id row

  -- `listUncachedIn`.
  unfoldable pub list_uncached : ListQuery → List ProductRow → CachedList
  unfolding where_clause to_product take drop last_of
  list_uncached q table =
      let found = keep (where_clause q) table in
      let rows =
        take q.limit (drop ((q.page - 1) * q.limit) (sort_by (order q.updated_since) found)) in
      record {
        items = map to_product rows;
        total = length found;
        next_cursor = next_cursor q.updated_since rows;
      }
