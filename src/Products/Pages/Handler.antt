-- ===== src/Products/Pages/Handler.antt =====
-- The handler `list` of server/src/products/products.controller.ts, and the page parameters of
-- server/src/common/paginated.ts.
use jenkin_sri_store.Prelude.{
  ℕ, ◌+◌, ◌-◌, ◌/◌, Bool, true, false, ◌&&◌, not, Option, none, some, List, [], ltb, leb,
  if◌then◌else◌,
}
use jenkin_sri_store.Prelude.Int.{ℤ, pos}
use jenkin_sri_store.Store.{RowId}
use jenkin_sri_store.Wire.{◌>>=◌, ◌>>◌, require, is_empty, trim}
use jenkin_sri_store.Products.Pages.{
  ProductRow, ProductOut, ListQuery, SyncCursor, CachedList, given_text, list_uncached,
}

abbrev pub default_limit : ℕ
default_limit = 50

abbrev pub max_limit : ℕ
max_limit = 200

abbrev pub max_page : ℕ
max_page = 10000

abbrev pub positive : Option ℤ → Option ℕ
positive (some (pos n)) = if ltb n 1 then none else some n
positive _ = none

-- The parameters of a request: texts, but the time and the id.
pub record ListRequest : Type 0 where
  pub search : Option (List ℕ)
  pub part_no : Option (List ℕ)
  pub category : Option (List ℕ)
  pub updated_since : Option ℕ
  pub after_id : Option RowId
  pub page : Option (List ℕ)
  pub limit : Option (List ℕ)

pub record PageParams : Type 0 where
  pub page : ℕ
  pub limit : ℕ

-- `Paginated` with its `meta`.
pub record Paginated : Type 0 where
  pub items : List ProductOut
  pub total : ℕ
  pub page : ℕ
  pub limit : ℕ
  pub total_pages : ℕ
  pub next_cursor : Option (Option SyncCursor)

abbrev pub is_given : {A : Type 0} → Option A → Bool
is_given none = false
is_given (some x) = true

-- `partNo !== undefined && partNo.trim() === ''`.
unfoldable pub is_blank : Option (List ℕ) → Bool
unfolding trim
is_blank none = false
is_blank (some s) = is_empty (trim s)

unfoldable pub query_of : ListRequest → PageParams → ListQuery
unfolding trim
query_of request parsed = record {
  search = given_text request.search;
  part_no = elim request.part_no [ none ↦ none | some s ↦ given_text (some (trim s)) ];
  category = given_text request.category;
  updated_since = request.updated_since;
  after_id = request.after_id;
  page = parsed.page;
  limit = parsed.limit;
}

abbrev pub at_least_one : ℕ → ℕ
at_least_one n = if ltb n 1 then 1 else n

unfoldable pub paginated : CachedList → PageParams → Paginated
paginated list parsed = record {
  items = list.items;
  total = list.total;
  page = parsed.page;
  limit = parsed.limit;
  total_pages = at_least_one ((list.total + parsed.limit - 1) / parsed.limit);
  next_cursor = list.next_cursor;
}

abbrev nothing_listed : CachedList
nothing_listed = record { items = []; total = 0; next_cursor = none }

-- `Number(raw)` of the runtime, when it is an integer.
module _ (integer_of : List ℕ → Option ℤ) where
  unfoldable pub positive_int : Option (List ℕ) → ℕ → Option ℕ
  positive_int none fallback = some fallback
  positive_int (some raw) fallback = positive (integer_of raw)

  unfoldable pub page_params : Option (List ℕ) → Option (List ℕ) → Option PageParams
  unfolding positive_int
  page_params page limit = do
    p ← positive_int page 1
    require (leb p max_page)
    n ← positive_int limit default_limit
    some (record { page = p; limit = if ltb n max_limit then n else max_limit })

  module _ (lower : List ℕ → List ℕ) (like ilike : List ℕ → List ℕ → Bool) where
    -- `ProductsController.list`, where the cache holds nothing.
    unfoldable pub list_products : List ProductRow → ListRequest → Option Paginated
    unfolding page_params is_blank query_of paginated list_uncached
    list_products table request = do
      parsed ← page_params request.page request.limit
      require (not (is_given request.after_id && not (is_given request.updated_since)))
      require (not (is_given request.updated_since && ltb 1 parsed.page))
      if is_blank request.part_no
          then some (paginated nothing_listed parsed)
          else some
              (paginated (list_uncached lower like ilike (query_of request parsed) table) parsed)
