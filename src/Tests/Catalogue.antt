-- ===== src/Tests/Catalogue.antt =====
-- The list of products on a small table: a till reads the changes two rows at a time.
use jenkin_sri_store.Prelude.{
  ℕ, ◌-◌, ◌+◌, Bool, true, false, ◌&&◌, ◌||◌, Option, none, some, List, [], ◌∷◌, ◌==◌, leb, ◌≡◌,
  refl, map, keep, rewrite, sort_by, insert_by, if◌then◌else◌, arith,
}
use jenkin_sri_store.Prelude.Int.{ℤ, pos}
use jenkin_sri_store.Prelude.Sorted.{take, drop, last_of}
use jenkin_sri_store.Wire.{is_empty, trim, trim_start, trim_end, same_text, ◌>>=◌}
use jenkin_sri_store.Products.Pages.{
  ProductRow, to_product, escape_like, search_expression, found_by, same_number, in_category,
  filters, where_clause, list_uncached,
}
use jenkin_sri_store.Products.Pages.Handler.{
  ListRequest, Paginated, positive_int, page_params, is_blank, query_of, paginated, list_products,
}
use jenkin_sri_store.Products.Pages.Followed.{follow, follow-list_products}
use jenkin_sri_store.Products.Edits.{
  ProductCreate, done, created_row, stands_under, create_product, update_product,
}
use jenkin_sri_store.Products.Edits.Scanned.{scan, only, create_product-list_products}

-- One digit.
abbrev digit_of : List ℕ → Option ℤ
digit_of (c ∷ []) = if leb 48 c && leb c 57 then some (pos (c - 48)) else none
digit_of _ = none

abbrev lower_case : ℕ → ℕ
lower_case c = if leb 65 c && leb c 90 then c + 32 else c

abbrev lower : List ℕ → List ℕ
lower s = map lower_case s

unfoldable starts : List ℕ → List ℕ → Bool
starts [] t = true
starts (c ∷ s) [] = false
starts (c ∷ s) (d ∷ t) = (c == d) && starts s t

unfoldable contains : List ℕ → List ℕ → Bool
unfolding starts
contains s [] = is_empty s
contains s (d ∷ t) = starts s (d ∷ t) || contains s t

-- `LIKE` of a pattern that starts and ends with `%`.
unfoldable before_last : List ℕ → List ℕ
before_last [] = []
before_last (c ∷ []) = []
before_last (c ∷ d ∷ s) = c ∷ before_last (d ∷ s)

unfoldable like : List ℕ → List ℕ → Bool
unfolding before_last contains drop
like pattern text = contains (before_last (drop 1 pattern)) text

abbrev row : ℕ → ℕ → Option ℕ → ProductRow
row id updated_at deleted_at = record {
  id = id;
  part_no = b'a' ∷ b'b' ∷ [];
  name = b'b' ∷ [];
  name_th = [];
  category = [];
  brand = [];
  price = 12050;
  cost = 8000;
  stock = 4;
  min_stock = pos 1;
  compat = none;
  updated_at = updated_at;
  deleted_at = deleted_at;
}

-- Three rows of one moment, one of them deleted.
abbrev table : List ProductRow
table = row 3 200 none ∷ row 1 200 (some 200) ∷ row 2 150 none ∷ row 4 50 none ∷ row 5 200 none ∷ []

abbrev request : ListRequest
request = record {
  search = some (b'b' ∷ []);
  part_no = none;
  category = some [];
  updated_since = some 100;
  after_id = none;
  page = none;
  limit = some (b'2' ∷ []);
}

abbrev first_answer : Paginated
first_answer = record {
  items = map to_product (row 2 150 none ∷ row 1 200 (some 200) ∷ []);
  total = 4;
  page = 1;
  limit = 2;
  total_pages = 2;
  next_cursor = some (some (record { updated_since = 200; after_id = 1 }));
}

first_page : list_products digit_of lower like like table request ≡ some first_answer
unfolding list_products page_params positive_int is_blank query_of paginated list_uncached
    where_clause filters found_by same_number in_category escape_like search_expression like
    contains starts before_last drop take last_of trim trim_start trim_end same_text keep sort_by
    insert_by ◌>>=◌
first_page = refl

follow-list_products_example :
    follow digit_of lower like like 5 table request
    ≡ some (
        map to_product
          (row 2 150 none ∷ row 1 200 (some 200) ∷ row 3 200 none ∷ row 5 200 none ∷ []))
unfolding where_clause filters found_by same_number in_category escape_like search_expression like
    contains starts before_last drop query_of trim trim_start trim_end same_text keep sort_by
    insert_by is_blank
follow-list_products_example =
    follow-list_products digit_of lower like like table request 5
      (
        (refl, (refl, (refl, (refl, tt)))),
        ((refl, (refl, (refl, tt))), ((refl, (refl, tt)), ((refl, tt), (tt, tt)))),
      )
      refl refl first_page (omega arith)

abbrev bulb : ProductCreate
bulb = record {
  part_no = b'X' ∷ b'y' ∷ [];
  name = b'z' ∷ [];
  name_th = [];
  category = [];
  brand = [];
  price = 2500;
  cost = 1000;
  stock = 0;
  min_stock = pos 0;
  compat = none;
}

bulb_created :
    create_product lower 7 300 bulb (row 4 50 none ∷ [])
    ≡ done (to_product (created_row 7 300 bulb)) (row 4 50 none ∷ created_row 7 300 bulb ∷ [])
unfolding create_product stands_under same_text keep
bulb_created = refl

-- A patch of nothing keeps the product's own number.
bulb_kept :
    update_product lower 7 400
      (record {
        part_no = none;
        name = some (b'w' ∷ []);
        name_th = none;
        category = none;
        brand = none;
        price = none;
        cost = none;
        min_stock = none;
        compat = none;
      })
      (created_row 7 300 bulb ∷ [])
    ≡ done
        (to_product (created_row 7 400 (record bulb { name = b'w' ∷ [] })))
        (created_row 7 400 (record bulb { name = b'w' ∷ [] }) ∷ [])
unfolding update_product stands_under same_text keep rewrite
bulb_kept = refl

-- A tombstone does not block its number.
bulb_gone :
    create_product lower 8 300 bulb (record (created_row 7 300 bulb) { deleted_at = some 1 } ∷ [])
    ≡ done
        (to_product (created_row 8 300 bulb))
        (record (created_row 7 300 bulb) { deleted_at = some 1 } ∷ created_row 8 300 bulb ∷ [])
unfolding create_product stands_under same_text keep
bulb_gone = refl

-- A scan of ` xY`.
create_product-list_products_example :
    list_products digit_of lower like like
      (row 4 50 none ∷ created_row 7 300 bulb ∷ [])
      (scan (b' ' ∷ b'x' ∷ b'Y' ∷ []))
    ≡ some (only (to_product (created_row 7 300 bulb)))
unfolding trim trim_start trim_end is_blank
create_product-list_products_example =
    create_product-list_products digit_of lower like like 7 300 bulb (row 4 50 none ∷ [])
      (row 4 50 none ∷ created_row 7 300 bulb ∷ []) (to_product (created_row 7 300 bulb))
      (b' ' ∷ b'x' ∷ b'Y' ∷ []) bulb_created refl refl
