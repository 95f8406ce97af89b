-- ===== src/Products/Edits/Scanned.antt =====
-- A product that was created is the one that a scan of its number finds
-- (server/src/products/products.service.ts and products.controller.ts).
use jenkin_sri_store.Prelude.{
  ℕ, Bool, true, false, ◌&&◌, Option, none, some, List, [], ◌∷◌, ◌++◌, ==_refl, ◌≡◌, refl, ap, ◌∙◌,
  inl, inr, keep, keep-append, sort_by, insert_by, Bool-cases, fun_ext,
}
use jenkin_sri_store.Prelude.Int.{ℤ}
use jenkin_sri_store.Prelude.Sorted.{take, drop}
use jenkin_sri_store.Store.{RowId}
use jenkin_sri_store.Wire.{is_empty, trim, same_text, ◌>>=◌}
use jenkin_sri_store.Wire.Trimmed.{trim-trim}
use jenkin_sri_store.Products.Pages.{
  ProductRow, ProductOut, to_product, is_live, ListQuery, found_by, same_number, in_category,
  filters, where_clause, list_uncached,
}
use jenkin_sri_store.Products.Pages.Handler.{
  ListRequest, Paginated, positive_int, page_params, is_blank, query_of, paginated, list_products,
}
use jenkin_sri_store.Products.Edits.{
  ProductCreate, refused, done, duplicate_part_no, created_row, stands_under, create_product,
}

-- `?partNo=` and no other parameter.
abbrev pub scan : List ℕ → ListRequest
scan s = record {
  search = none;
  part_no = some s;
  category = none;
  updated_since = none;
  after_id = none;
  page = none;
  limit = none;
}

abbrev pub only : ProductOut → Paginated
only product = record {
  items = product ∷ [];
  total = 1;
  page = 1;
  limit = 50;
  total_pages = 1;
  next_cursor = none;
}

same_text_refl : (s : List ℕ) → same_text s s ≡ true
unfolding same_text
same_text_refl [] = refl
same_text_refl (c ∷ s) = rw (==_refl c) (same_text_refl s)

is_empty-nil : {A : Type 0} (xs : List A) → is_empty xs ≡ true → xs ≡ []
is_empty-nil [] h = refl
is_empty-nil (x ∷ xs) h = absurd (cc)

scanned : (live found : Bool) → (live && true && found && true && true) ≡ (live && found)
scanned true true = refl
scanned true false = refl
scanned false found = refl

abbrev scan_query : List ℕ → ListQuery
scan_query s = record {
  search = none;
  part_no = some s;
  category = none;
  updated_since = none;
  after_id = none;
  page = 1;
  limit = 50;
}

module _ (integer_of : List ℕ → Option ℤ) (lower : List ℕ → List ℕ)
    (like ilike : List ℕ → List ℕ → Bool) where
  -- The rows that a scan finds are those that stand under its number.
  where_clause-stands_under :
      (s part_no : List ℕ) (row : ProductRow)
      → lower (trim s) ≡ lower part_no
      → is_blank (some s) ≡ false
      → where_clause lower like ilike (scan_query (trim s)) row ≡ stands_under lower part_no row
  unfolding where_clause filters found_by same_number in_category stands_under is_blank
  where_clause-stands_under s part_no row h e =
      rw (e, trim-trim s, h) (scanned (is_live row) (same_text (lower row.part_no) (lower part_no)))

  list_products-scan :
      (s : List ℕ) (table : List ProductRow)
      → is_blank (some s) ≡ false
      → list_products integer_of lower like ilike table (scan s)
        ≡ some (
            paginated
              (list_uncached lower like ilike (scan_query (trim s)) table)
              (record { page = 1; limit = 50 }))
  unfolding list_products page_params positive_int is_blank query_of ◌>>=◌
  list_products-scan s table e = rw e refl

  -- A list of the rows that are one row.
  only_one :
      (q : ListQuery) (row : ProductRow) (table : List ProductRow)
      → keep (where_clause lower like ilike q) table ≡ row ∷ []
      → q.updated_since ≡ none
      → q.page ≡ 1
      → q.limit ≡ 50
      → paginated (list_uncached lower like ilike q table) (record { page = 1; limit = 50 })
        ≡ only (to_product row)
  unfolding paginated list_uncached take drop sort_by insert_by
  only_one q row table h e page limit = rw (h, e, page, limit) refl

  created :
      (id : RowId) (now : ℕ) (input : ProductCreate) (table : List ProductRow)
      → keep (stands_under lower input.part_no) table ≡ []
      → keep (stands_under lower input.part_no) (table ++ created_row id now input ∷ [])
        ≡ created_row id now input ∷ []
  unfolding keep stands_under
  created id now input table h =
      keep-append (stands_under lower input.part_no) table (created_row id now input ∷ [])
      ∙ rw (h, same_text_refl (lower input.part_no)) refl

  -- What a create that returned wrote and answered.
  create_product-created :
      (id : RowId) (now : ℕ) (input : ProductCreate) (table after : List ProductRow)
      (product : ProductOut)
      → create_product lower id now input table ≡ done product after
      → (keep (stands_under lower input.part_no) table ≡ [])
        × ((table ++ created_row id now input ∷ [] ≡ after)
            × (to_product (created_row id now input) ≡ product))
  unfolding create_product
  create_product-created id now input table after product h =
      elim (Bool-cases (is_empty (keep (stands_under lower input.part_no) table))) [
        | inl none_there ↦
            let row = created_row id now input in
            let made : done (to_product row) (table ++ row ∷ []) ≡ done product after =
              rw none_there at h in
            (is_empty-nil (keep (stands_under lower input.part_no) table) none_there, (cc, cc))
        | inr one_there ↦
            let no : refused duplicate_part_no ≡ done product after = rw one_there at h in
            absurd (cc)
      ]

  -- After a create that returned, the product is the one answer to a scan of its number, letters'
  -- case and the spaces around it aside, as long as the scanned text is not blank.
  pub create_product-list_products :
      (id : RowId) (now : ℕ) (input : ProductCreate) (table after : List ProductRow)
      (product : ProductOut) (s : List ℕ)
      → create_product lower id now input table ≡ done product after
      → lower (trim s) ≡ lower input.part_no
      → is_blank (some s) ≡ false
      → list_products integer_of lower like ilike after (scan s) ≡ some (only product)
  create_product-list_products id now input table after product s h same e =
      let (free, (same_rows, same_product)) =
        create_product-created id now input table after product h in
      let row = created_row id now input in
      let found : keep (where_clause lower like ilike (scan_query (trim s))) (table ++ row ∷ [])
          ≡ row ∷ [] =
        ap (λ p. keep p (table ++ row ∷ []))
          (fun_ext λ other. where_clause-stands_under s input.part_no other same e)
        ∙ created id now input table free in
      rw (← same_rows, ← same_product)
        (list_products-scan s (table ++ row ∷ []) e
          ∙ ap some (only_one (scan_query (trim s)) row (table ++ row ∷ []) found refl refl refl))

  one_number : (a b : List ℕ) → lower a ≡ lower b → stands_under lower a ≡ stands_under lower b
  unfolding stands_under
  one_number a b h = fun_ext λ row. ap (λ n. is_live row && same_text (lower row.part_no) n) h

  -- Its number is taken: another product under it, letters' case aside, is refused.
  pub create_product_again :
      (id later : RowId) (now then_now : ℕ) (input other : ProductCreate)
      (table after : List ProductRow) (product : ProductOut)
      → create_product lower id now input table ≡ done product after
      → lower other.part_no ≡ lower input.part_no
      → create_product lower later then_now other after ≡ refused duplicate_part_no
  unfolding create_product
  create_product_again id later now then_now input other table after product h same =
      let (free, (same_rows, _)) = create_product-created id now input table after product h in
      rw (← same_rows, one_number other.part_no input.part_no same, created id now input table free)
        refl
