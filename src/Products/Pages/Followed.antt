-- ===== src/Products/Pages/Followed.antt =====
-- A reader that follows `meta.nextCursor` of `ProductsController.list`
-- (server/src/products/products.controller.ts).
use jenkin_sri_store.Prelude.{
  ℕ, zero, suc, ◌*◌, ◌<◌, Bool, true, false, ◌&&◌, not, Option, none, some, List, [], ◌∷◌, ◌++◌,
  ltb, ◌≡◌, refl, sym, ap, ◌∙◌, ◌⊎◌, inl, inr, if◌then◌else◌, map, length, keep, sort_by,
  length-sort_by, arith,
}
use jenkin_sri_store.Prelude.Int.{ℤ, pos, negsuc}
use jenkin_sri_store.Prelude.Sorted.{take, drop, take-drop, length-drop, last_of}
use jenkin_sri_store.Wire.{given, ◌>>=◌, require}
use jenkin_sri_store.Products.Pages.{
  ProductRow, ProductOut, to_product, SyncCursor, by_key, next_cursor, where_clause, list_uncached,
}
use jenkin_sri_store.Products.Pages.Handler.{
  ListRequest, PageParams, Paginated, positive, positive_int, page_params, default_limit, max_limit,
  is_given, is_blank, query_of, paginated, list_products,
}
use jenkin_sri_store.Products.Pages.Rest.{DistinctIds, rest_of, beyond, rest-beyond}

abbrev next_request : ListRequest → SyncCursor → ListRequest
next_request request cursor = record request {
  updated_since = some cursor.updated_since;
  after_id = some cursor.after_id;
}

abbrev continued : (SyncCursor → Option (List ProductOut)) → Paginated → Option (List ProductOut)
continued next answer = elim answer.next_cursor [
  | some (some cursor) ↦ do rest ← next cursor; some (answer.items ++ rest)
  | _ ↦ some answer.items
]

-- Every list is empty or has a first item.
positive_suc : (m : ℕ) → 0 < m → (n : ℕ) × (m ≡ suc n)
positive_suc zero h = absurd (omega arith)
positive_suc (suc n) h = (n, refl)

first_page_of :
    (since : Option ℕ) {t : ℕ} (page : ℕ) {u : Unit {0}}
    → since ≡ some t
    → 0 < page
    → require (not (is_given since && ltb 1 page)) ≡ some u
    → page ≡ 1
first_page_of none page e h k = absurd (cc)
first_page_of (some t) page e h k = ground arith

List-cases : {A : Type 0} (xs : List A) → (xs ≡ []) ⊎ ((x : A) × (ys : List A) × (xs ≡ x ∷ ys))
List-cases [] = inl refl
List-cases (x ∷ xs) = inr (x, xs, refl)

map-append : {A B : Type 0} (f : A → B) (xs ys : List A) → map f (xs ++ ys) ≡ map f xs ++ map f ys
map-append f [] ys = refl
map-append f (x ∷ xs) ys = ap (◌∷◌ (f x)) (map-append f xs ys)

positive-pos : (o : Option ℤ) {n : ℕ} → positive o ≡ some n → 0 < n
positive-pos (some (pos m)) h = ground arith
positive-pos (some (negsuc m)) h = absurd (cc)
positive-pos none h = absurd (cc)

capped_pos : (n cap : ℕ) → 0 < n → 0 < cap → 0 < (if ltb n cap then n else cap)
capped_pos n cap h k = ground arith

and_false : (b : Bool) → (b && false) ≡ false
and_false true = refl
and_false false = refl

zero_times : (n : ℕ) → 0 * n ≡ 0
zero_times n = omega arith

-- What a page leaves is shorter, and the page with it is all.
shorter :
    (n : ℕ) (row : ProductRow) (rows : List ProductRow) (fuel : ℕ)
    → length (row ∷ rows) < suc fuel
    → length (drop n rows) < fuel
unfolding drop
shorter n row rows fuel h = omega (arith, h, length-drop n row rows)

joined :
    (n : ℕ) (row : ProductRow) (rows : List ProductRow)
    → map to_product (row ∷ take n rows) ++ map to_product (drop n rows)
      ≡ map to_product (row ∷ rows)
joined n row rows =
    sym (map-append to_product (row ∷ take n rows) (drop n rows))
    ∙ ap (λ l. map to_product (row ∷ l)) (take-drop n rows)

module _ (integer_of : List ℕ → Option ℤ) where
  positive_int-pos :
      (raw : Option (List ℕ)) (fallback : ℕ) {n : ℕ}
      → 0 < fallback
      → positive_int integer_of raw fallback ≡ some n
      → 0 < n
  unfolding positive_int
  positive_int-pos none fallback h e = ground arith
  positive_int-pos (some raw) fallback h e = positive-pos (integer_of raw) e

  page_params-bounds :
      (page limit : Option (List ℕ)) {parsed : PageParams}
      → page_params integer_of page limit ≡ some parsed
      → (0 < parsed.page) × (0 < parsed.limit)
  unfolding page_params
  page_params-bounds page limit {parsed} h = given _ _ h λ p ep k. given _ _ k λ u eu l.
      given _ _ l λ n en m.
        let bounds : (0 < p) × (0 < (if ltb n max_limit then n else max_limit)) = (
          positive_int-pos page 1 (omega arith) ep,
          capped_pos n max_limit (positive_int-pos limit default_limit (omega arith) en)
              (omega arith),
        ) in
        let read : PageParams = record {
          page = p;
          limit = if ltb n max_limit then n else max_limit;
        } in
        let same : read ≡ parsed = cc in rw (sym same) bounds

  module _ (lower : List ℕ → List ℕ) (like ilike : List ℕ → List ℕ → Bool) where
    -- The reader makes at most `fuel` requests.
    unfoldable pub follow : ℕ → List ProductRow → ListRequest → Option (List ProductOut)
    unfolding list_products
    follow zero table request = none
    follow (suc fuel) table request =
        list_products integer_of lower like ilike table request
        >>= continued (λ cursor. follow fuel table (next_request request cursor))

    module _ (table : List ProductRow) (distinct : DistinctIds table) (parsed : PageParams) (n : ℕ)
        (first_page : parsed.page ≡ 1) (size : parsed.limit ≡ suc n) where
      left : ListRequest → List ProductRow
      left request = rest_of lower like ilike (query_of request parsed) table

      page_of : ListRequest → Paginated
      page_of request =
          paginated (list_uncached lower like ilike (query_of request parsed) table) parsed

      list_products-page_of :
          (request : ListRequest) {t : ℕ}
          → request.updated_since ≡ some t
          → is_blank request.part_no ≡ false
          → page_params integer_of request.page request.limit ≡ some parsed
          → list_products integer_of lower like ilike table request ≡ some (page_of request)
      unfolding list_products page_of ◌>>=◌
      list_products-page_of request e number params =
          rw (params, e, first_page, number, and_false (is_given request.after_id)) refl

      -- The first page of what is left, and the cursor of its last row.
      items-left :
          (request : ListRequest) {t : ℕ}
          → request.updated_since ≡ some t
          → (page_of request).items ≡ map to_product (take (suc n) (left request))
      unfolding page_of paginated list_uncached left rest_of query_of drop
      items-left request e = rw (e, first_page, size) (rw (zero_times (suc n)) refl)

      next_cursor-left :
          (request : ListRequest) {t : ℕ}
          → request.updated_since ≡ some t
          → (page_of request).next_cursor ≡ next_cursor (some t) (take (suc n) (left request))
      unfolding page_of paginated list_uncached left rest_of query_of drop
      next_cursor-left request e = rw (e, first_page, size) (rw (zero_times (suc n)) refl)

      left-next_request :
          (request : ListRequest) {t : ℕ}
          → request.updated_since ≡ some t
          → (row : ProductRow) (rows : List ProductRow) → left request ≡ row ∷ rows
          → (cursor : SyncCursor)
          → next_cursor (some t) (take (suc n) (row ∷ rows)) ≡ some (some cursor)
          → left (next_request request cursor) ≡ drop n rows
      unfolding left take query_of beyond
      left-next_request request e row rows h cursor k =
          let last = last_of row (take n rows) in
          let key : SyncCursor = record { updated_since = last.updated_at; after_id = last.id } in
          let same : key ≡ cursor = cc in
          rw (sym same)
            (rest-beyond lower like ilike (query_of request parsed) e table distinct n row rows h)

      follow-left :
          (fuel : ℕ) (request : ListRequest) {t : ℕ}
          → request.updated_since ≡ some t
          → is_blank request.part_no ≡ false
          → page_params integer_of request.page request.limit ≡ some parsed
          → length (left request) < fuel
          → follow fuel table request ≡ some (map to_product (left request))
      unfolding follow ◌>>=◌ take
      follow-left zero request e number params few = absurd (omega arith)
      follow-left (suc fuel) request e number params few =
          rw
            (
              list_products-page_of request e number params,
              next_cursor-left request e,
              items-left request e,
            )
            (elim (List-cases (left request)) [
              | inl none_left ↦ rw none_left refl
              | inr (row, rows, h) ↦
                  let last = last_of row (take n rows) in
                  let key : SyncCursor = record {
                    updated_since = last.updated_at;
                    after_id = last.id;
                  } in
                  let to = left-next_request request e row rows h key refl in
                  let fewer : length (left (next_request request key)) < fuel =
                    rw to (shorter n row rows fuel (rw h at few)) in
                  rw (h, follow-left fuel (next_request request key) refl number params fewer, to)
                    (ap some (joined n row rows))
            ])

    -- A first answer read its page parameters, and is the first page.
    answered :
        (table : List ProductRow) (request : ListRequest) {t : ℕ} {first : Paginated}
        → request.updated_since ≡ some t
        → is_blank request.part_no ≡ false
        → list_products integer_of lower like ilike table request ≡ some first
        → (parsed : PageParams) × ((page_params integer_of request.page request.limit ≡ some parsed)
            × ((parsed.page ≡ 1)
                × (((n : ℕ) × (parsed.limit ≡ suc n))
                    × (paginated
                          (list_uncached lower like ilike (query_of request parsed) table)
                          parsed
                        ≡ first))))
    unfolding list_products
    answered table request e number h = given _ _ h λ parsed ep k. given _ _ k λ u eu l.
        given _ _ l λ v ev m.
          let same = rw number at m in
          let (page, limit) = page_params-bounds request.page request.limit ep in
          let one = first_page_of request.updated_since parsed.page e page ev in
          (parsed, (ep, (one, (positive_suc parsed.limit limit, cc))))

    -- Where no two rows have one id: a sync read that names no blank part number, and whose first
    -- request is accepted, ends when its cursors are followed. With more requests than the first
    -- answer's total, it has read every row that the query selects, each once, in the order of the
    -- keys.
    pub follow-list_products :
        (table : List ProductRow) (request : ListRequest) {t : ℕ} {first : Paginated} (fuel : ℕ)
        → DistinctIds table
        → request.updated_since ≡ some t
        → is_blank request.part_no ≡ false
        → list_products integer_of lower like ilike table request ≡ some first
        → first.total < fuel
        → follow fuel table request
          ≡ some (
              map to_product (
                sort_by by_key (
                  keep
                    (where_clause lower like ilike
                      (query_of request (record { page = first.page; limit = first.limit })))
                    table)))
    unfolding paginated list_uncached rest_of left
    follow-list_products table request {t} {first} fuel distinct e number h enough =
        let (parsed, (ep, (one, ((n, size), same)))) = answered table request e number h in
        let rows = keep (where_clause lower like ilike (query_of request parsed)) table in
        let total : length rows < fuel = rw (sym same) at enough in
        let few : length (sort_by by_key rows) < fuel =
          omega (arith, total, length-sort_by by_key rows) in
        rw (sym same) (follow-left table distinct parsed n one size fuel request e number ep few)
