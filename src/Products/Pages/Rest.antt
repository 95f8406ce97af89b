-- ===== src/Products/Pages/Rest.antt =====
-- What is left to read behind a cursor of `listUncachedIn`
-- (server/src/products/products.service.ts).
use jenkin_sri_store.Prelude.{
  ℕ, Bool, true, false, ◌&&◌, Option, none, some, List, [], ◌∷◌, ◌==◌, ◌≡◌, refl, sym, ap, ◌∙◌, ◌⊎◌,
  inl, inr, keep, sort_by, All, All-map, All-sort_by, keep-keep, Bool-cases, fun_ext, arith,
}
use jenkin_sri_store.Prelude.Sorted.{
  take, drop, last_of, All-last_of, All-take, All-kept, Strict, Apart, Apart-keep, keep-drop,
  sort-Strict, keep-sort_by,
}
use jenkin_sri_store.Products.Pages.{
  ProductRow, ListQuery, after_key, after_cursor, by_key, filters, where_clause,
}

-- The order of the keys.
behind : ProductRow → ProductRow → Bool
behind a b = after_key b.updated_at b.id a

behind_asym : (a b : ProductRow) → behind a b ≡ true → behind b a ≡ false
unfolding behind
behind_asym a b h = ground arith

behind_trans : (a b c : ProductRow) → behind a b ≡ true → behind b c ≡ true → behind a c ≡ true
unfolding behind
behind_trans a b c h k = ground arith

-- The primary key of the table.
abbrev pub DistinctIds : List ProductRow → Type 0
DistinctIds [] = Unit
DistinctIds (row ∷ rows) = All (λ other. (other.id == row.id) ≡ false) rows × DistinctIds rows

apart : (a b : ProductRow) → (b.id == a.id) ≡ false → (behind b a ≡ true) ⊎ (behind a b ≡ true)
unfolding behind
apart a b h = elim (Bool-cases (behind b a)) [ inl e ↦ inl e | inr e ↦ inr (ground arith) ]

DistinctIds-Apart :
    (rows : List ProductRow) → DistinctIds rows → Apart behind behind_asym behind_trans rows
DistinctIds-Apart [] h = tt
DistinctIds-Apart (row ∷ rows) (one, h) =
    (All-map (λ other e. apart row other e) rows one, DistinctIds-Apart rows h)

cursor_trans :
    (t : Option ℕ) (id : Option ℕ) (row other : ProductRow)
    → after_cursor t id row ≡ true
    → behind other row ≡ true
    → after_cursor t id other ≡ true
unfolding behind
cursor_trans none id row other h k = refl
cursor_trans (some t) none row other h k = ground arith
cursor_trans (some t) (some id) row other h k = ground arith

narrowed :
    (f g after later : Bool)
    → f ≡ g
    → (later ≡ true → after ≡ true)
    → (f && later) ≡ ((g && after) && later)
narrowed true true after later e h = ground (arith, h)
narrowed false false after later e h = refl
narrowed true false after later e h = absurd (cc)
narrowed false true after later e h = absurd (cc)

and_right : (a b : Bool) → (a && b) ≡ true → b ≡ true
and_right a b h = ground arith

by_key-behind : (a b : ProductRow) → by_key a b ≡ true → behind a b ≡ false
unfolding behind
by_key-behind a b h = ground arith

not_by_key-behind : (a b : ProductRow) → by_key a b ≡ false → behind a b ≡ true
unfolding behind
not_by_key-behind a b h = ground arith

module _ (lower : List ℕ → List ℕ) (like ilike : List ℕ → List ℕ → Bool) where
  -- What a sync reads, from its cursor on.
  unfoldable pub rest_of : ListQuery → List ProductRow → List ProductRow
  unfolding where_clause
  rest_of q table = sort_by by_key (keep (where_clause lower like ilike q) table)

  unfoldable pub beyond : ListQuery → ProductRow → ListQuery
  beyond q row = record q { updated_since = some row.updated_at; after_id = some row.id }

  filters-beyond :
      (q : ListQuery) {t : ℕ} (row other : ProductRow)
      → q.updated_since ≡ some t
      → filters lower like ilike (beyond q row) other ≡ filters lower like ilike q other
  unfolding filters beyond
  filters-beyond q row other e = rw e refl

  -- The rows behind a row that is read are the query's rows with a greater key.
  where_clause-beyond :
      (q : ListQuery) {t : ℕ} (row other : ProductRow)
      → q.updated_since ≡ some t
      → where_clause lower like ilike q row ≡ true
      → where_clause lower like ilike (beyond q row) other
        ≡ (where_clause lower like ilike q other && behind other row)
  unfolding where_clause behind beyond
  where_clause-beyond q row other e h = narrowed _ _ _ _ (filters-beyond q row other e) (
      cursor_trans q.updated_since q.after_id row other
        (and_right (filters lower like ilike q row) _ h))

  module _ (q : ListQuery) {t : ℕ} (e : q.updated_since ≡ some t) (table : List ProductRow)
      (distinct : DistinctIds table) where
    rest-Strict : Strict behind behind_asym behind_trans (rest_of q table)
    unfolding rest_of behind
    rest-Strict =
        sort-Strict behind behind_asym behind_trans by_key by_key-behind not_by_key-behind _
          (Apart-keep behind behind_asym behind_trans _ table (DistinctIds-Apart table distinct))

    rest-All : All (λ row. where_clause lower like ilike q row ≡ true) (rest_of q table)
    unfolding rest_of
    rest-All = All-sort_by _ by_key _ (All-kept (where_clause lower like ilike q) table)

    -- The cursor of a page asks for what the page left.
    pub rest-beyond :
        (n : ℕ) (row : ProductRow) (rows : List ProductRow)
        → rest_of q table ≡ row ∷ rows
        → rest_of (beyond q (last_of row (take n rows))) table ≡ drop n rows
    unfolding rest_of
    rest-beyond n row rows h =
        let last = last_of row (take n rows) in
        let (first, others) = rw h at rest-All in
        let read = All-last_of _ row (take n rows) first (All-take _ n rows others) in
        ap (λ p. sort_by by_key (keep p table))
          (fun_ext λ other. where_clause-beyond q last other e read)
        ∙ ap (sort_by by_key)
            (keep-keep (where_clause lower like ilike q) (λ r. behind r last) table)
        ∙ sym (
            keep-sort_by behind behind_asym behind_trans by_key by_key-behind not_by_key-behind _ _
              (Apart-keep behind behind_asym behind_trans _ table
                (DistinctIds-Apart table distinct)))
        ∙ ap (keep (λ r. behind r last)) h
        ∙ keep-drop behind behind_asym behind_trans n row rows (rw h at rest-Strict)
