-- ===== src/Products/Edits.antt =====
-- The edits of the list of products: `createIn`, `updateIn` and `deleteIn` of
-- server/src/products/products.service.ts, and the index that keeps the numbers of live products
-- apart (server/src/db/migrations/1788652800007-ProductsPartNoCaseInsensitive.ts).
pub mod Scanned
use jenkin_sri_store.Prelude.{
  ℕ, Bool, true, false, ◌&&◌, not, Option, none, some, List, [], ◌∷◌, ◌++◌, ◌==◌, if◌then◌else◌,
  keep, rewrite,
}
use jenkin_sri_store.Prelude.Int.{ℤ}
use jenkin_sri_store.Store.{RowId}
use jenkin_sri_store.Wire.{is_empty, same_text}
use jenkin_sri_store.Products.Pages.{ProductRow, ProductOut, to_product, is_live}

pub record ProductCreate : Type 0 where
  pub part_no : List ℕ
  pub name : List ℕ
  pub name_th : List ℕ
  pub category : List ℕ
  pub brand : List ℕ
  pub price : ℕ
  pub cost : ℕ
  pub stock : ℕ
  pub min_stock : ℤ
  pub compat : Option (List ℕ)

-- A column that the patch leaves out keeps its value.
pub record ProductPatch : Type 0 where
  pub part_no : Option (List ℕ)
  pub name : Option (List ℕ)
  pub name_th : Option (List ℕ)
  pub category : Option (List ℕ)
  pub brand : Option (List ℕ)
  pub price : Option ℕ
  pub cost : Option ℕ
  pub min_stock : Option ℤ
  pub compat : Option (Option (List ℕ))

pub data EditError : Type 0 where
  duplicate_part_no product_not_found : EditError

-- An answer with the rows after it, or the error that leaves them as they were.
pub data Edited (A : Type 0) : Type 0 where
  refused : EditError → Edited A
  done : A → List ProductRow → Edited A

abbrev patched {ℓ} : {A : Type ℓ} → Option A → A → A
patched none old = old
patched (some new) old = new

abbrev pub created_row : RowId → ℕ → ProductCreate → ProductRow
created_row id now input = record {
  id = id;
  part_no = input.part_no;
  name = input.name;
  name_th = input.name_th;
  category = input.category;
  brand = input.brand;
  price = input.price;
  cost = input.cost;
  stock = input.stock;
  min_stock = input.min_stock;
  compat = input.compat;
  updated_at = now;
  deleted_at = none;
}

abbrev pub updated_row : ℕ → ProductPatch → ProductRow → ProductRow
updated_row now patch row = record row {
  part_no = patched patch.part_no row.part_no;
  name = patched patch.name row.name;
  name_th = patched patch.name_th row.name_th;
  category = patched patch.category row.category;
  brand = patched patch.brand row.brand;
  price = patched patch.price row.price;
  cost = patched patch.cost row.cost;
  min_stock = patched patch.min_stock row.min_stock;
  compat = patched patch.compat row.compat;
  updated_at = now;
}

abbrev pub deleted_row : ℕ → ProductRow → ProductRow
deleted_row now row = record row { deleted_at = some now; updated_at = now }

-- `WHERE id = $2 AND deleted_at IS NULL`.
abbrev pub is_target : RowId → ProductRow → Bool
is_target id row = (row.id == id) && is_live row

module _ (lower : List ℕ → List ℕ) where
  -- The live row stands under the number in the index `uq_products_partno_ci`.
  unfoldable pub stands_under : List ℕ → ProductRow → Bool
  unfolding same_text
  stands_under part_no row = is_live row && same_text (lower row.part_no) (lower part_no)

  unfoldable pub create_product : RowId → ℕ → ProductCreate → List ProductRow → Edited ProductOut
  unfolding stands_under to_product
  create_product id now input table =
      let row = created_row id now input in
      if is_empty (keep (stands_under input.part_no) table)
      then done (to_product row) (table ++ row ∷ [])
      else refused duplicate_part_no

  abbrev update_first :
      RowId → ℕ → ProductPatch → List ProductRow → List ProductRow → Edited ProductOut
  unfolding stands_under to_product
  update_first id now patch table [] = refused product_not_found
  update_first id now patch table (row ∷ rows) =
      let new = updated_row now patch row in
      if is_empty (keep (λ other. not (other.id == id) && stands_under new.part_no other) table)
      then done (to_product new) (rewrite (is_target id) (updated_row now patch) table)
      else refused duplicate_part_no

  unfoldable pub update_product : RowId → ℕ → ProductPatch → List ProductRow → Edited ProductOut
  unfolding stands_under to_product
  update_product id now patch table = update_first id now patch table (keep (is_target id) table)

-- An id that has no live row is answered the same way.
unfoldable pub delete_product : RowId → ℕ → List ProductRow → Edited RowId
delete_product id now table = done id (rewrite (is_target id) (deleted_row now) table)
