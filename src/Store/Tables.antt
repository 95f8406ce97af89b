-- ===== src/Store/Tables.antt =====
-- A table read and written by its primary key.
use jenkin_sri_store.Prelude.{
  ℕ, ◌≡◌, ◌≢◌, Bool, true, false, Option, none, some, arith, ◌==◌, if◌then◌else◌,
}

-- The rows of a table by their key; a missing key has no row.
abbrev pub Table : Type 0 → Type 0
Table V = ℕ → Option V

module _ {V : Type 0} where
  -- `INSERT` of a new key, and the write of a whole row.
  abbrev pub put : ℕ → V → Table V → Table V
  put k v t j = if k == j then some v else t j

  -- `UPDATE … WHERE id = k`: a missing row is left missing.
  abbrev pub on_row : (V → V) → Option V → Option V
  on_row f none = none
  on_row f (some v) = some (f v)

  abbrev pub update : ℕ → (V → V) → Table V → Table V
  update k f t j = if k == j then on_row f (t j) else t j

  abbrev pub is_some : Option V → Bool
  is_some none = false
  is_some (some v) = true

  -- `IS NULL`.
  abbrev pub is_none : Option V → Bool
  is_none none = true
  is_none (some v) = false

  pub put_self : (k : ℕ) (v : V) (t : Table V) → put k v t k ≡ some v
  put_self k v t = ground arith

  pub put_ne : (k j : ℕ) (v : V) (t : Table V) → k ≢ j → put k v t j ≡ t j
  put_ne k j v t h = ground arith

  pub update_ne : (k j : ℕ) (f : V → V) (t : Table V) → k ≢ j → update k f t j ≡ t j
  update_ne k j f t h = ground arith

  pub update_self :
      (k : ℕ) (f : V → V) (t : Table V) (v : V) → t k ≡ some v → update k f t k ≡ some (f v)
  update_self k f t v h = ground arith
