-- ===== src/Shifts/Drawer.antt =====
-- Which row is a device's drawer, before and after the rows are rewritten.
use jenkin_sri_store.Prelude.{
  keep-keep, ◌≤◌, ◌≡◌, refl, Bool, true, false, none, some, List, [], ◌∷◌, inl, inr, arith, length,
  keep, rewrite, Bool-cases, Option-cases, if◌then◌else◌,
}
use jenkin_sri_store.Store.{RowId, Shift, is_none, Db, ok}
use jenkin_sri_store.Shifts.{
  latest, is_current, drawer_of, open_drawer_of, require_open_shift_id_for,
}

-- `uq_shift_active`: no device has two current drawers.
abbrev pub OneDrawer : List Shift → Type 0
OneDrawer shifts = (device : RowId) → length (keep (is_current device) shifts) ≤ 1

pub latest-eq-none : (xs : List Shift) → latest xs ≡ none → xs ≡ []
unfolding latest
latest-eq-none [] h = refl
latest-eq-none (x ∷ xs) h = ground arith

-- The row that a query returns passes its test.
pub latest-keep :
    (p : Shift → Bool) (xs : List Shift) (x : Shift) → latest (keep p xs) ≡ some x → p x ≡ true
unfolding latest keep
latest-keep p [] x h = cc
latest-keep p (y ∷ xs) x h = elim (Bool-cases (p y)) [
  | inl e ↦ ground (arith, latest-keep p xs x)
  | inr e ↦ latest-keep p xs x (rw e at h)
]

module _ (p q : Shift → Bool) (f : Shift → Shift) where
  -- An update that makes no row pass leaves at most as many that do.
  pub length-keep-rewrite :
      ((x : Shift) → p (f x) ≡ true → p x ≡ true)
      → (xs : List Shift) → length (keep p (rewrite q f xs)) ≤ length (keep p xs)
  unfolding keep rewrite
  length-keep-rewrite h [] = omega arith
  length-keep-rewrite h (x ∷ xs) = ground (arith, h x, length-keep-rewrite h xs)

  keep-rewrite_nil :
      ((x : Shift) → p (f x) ≡ true → p x ≡ true)
      → (xs : List Shift) → keep p xs ≡ []
      → keep p (rewrite q f xs) ≡ []
  unfolding keep rewrite
  keep-rewrite_nil h [] e = refl
  keep-rewrite_nil h (x ∷ xs) e = ground (arith, h x, keep-rewrite_nil h xs)

  -- An update of the one row that passes, so that it no longer does, leaves none.
  pub keep-rewrite_last :
      ((x : Shift) → p (f x) ≡ false)
      → (xs : List Shift) (x : Shift) → length (keep p xs) ≤ 1
      → latest (keep p xs) ≡ some x
      → q x ≡ true
      → keep p (rewrite q f xs) ≡ []
  unfolding keep rewrite latest
  keep-rewrite_last h [] x le e t = cc
  keep-rewrite_last h (y ∷ xs) x le e t = elim (Bool-cases (p y)) [
    | inl py ↦
        let rest : keep p xs ≡ [] = ground arith in
        let same : y ≡ x = ground arith in
        let hit : q y ≡ true = rw same t in
        let none_left : keep p (rewrite q f xs) ≡ [] = keep-rewrite_nil (λ z k. cc (h z)) xs rest in
        ground (arith, h y)
    | inr py ↦
        let ih : keep p (rewrite q f xs) ≡ [] =
          keep-rewrite_last h xs x (ground arith) (rw py at e) t in
        ground (arith, h y)
  ]

  -- An update that keeps rows passing, as long as there is one at all.
  pub latest-keep-rewrite :
      ((x : Shift) → p (f x) ≡ p x)
      → (xs : List Shift) (x : Shift) → length (keep p xs) ≤ 1
      → latest (keep p xs) ≡ some x
      → q x ≡ true
      → latest (keep p (rewrite q f xs)) ≡ some (f x)
  unfolding keep rewrite latest
  latest-keep-rewrite h [] x le e t = cc
  latest-keep-rewrite h (y ∷ xs) x le e t = elim (Bool-cases (p y)) [
    | inl py ↦
        let rest : keep p xs ≡ [] = ground arith in
        let same : y ≡ x = ground arith in
        let hit : q y ≡ true = rw same t in
        let none_left : keep p (rewrite q f xs) ≡ [] = keep-rewrite_nil (λ z k. cc (h z)) xs rest in
        ground (arith, h y)
    | inr py ↦
        let ih : latest (keep p (rewrite q f xs)) ≡ some (f x) =
          latest-keep-rewrite h xs x (ground arith) (rw py at e) t in
        ground (arith, h y)
  ]

singleton : (xs : List Shift) (x : Shift) → length xs ≤ 1 → latest xs ≡ some x → xs ≡ x ∷ []
unfolding latest
singleton [] x h e = cc
singleton (y ∷ []) x h e = ground arith
singleton (y ∷ (z ∷ xs)) x h e = absurd (omega arith)

-- A device's one current drawer takes money exactly while it has not been closed.
pub open_drawer_of-drawer :
    (device : RowId) (xs : List Shift) (x : Shift)
    → OneDrawer xs
    → drawer_of device xs ≡ some x
    → open_drawer_of device xs ≡ (if is_none x.closed_at then some x else none)
unfolding drawer_of open_drawer_of latest
open_drawer_of-drawer device xs x one found =
    let only : keep (is_current device) xs ≡ x ∷ [] = singleton _ x (one device) found in
    rw (keep-keep (is_current device) (λ y. is_none y.closed_at) xs)
      (rw only (unfold keep in ground arith))

pub open_drawer_of-none :
    (device : RowId) (xs : List Shift)
    → drawer_of device xs ≡ none
    → open_drawer_of device xs ≡ none
unfolding drawer_of open_drawer_of latest
open_drawer_of-none device xs free =
    let nothing : keep (is_current device) xs ≡ [] = latest-eq-none _ free in
    rw (keep-keep (is_current device) (λ y. is_none y.closed_at) xs)
      (rw nothing (unfold keep in refl))

-- A call that asked for the open drawer and got one read it, and wrote nothing.
pub require_open_shift_id_for-ok :
    (device : RowId) (s : Db) {id : RowId} {t : Db}
    → require_open_shift_id_for device s ≡ ok (id, t)
    → (t ≡ s) × ((x : Shift) × (open_drawer_of device s.shifts ≡ some x) × (x.id ≡ id))
unfolding require_open_shift_id_for
require_open_shift_id_for-ok device s h = elim (Option-cases (open_drawer_of device s.shifts)) [
  | inl missing ↦ absurd (ground arith)
  | inr (x, found) ↦ (ground arith, (x, found, ground arith))
]
