-- ===== src/Prelude/Sorted.antt =====
-- Lists sorted by a strict order, their filters, and the cut behind an item.
use Prim.Native.Nat.{ℕ, zero, suc, ◌≤◌}
use mathlib.Core.Path.{◌≡◌, refl, sym, ap, ◌∙◌}
use mathlib.Core.Logic.{◌⊎◌, inl, inr}
use mathlib.Core.Bool.{Bool, true, false}
use mathlib.Core.List.{List, [], ◌∷◌, ◌++◌}
use native.Mathlib.Omega.{arith}
use jenkin_sri_store.Prelude.Tests.{if◌then◌else◌, Bool-cases}
use jenkin_sri_store.Prelude.Lists.{
  length, keep, insert_by, sort_by, All, All-map, All-keep, All-insert_by, All-sort_by,
}

module _ {A : Type 0} where
  -- `LIMIT n`, and what it leaves.
  unfoldable pub take : ℕ → List A → List A
  take zero xs = []
  take (suc n) [] = []
  take (suc n) (x ∷ xs) = x ∷ take n xs

  unfoldable pub drop : ℕ → List A → List A
  drop zero xs = xs
  drop (suc n) [] = []
  drop (suc n) (x ∷ xs) = drop n xs

  pub take-drop : (n : ℕ) (xs : List A) → take n xs ++ drop n xs ≡ xs
  unfolding take drop
  take-drop zero xs = refl
  take-drop (suc n) [] = refl
  take-drop (suc n) (x ∷ xs) = ap (◌∷◌ x) (take-drop n xs)

  pub length-drop : (n : ℕ) (x : A) (xs : List A) → length (drop (suc n) (x ∷ xs)) ≤ length xs
  unfolding drop
  length-drop zero x xs = omega arith
  length-drop (suc n) x [] = omega arith
  length-drop (suc n) x (y ∷ ys) = omega (arith, length-drop n y ys)

  -- The last item, behind a first one.
  unfoldable pub last_of : A → List A → A
  last_of x [] = x
  last_of x (y ∷ ys) = last_of y ys

  pub All-last_of : (P : A → Type 0) (x : A) (xs : List A) → P x → All P xs → P (last_of x xs)
  unfolding last_of
  All-last_of P x [] first h = first
  All-last_of P x (y ∷ ys) first (one, h) = All-last_of P y ys one h

  pub All-take : (P : A → Type 0) (n : ℕ) (xs : List A) → All P xs → All P (take n xs)
  unfolding take
  All-take P zero xs h = tt
  All-take P (suc n) [] h = tt
  All-take P (suc n) (x ∷ xs) (one, h) = (one, All-take P n xs h)

  pub All-kept : (p : A → Bool) (xs : List A) → All (λ x. p x ≡ true) (keep p xs)
  unfolding keep
  All-kept p [] = tt
  All-kept p (x ∷ xs) = elim (Bool-cases (p x)) [
    | inl e ↦ rw e (e, All-kept p xs)
    | inr e ↦ rw e (All-kept p xs)
  ]

module _ {A : Type 0} (gt : A → A → Bool) (asym : (a b : A) → gt a b ≡ true → gt b a ≡ false)
    (trans : (a b c : A) → gt a b ≡ true → gt b c ≡ true → gt a c ≡ true) where
  abbrev pub Strict : List A → Type 0
  Strict [] = Unit
  Strict (x ∷ xs) = All (λ y. gt y x ≡ true) xs × Strict xs

  abbrev pub Apart : List A → Type 0
  Apart [] = Unit
  Apart (x ∷ xs) = All (λ y. (gt y x ≡ true) ⊎ (gt x y ≡ true)) xs × Apart xs

  pub Apart-keep : (p : A → Bool) (xs : List A) → Apart xs → Apart (keep p xs)
  unfolding keep
  Apart-keep p [] h = tt
  Apart-keep p (x ∷ xs) (one, h) = elim (Bool-cases (p x)) [
    | inl e ↦ rw e (All-keep _ p xs one, Apart-keep p xs h)
    | inr e ↦ rw e (Apart-keep p xs h)
  ]

  -- The rows behind an item of a sorted list are those that are greater.
  keep_greater : (z : A) (xs : List A) → All (λ y. gt y z ≡ true) xs → keep (λ y. gt y z) xs ≡ xs
  unfolding keep
  keep_greater z [] h = refl
  keep_greater z (x ∷ xs) (one, h) = rw one (ap (◌∷◌ x) (keep_greater z xs h))

  irreflexive : (x : A) → gt x x ≡ false
  irreflexive x = elim (Bool-cases (gt x x)) [ inl e ↦ asym x x e | inr e ↦ e ]

  pub keep-drop :
      (n : ℕ) (x : A) (xs : List A)
      → Strict (x ∷ xs)
      → keep (λ y. gt y (last_of x (take n xs))) (x ∷ xs) ≡ drop n xs
  unfolding keep take drop last_of
  keep-drop zero x xs (above, h) = rw (irreflexive x) (keep_greater x xs above)
  keep-drop (suc n) x [] h = rw (irreflexive x) refl
  keep-drop (suc n) x (y ∷ ys) ((one, above), h) =
      rw
        (asym (last_of y (take n ys)) x
          (All-last_of (λ z. gt z x ≡ true) y (take n ys) one (All-take _ n ys above)))
        (keep-drop n y ys h)

  module _ (before : A → A → Bool) (below : (a b : A) → before a b ≡ true → gt a b ≡ false)
      (not_below : (a b : A) → before a b ≡ false → gt a b ≡ true) where
    insert-front :
        (x : A) (xs : List A) → All (λ y. gt y x ≡ true) xs → insert_by before x xs ≡ x ∷ xs
    unfolding insert_by
    insert-front x [] h = refl
    insert-front x (y ∷ ys) (one, h) = elim (Bool-cases (before x y)) [
      | inl e ↦ rw e refl
      | inr e ↦ let over = not_below x y e in let no = asym y x one in absurd (cc)
    ]

    insert-Strict :
        (x : A) (xs : List A)
        → Strict xs
        → All (λ y. (gt y x ≡ true) ⊎ (gt x y ≡ true)) xs
        → Strict (insert_by before x xs)
    unfolding insert_by
    insert-Strict x [] h apart = (tt, tt)
    insert-Strict x (y ∷ ys) (above, h) (one, apart) = elim (Bool-cases (before x y)) [
      | inl e ↦
          let no = below x y e in
          let over : gt y x ≡ true = elim one [ inl g ↦ g | inr g ↦ absurd (cc) ] in
          rw e ((over, All-map (λ z g. trans z y x g over) ys above), (above, h))
      | inr e ↦ rw e (
        All-insert_by (λ z. gt z y ≡ true) before x ys (not_below x y e) above,
        insert-Strict x ys h apart,
      )
    ]

    pub sort-Strict : (xs : List A) → Apart xs → Strict (sort_by before xs)
    unfolding sort_by
    sort-Strict [] h = tt
    sort-Strict (x ∷ xs) (one, h) =
        insert-Strict x (sort_by before xs) (sort-Strict xs h) (All-sort_by _ before xs one)

    -- What is greater than the first one below `x` is greater than `x`.
    above-front :
        (x y : A) (ys : List A)
        → before x y ≡ true
        → (gt y x ≡ true) ⊎ (gt x y ≡ true)
        → All (λ z. gt z y ≡ true) ys
        → All (λ z. gt z x ≡ true) (y ∷ ys)
    above-front x y ys e one above =
        let no = below x y e in
        let over : gt y x ≡ true = elim one [ inl g ↦ g | inr g ↦ absurd (cc) ] in
        (over, All-map (λ z g. trans z y x g over) ys above)

    keep-step :
        (p : A → Bool) (x y : A) (ys : List A)
        → (p x ≡ true) ⊎ (p x ≡ false)
        → (p y ≡ true) ⊎ (p y ≡ false)
        → before x y ≡ false
        → keep p (insert_by before x ys)
          ≡ (if p x then insert_by before x (keep p ys) else keep p ys)
        → keep p (y ∷ insert_by before x ys)
          ≡ (if p x then insert_by before x (keep p (y ∷ ys)) else keep p (y ∷ ys))
    unfolding keep insert_by
    keep-step p x y ys (inl a) (inl b) e ih = rw (a, b, e) (ap (◌∷◌ y) (rw a at ih))
    keep-step p x y ys (inl a) (inr b) e ih = rw (a, b) (rw a at ih)
    keep-step p x y ys (inr a) (inl b) e ih = rw (a, b) (ap (◌∷◌ y) (rw a at ih))
    keep-step p x y ys (inr a) (inr b) e ih = rw (a, b) (rw a at ih)

    keep-insert :
        (p : A → Bool) (x : A) (xs : List A)
        → Strict xs
        → All (λ y. (gt y x ≡ true) ⊎ (gt x y ≡ true)) xs
        → keep p (insert_by before x xs)
          ≡ (if p x then insert_by before x (keep p xs) else keep p xs)
    unfolding keep insert_by
    keep-insert p x [] h apart = refl
    keep-insert p x (y ∷ ys) (above, h) (one, apart) = elim (Bool-cases (before x y)) [
      | inl e ↦
          let all = All-keep _ p (y ∷ ys) (above-front x y ys e one above) in
          rw e (
            ap (λ l. if p x then l else keep p (y ∷ ys))
              (sym (insert-front x (keep p (y ∷ ys)) all)))
      | inr e ↦
          rw e (
            keep-step p x y ys (Bool-cases (p x)) (Bool-cases (p y)) e (keep-insert p x ys h apart))
    ]

    -- A filter of the sorted list is the sorted filter.
    pub keep-sort_by :
        (p : A → Bool) (xs : List A)
        → Apart xs
        → keep p (sort_by before xs) ≡ sort_by before (keep p xs)
    unfolding keep sort_by
    keep-sort_by p [] h = refl
    keep-sort_by p (x ∷ xs) (one, h) =
        keep-insert p x (sort_by before xs) (sort-Strict xs h) (All-sort_by _ before xs one)
        ∙ elim (Bool-cases (p x)) [
          | inl e ↦ rw e (ap (insert_by before x) (keep-sort_by p xs h))
          | inr e ↦ rw e (keep-sort_by p xs h)
        ]
