-- ===== src/Wire/Trimmed.antt =====
-- A text that was trimmed has nothing to trim (`trim` of the bodies' checks).
use jenkin_sri_store.Prelude.{ℕ, false, List, [], ◌∷◌, ◌≡◌, refl, ap, ◌∙◌, inl, inr, Bool-cases}
use jenkin_sri_store.Wire.{is_space, trim_start, trim_end, cons_or_drop, trim}

cons_or_drop-trim_end :
    (c : ℕ) (t : List ℕ) → trim_end t ≡ t → trim_end (cons_or_drop c t) ≡ cons_or_drop c t
unfolding trim_end
cons_or_drop-trim_end c [] h = elim (Bool-cases (is_space c)) [
  | inl e ↦ rw e refl
  | inr e ↦ rw (e, e) refl
]
cons_or_drop-trim_end c (d ∷ t) h = rw h refl

trim_end-trim_end : (s : List ℕ) → trim_end (trim_end s) ≡ trim_end s
unfolding trim_end
trim_end-trim_end [] = refl
trim_end-trim_end (c ∷ s) = cons_or_drop-trim_end c (trim_end s) (trim_end-trim_end s)

-- A first letter stays the first.
front_stays :
    (c : ℕ) (t : List ℕ) → is_space c ≡ false → trim_start (cons_or_drop c t) ≡ cons_or_drop c t
unfolding trim_start
front_stays c [] e = rw (e, e) refl
front_stays c (d ∷ t) e = rw e refl

trim_start-trim_end : (s : List ℕ) → trim_start (trim_end (trim_start s)) ≡ trim_end (trim_start s)
unfolding trim_start trim_end
trim_start-trim_end [] = refl
trim_start-trim_end (c ∷ s) = elim (Bool-cases (is_space c)) [
  | inl e ↦ rw e (trim_start-trim_end s)
  | inr e ↦ rw e (front_stays c (trim_end s) e)
]

pub trim-trim : (s : List ℕ) → trim (trim s) ≡ trim s
unfolding trim
trim-trim s = ap trim_end (trim_start-trim_end s) ∙ trim_end-trim_end (trim_start s)
