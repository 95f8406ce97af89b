-- ===== src/Wire/Bounds.antt =====
-- What a body that was accepted holds.
use jenkin_sri_store.Prelude.{
  ℕ, suc, ◌≤◌, ◌<◌, ◌≡◌, refl, sym, ap, arith, Bool, true, false, not, Option, some, List, [], ◌∷◌,
  leb, leb→le, length, All,
}
use jenkin_sri_store.Prelude.Int.{ℤ, pos, negsuc, abs}
use jenkin_sri_store.Wire.{
  Json, undefined, integer, array, given, require, is_empty, entries, natural, max_satang,
  max_lines, max_qty, to_satang, to_natural, parse_items_array, parse_line_qty, each_line,
}
use jenkin_sri_store.Wire.Bodies.{parse_line_no}

pub require-some : (b : Bool) {u : Unit {0}} → require b ≡ some u → b ≡ true
require-some true h = refl
require-some false h = cc

to_satang-bound :
    (satang_of_fraction : ℕ → Option ℤ) (j : Json) {a : ℤ}
    → to_satang satang_of_fraction j ≡ some a
    → abs a ≤ max_satang
unfolding to_satang
to_satang-bound satang_of_fraction j {a} h = given _ _ h λ v e k. given _ _ k λ u eu ku.
    let small = require-some (leb (abs v) max_satang) eu in
    let same : v ≡ a = cc in rw same at (leb→le (abs v) max_satang small)

pub to_natural-le :
    (satang_of_fraction : ℕ → Option ℤ) (j : Json) {n : ℕ}
    → to_natural satang_of_fraction j ≡ some n
    → n ≤ max_satang
unfolding to_natural
to_natural-le satang_of_fraction j {n} h =
    given _ _ h λ a e k. natural-le a (to_satang-bound satang_of_fraction j e) k
  where
    natural-le : (a : ℤ) → abs a ≤ max_satang → natural a ≡ some n → n ≤ max_satang
    natural-le (pos m) small same = let e : m ≡ n = cc in omega arith
    natural-le (negsuc m) small same = absurd (cc)

pub parse_line_qty-bounds : (j : Json) {n : ℕ} → parse_line_qty j ≡ some n → (0 < n) × (n ≤ max_qty)
unfolding parse_line_qty
parse_line_qty-bounds (integer (pos m)) h = ground arith
parse_line_qty-bounds _ h = absurd (cc)

pub parse_line_no-pos : (i : ℕ) (j : Json) {n : ℕ} → parse_line_no i j ≡ some n → 0 < n
unfolding parse_line_no
parse_line_no-pos i undefined h = ground arith
parse_line_no-pos i (integer (pos m)) h = ground arith
parse_line_no-pos i _ h = absurd (cc)

is_empty-pos : (js : List Json) → not (is_empty js) ≡ true → 0 < length js
is_empty-pos [] h = absurd (cc)
is_empty-pos (j ∷ js) h = omega arith

pub parse_items_array-bounds :
    (j : Json) {js : List Json}
    → parse_items_array j ≡ some js
    → (0 < length js) × (length js ≤ max_lines)
unfolding parse_items_array
parse_items_array-bounds (array js) {js = got} h = given _ _ h λ u e k. given _ _ k λ v f m.
    let some_line = require-some (not (is_empty (entries js))) e in
    let few = require-some (leb (length (entries js)) max_lines) f in
    let same : entries js ≡ got = cc in
    let both : (0 < length (entries js)) × (length (entries js) ≤ max_lines) =
      (is_empty-pos (entries js) some_line, leb→le (length (entries js)) max_lines few) in
    rw same at both
parse_items_array-bounds _ h = absurd (cc)

-- Each line that came out came of a line that went in.
pub each_line-All {ℓ} :
    {A : Type 0} (P : A → Type ℓ) (f : ℕ → Json → Option A)
    → ((i : ℕ) (j : Json) (x : A) → f i j ≡ some x → P x)
    → (i : ℕ) (js : List Json) {xs : List A} → each_line f i js ≡ some xs
    → All P xs × (length xs ≡ length js)
unfolding each_line
each_line-All P f one i [] {xs} h = let e : [] ≡ xs = cc in rw (sym e) (tt, refl)
each_line-All P f one i (j ∷ js) {xs} h = given _ _ h λ x ex k. given _ _ k λ rest er m.
    let (all, len) = each_line-All P f one (suc i) js er in
    let e : x ∷ rest ≡ xs = cc in rw (sym e) ((one i j x ex, all), ap suc len)
