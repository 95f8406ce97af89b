-- ===== src/Prelude/Decimal.antt =====
-- Decimal digits as the codes that `String(n)` and `padStart` write, and their value.
use Prim.Native.Nat.{ℕ, zero, suc, ◌+◌, ◌-◌, ◌*◌, ◌/◌, ◌%◌, ◌≤◌, ◌<◌}
use mathlib.Core.Path.{◌≡◌, refl, ap, sym, ◌∙◌}
use mathlib.Core.Logic.{inl, inr}
use mathlib.Core.List.{List, [], ◌∷◌, ◌++◌}
use native.Mathlib.Omega.{arith}
use mathlib.Core.Bool.{false}
use jenkin_sri_store.Prelude.Tests.{◌==◌, if◌then◌else◌, Bool-cases}
use jenkin_sri_store.Prelude.Lists.{length, length-append, All, All-append}

-- The digits of `n` in front of `out`, none for 0; `n` rounds of fuel are enough.
emit : ℕ → ℕ → List ℕ → List ℕ
emit zero n out = out
emit (suc f) n out =
    let rest = emit f (n / 10) ((b'0' + n % 10) ∷ out) in if n == 0 then out else rest

-- `String(n)`.
unfoldable pub digits : ℕ → List ℕ
unfolding emit
digits n = if n == 0 then b'0' ∷ [] else emit n n []

zeros : ℕ → List ℕ
zeros zero = []
zeros (suc n) = b'0' ∷ zeros n

-- `s.padStart(k, '0')`.
unfoldable pub pad_start : ℕ → List ℕ → List ℕ
unfolding zeros
pad_start k s = zeros (k - length s) ++ s

-- The number that digits spell behind `n`.
abbrev pub value : ℕ → List ℕ → ℕ
value n [] = n
value n (c ∷ s) = value (n * 10 + (c - b'0')) s

value-emit : (f n : ℕ) (out : List ℕ) → n ≤ f → value 0 (emit f n out) ≡ value n out
unfolding emit
value-emit zero zero out h = refl
value-emit zero (suc n) out h = absurd (omega arith)
value-emit (suc f) n out h = elim (Bool-cases (n == 0)) [
  | inl e ↦ let z : n ≡ 0 = ground arith in rw z refl
  | inr e ↦ rw e (
      value-emit f (n / 10) ((b'0' + n % 10) ∷ out) (ground arith)
      ∙ ap (λ (m : ℕ). value m out) (omega arith))
]

pub value-digits : (n : ℕ) → value 0 (digits n) ≡ n
unfolding digits
value-digits n = elim (Bool-cases (n == 0)) [
  | inl e ↦ rw e (ground arith)
  | inr e ↦ rw e (value-emit n n [] (omega arith))
]

value-zeros : (k : ℕ) (s : List ℕ) → value 0 (zeros k ++ s) ≡ value 0 s
unfolding zeros
value-zeros zero s = refl
value-zeros (suc k) s = value-zeros k s

pub value-pad_start : (k : ℕ) (s : List ℕ) → value 0 (pad_start k s) ≡ value 0 s
unfolding pad_start
value-pad_start k s = value-zeros (k - length s) s

abbrev pub power_of_10 : ℕ → ℕ
power_of_10 zero = 1
power_of_10 (suc k) = 10 * power_of_10 k

length-emit :
    (f k n : ℕ) (out : List ℕ) → n < power_of_10 k → length (emit f n out) ≤ k + length out
unfolding emit
length-emit zero k n out h = omega arith
length-emit (suc f) zero n out h = ground arith
length-emit (suc f) (suc k) n out h =
    ground (arith, length-emit f k (n / 10) ((b'0' + n % 10) ∷ out) (omega arith))

length-digits : (k n : ℕ) → n < power_of_10 (suc k) → length (digits n) ≤ suc k
unfolding digits
length-digits k n h = ground (arith, length-emit n (suc k) n [] h)

length-zeros : (k : ℕ) → length (zeros k) ≡ k
unfolding zeros
length-zeros zero = refl
length-zeros (suc k) = ap suc (length-zeros k)

-- A number of at most `k` digits is padded to exactly `k`.
pub length-pad_start :
    (k n : ℕ) → n < power_of_10 (suc k) → length (pad_start (suc k) (digits n)) ≡ suc k
unfolding pad_start
length-pad_start k n h = omega (
  arith,
  length-append {0} (zeros (suc k - length (digits n))) (digits n),
  length-zeros (suc k - length (digits n)),
  length-digits k n h,
)

-- Padding loses nothing: the padded digits of different numbers differ.
pub pad_start-digits-injective :
    (k : ℕ) {m n : ℕ} → pad_start k (digits m) ≡ pad_start k (digits n) → m ≡ n
pad_start-digits-injective k {m} {n} e =
    sym (value-pad_start k (digits m) ∙ value-digits m)
    ∙ ap (λ (s : List ℕ). value 0 s) e
    ∙ (value-pad_start k (digits n) ∙ value-digits n)

-- The code of a decimal digit.
abbrev pub IsDigit : ℕ → Type 0
IsDigit c = (b'0' ≤ c) × (c ≤ b'9')

emit-IsDigit : (f n : ℕ) (out : List ℕ) → All IsDigit out → All IsDigit (emit f n out)
unfolding emit
emit-IsDigit zero n out h = h
emit-IsDigit (suc f) n out h = elim (Bool-cases (n == 0)) [
  | inl e ↦ rw e h
  | inr e ↦ rw e (emit-IsDigit f (n / 10) ((b'0' + n % 10) ∷ out) ((omega arith, omega arith), h))
]

pub digits-IsDigit : (n : ℕ) → All IsDigit (digits n)
unfolding digits
digits-IsDigit n = elim (Bool-cases (n == 0)) [
  | inl e ↦ rw e ((omega arith, omega arith), tt)
  | inr e ↦ rw e (emit-IsDigit n n [] tt)
]

zeros-IsDigit : (k : ℕ) → All IsDigit (zeros k)
unfolding zeros
zeros-IsDigit zero = tt
zeros-IsDigit (suc k) = ((omega arith, omega arith), zeros-IsDigit k)

pub pad_start-IsDigit : (k : ℕ) (s : List ℕ) → All IsDigit s → All IsDigit (pad_start k s)
unfolding pad_start
pad_start-IsDigit k s h =
    All-append IsDigit (zeros (k - length s)) s (zeros-IsDigit (k - length s)) h

emit-cons : (f n c : ℕ) (out : List ℕ) → (d : ℕ) × (s : List ℕ) × (emit f n (c ∷ out) ≡ d ∷ s)
unfolding emit
emit-cons zero n c out = (c, out, refl)
emit-cons (suc f) n c out = elim (Bool-cases (n == 0)) [
  | inl e ↦ (c, out, rw e refl)
  | inr e ↦ let (d, s, same) = emit-cons f (n / 10) (b'0' + n % 10) (c ∷ out) in (d, s, rw e same)
]

-- A number has a first digit.
pub digits-cons : (n : ℕ) → (d : ℕ) × (s : List ℕ) × (digits n ≡ d ∷ s)
unfolding digits emit
digits-cons zero = (b'0', [], refl)
digits-cons (suc n) =
    let (d, s, same) = emit-cons n (suc n / 10) (b'0' + suc n % 10) [] in
    let more : (suc n == 0) ≡ false = ground arith in (d, s, rw more same)
