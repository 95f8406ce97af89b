-- ===== src/Wire/Amounts.antt =====
-- Amounts as text: what `fromSatang` writes, `toSatang` reads.
use jenkin_sri_store.Prelude.{
  ℕ, suc, ◌+◌, ◌*◌, ◌-◌, ◌/◌, ◌%◌, ◌≤◌, ◌≡◌, refl, ap, ◌∙◌, arith, true, false, Option, some, List,
  [], ◌∷◌, ◌++◌, ◌==◌, leb, All, All-append, All-map, length,
}
use jenkin_sri_store.Prelude.Decimal.{
  digits, pad_start, value, value-digits, value-pad_start, length-pad_start, IsDigit,
  digits-IsDigit, pad_start-IsDigit, digits-cons,
}
use jenkin_sri_store.Prelude.Int.{ℤ, pos, negsuc, neg, abs}
use jenkin_sri_store.Wire.{
  string, ◌>>=◌, is_space, is_digit, trim_start, trim_end, trim, cents, units, unsigned, signed,
  max_satang, from_satang, parse_amount, to_satang,
}

-- A text with no white space is its own trim.
abbrev NoSpace : ℕ → Type 0
NoSpace c = is_space c ≡ false

trim_end-NoSpace : (s : List ℕ) → All NoSpace s → trim_end s ≡ s
unfolding trim_end
trim_end-NoSpace [] h = refl
trim_end-NoSpace (c ∷ []) (one, h) = rw one refl
trim_end-NoSpace (c ∷ d ∷ s) (one, h) = rw (trim_end-NoSpace (d ∷ s) h) refl

trim-NoSpace : (s : List ℕ) → All NoSpace s → trim s ≡ s
unfolding trim trim_start
trim-NoSpace [] h = unfold trim_end in refl
trim-NoSpace (c ∷ s) (one, h) = rw one (trim_end-NoSpace (c ∷ s) (one, h))

IsDigit-NoSpace : (c : ℕ) → IsDigit c → NoSpace c
IsDigit-NoSpace c (low, high) = ground arith

-- The digits before the point are read as their value.
units-IsDigit :
    (n : ℕ) (ds s : List ℕ) → All IsDigit ds → units n (ds ++ (b'.' ∷ s)) ≡ cents (value n ds) s
unfolding units
units-IsDigit n [] s h = refl
units-IsDigit n (d ∷ ds) s (one, h) =
    let digit : is_digit d ≡ true = ground arith in
    rw digit (units-IsDigit (n * 10 + (d - b'0')) ds s h)

unsigned-digits : (n : ℕ) (s : List ℕ) → unsigned (digits n ++ (b'.' ∷ s)) ≡ cents n s
unfolding unsigned
unsigned-digits n s =
    let (d, ds, same) = digits-cons n in
    let all : All IsDigit (d ∷ ds) = rw same at (digits-IsDigit n) in
    let digit : is_digit d ≡ true = ground arith in
    let first : d - b'0' ≡ 0 * 10 + (d - b'0') = omega arith in
    let whole : value (d - b'0') ds ≡ n =
      ap (λ (m : ℕ). value m ds) first ∙ (rw same at (value-digits n)) in
    rw (same, digit) (units-IsDigit (d - b'0') ds s all.1 ∙ ap (λ (m : ℕ). cents m s) whole)

-- Two digits spell a number below 100.
cents-pair :
    (n m : ℕ) (s : List ℕ)
    → All IsDigit s
    → length s ≡ 2
    → value 0 s ≡ m
    → cents n s ≡ some (n * 100 + m)
cents-pair n m [] h two e = absurd (omega arith)
cents-pair n m (a ∷ []) h two e = absurd (omega arith)
cents-pair n m (a ∷ b ∷ []) (one, other) two e = ground (arith, other.0)
cents-pair n m (a ∷ b ∷ c ∷ s) h two e = absurd (omega arith)

-- The figure of an amount that is not negative.
abbrev figure : ℕ → List ℕ
figure n = digits (n / 100) ++ (b'.' ∷ pad_start 2 (digits (n % 100)))

unsigned-figure : (n : ℕ) → unsigned (figure n) ≡ some n
unsigned-figure n =
    unsigned-digits (n / 100) (pad_start 2 (digits (n % 100)))
    ∙ cents-pair (n / 100) (n % 100) (pad_start 2 (digits (n % 100)))
        (pad_start-IsDigit 2 (digits (n % 100)) (digits-IsDigit (n % 100)))
        (length-pad_start 1 (n % 100) (omega arith))
        (value-pad_start 2 (digits (n % 100)) ∙ value-digits (n % 100))
    ∙ ap some (omega arith)

figure-NoSpace : (n : ℕ) → All NoSpace (figure n)
figure-NoSpace n =
    All-append NoSpace (digits (n / 100)) (b'.' ∷ pad_start 2 (digits (n % 100)))
      (All-map IsDigit-NoSpace (digits (n / 100)) (digits-IsDigit (n / 100)))
      (
        refl,
        All-map IsDigit-NoSpace (pad_start 2 (digits (n % 100)))
            (pad_start-IsDigit 2 (digits (n % 100)) (digits-IsDigit (n % 100))),
      )

signed-figure : (n : ℕ) → signed (figure n) ≡ some (pos n)
unfolding signed
signed-figure n =
    let (d, ds, same) = digits-cons (n / 100) in
    let all : All IsDigit (d ∷ ds) = rw same at (digits-IsDigit (n / 100)) in
    let no_sign : (d == b'-') ≡ false = ground (arith, all.0) in
    let read : unsigned ((d ∷ ds) ++ (b'.' ∷ pad_start 2 (digits (n % 100)))) ≡ some n =
      rw same at (unsigned-figure n) in
    rw same (rw no_sign (rw read refl))

signed-minus : (n : ℕ) → signed (b'-' ∷ figure n) ≡ some (neg n)
unfolding signed
signed-minus n = rw (unsigned-figure n) refl

signed-from_satang : (a : ℤ) → signed (trim (from_satang a)) ≡ some a
unfolding from_satang
signed-from_satang (pos n) =
    let size : n + 0 ≡ n = omega arith in
    rw size (ap signed (trim-NoSpace (figure n) (figure-NoSpace n)) ∙ signed-figure n)
signed-from_satang (negsuc n) =
    let size : 0 + suc n ≡ suc n = omega arith in
    rw size (
      ap signed (trim-NoSpace (b'-' ∷ figure (suc n)) (refl, figure-NoSpace (suc n)))
      ∙ signed-minus (suc n)
      ∙ ap some (ground arith))

-- An amount that the columns can hold is read back from the text that it is written as, debts
-- included; the arithmetic of fractions plays no part.
pub to_satang-from_satang :
    (satang_of_fraction : ℕ → Option ℤ) (a : ℤ)
    → abs a ≤ max_satang
    → to_satang satang_of_fraction (string (from_satang a)) ≡ some a
unfolding to_satang parse_amount ◌>>=◌
to_satang-from_satang satang_of_fraction a fits =
    let small : leb (abs a) max_satang ≡ true = ground arith in
    rw (signed-from_satang a) (rw small refl)
