-- ===== src/Wire.antt =====
-- What crosses the wire: a parsed JSON body, and the checks that the body parsers share
-- (server/src/sales/sales.dto.ts and server/src/common/money.ts). A text is the list of its codes.
pub mod Amounts
pub mod Bodies
pub mod Bounds
pub mod Accepted
pub mod Trimmed
use jenkin_sri_store.Prelude.{
  ℕ, suc, ◌+◌, ◌*◌, ◌-◌, ◌/◌, ◌%◌, Bool, true, false, ◌&&◌, ◌||◌, not, Option, none, some, List, [],
  ◌∷◌, ◌++◌, ◌==◌, ltb, leb, ◌≡◌, refl, if◌then◌else◌, length,
}
use jenkin_sri_store.Prelude.Decimal.{digits, pad_start}
use jenkin_sri_store.Prelude.Int.{ℤ, pos, negsuc, neg, abs}

-- The names of the fields that the parsers read.
pub data Field : Type 0 where
  id items subtotal discount total payment_method customer_id customer_name customer_phone : Field
  mechanic_id mechanic_name mechanic_delta override_credit_limit line_no product_id part_no : Field
  name name_th qty price sale_id refund_method reason original_qty amount note : Field
  allow_overpayment status notes valid_days : Field

-- A value of `JSON.parse`: a number is an integer, or a fraction by its code. An object is read by
-- its fields, and one that it lacks is undefined.
mutual
  pub data Json : Type 0 where
    undefined null : Json
    bool : Bool → Json
    integer : ℤ → Json
    fraction : ℕ → Json
    string : List ℕ → Json
    array : Jsons → Json
    object : (Field → Json) → Json

  pub data Jsons : Type 0 where
    end : Jsons
    item : Json → Jsons → Jsons

unfoldable pub entries : Jsons → List Json
entries end = []
entries (item j js) = j ∷ entries js

-- A check that fails is a 400; its message is left out.
infixl 5 ◌>>=◌ ◌>>◌
unfoldable pub ◌>>=◌ : {A B : Type 0} → Option A → (A → Option B) → Option B
none >>= f = none
some a >>= f = f a

abbrev pub ◌>>◌ : {B : Type 0} → Option (Unit {0}) → Option B → Option B
m >> k = m >>= λ _. k

-- A block that gave a result ran its first check, and then the rest.
pub given {ℓ} :
    {A B : Type 0} {P : Type ℓ} (m : Option A) (f : A → Option B) {b : B}
    → (m >>= f) ≡ some b
    → ((a : A) → m ≡ some a → f a ≡ some b → P)
    → P
unfolding ◌>>=◌
given none f h k = cc
given (some a) f h k = k a refl h

abbrev pub require : Bool → Option (Unit {0})
require true = some tt
require false = none

-- White space and line ends, which `trim` takes off.
abbrev pub is_space : ℕ → Bool
is_space c =
    (leb 9 c && leb c 13)
    || (c == 32)
    || (c == 160)
    || (c == 5760)
    || (leb 8192 c && leb c 8202)
    || (c == 8232)
    || (c == 8233)
    || (c == 8239)
    || (c == 8287)
    || (c == 12288)
    || (c == 65279)

unfoldable pub trim_start : List ℕ → List ℕ
trim_start [] = []
trim_start (c ∷ s) = let rest = trim_start s in if is_space c then rest else c ∷ s

abbrev pub cons_or_drop : ℕ → List ℕ → List ℕ
cons_or_drop c [] = if is_space c then [] else c ∷ []
cons_or_drop c (d ∷ s) = c ∷ d ∷ s

unfoldable pub trim_end : List ℕ → List ℕ
trim_end [] = []
trim_end (c ∷ s) = cons_or_drop c (trim_end s)

-- `s.trim()`.
unfoldable pub trim : List ℕ → List ℕ
unfolding trim_start trim_end
trim s = trim_end (trim_start s)

abbrev pub is_empty : {A : Type 0} → List A → Bool
is_empty [] = true
is_empty (x ∷ xs) = false

unfoldable pub same_text : List ℕ → List ℕ → Bool
same_text [] [] = true
same_text (c ∷ s) (d ∷ t) = (c == d) && same_text s t
same_text _ _ = false

-- The digits, and what is left behind them, of `^-?\d+(\.\d{1,2})?$`, in satang.
abbrev pub is_digit : ℕ → Bool
is_digit c = leb b'0' c && leb c b'9'

abbrev pub cents : ℕ → List ℕ → Option ℕ
cents n (a ∷ []) = if is_digit a then some (n * 100 + 10 * (a - b'0')) else none
cents n (a ∷ b ∷ []) =
    if is_digit a && is_digit b then some (n * 100 + 10 * (a - b'0') + (b - b'0')) else none
cents n _ = none

unfoldable pub units : ℕ → List ℕ → Option ℕ
units n [] = some (n * 100)
units n (c ∷ s) =
    let rest = units (n * 10 + (c - b'0')) s in
    if is_digit c then rest else if c == b'.' then cents n s else none

unfoldable pub unsigned : List ℕ → Option ℕ
unfolding units
unsigned [] = none
unsigned (c ∷ s) = if is_digit c then units (c - b'0') s else none

abbrev pub negated : Option ℕ → Option ℤ
negated none = none
negated (some n) = some (neg n)

abbrev pub positive : Option ℕ → Option ℤ
positive none = none
positive (some n) = some (pos n)

unfoldable pub signed : List ℕ → Option ℤ
unfolding unsigned
signed [] = none
signed (c ∷ s) = if c == b'-' then negated (unsigned s) else positive (unsigned (c ∷ s))

-- `MAX_SATANG`: ten digits before the point.
abbrev pub max_satang : ℕ
max_satang = 999999999999

abbrev pub scaled : ℤ → ℤ
scaled (pos n) = pos (100 * n)
scaled (negsuc n) = neg (100 * suc n)

-- `fromSatang`.
unfoldable pub from_satang : ℤ → List ℕ
from_satang a =
    let figure = digits (abs a / 100) ++ (b'.' ∷ pad_start 2 (digits (abs a % 100))) in
    elim a [ pos n ↦ figure | negsuc n ↦ b'-' ∷ figure ]

abbrev pub natural : ℤ → Option ℕ
natural (pos n) = some n
natural (negsuc n) = none

-- The satang of a fraction with at most two decimals are the runtime's floating arithmetic.
module _ (satang_of_fraction : ℕ → Option ℤ) where
  -- `parse` of money.ts.
  unfoldable pub parse_amount : Json → Option ℤ
  unfolding trim signed
  parse_amount (integer v) = some (scaled v)
  parse_amount (fraction k) = satang_of_fraction k
  parse_amount (string s) = signed (trim s)
  parse_amount _ = none

  -- `toSatang`.
  unfoldable pub to_satang : Json → Option ℤ
  unfolding parse_amount
  to_satang value = do a ← parse_amount value; require (leb (abs a) max_satang); some a

  -- An amount that must not be negative, `parseLinePrice` for one.
  unfoldable pub to_natural : Json → Option ℕ
  unfolding to_satang
  to_natural value = do a ← to_satang value; natural a

-- `requiredString`.
unfoldable pub required_string : Json → Option (List ℕ)
unfolding trim
required_string (string s) = if is_empty (trim s) then none else some s
required_string _ = none

-- The number by which the store knows a text.
module _ (intern : List ℕ → ℕ) where
  -- `optionalString`: the empty text is null.
  unfoldable pub optional_string : Json → Option (Option ℕ)
  optional_string undefined = some none
  optional_string null = some none
  optional_string (string s) = if is_empty s then some none else some (some (intern s))
  optional_string _ = none

  -- `textKeepingEmpty`: the empty text is kept.
  unfoldable pub text_keeping_empty : Json → Option (Option ℕ)
  text_keeping_empty undefined = some none
  text_keeping_empty null = some none
  text_keeping_empty (string s) = some (some (intern s))
  text_keeping_empty _ = none

-- `asObject`.
unfoldable pub as_object : Json → Option (Field → Json)
as_object (object f) = some f
as_object _ = none

-- `booleanOrFalse`.
unfoldable pub boolean_or_false : Json → Option Bool
boolean_or_false undefined = some false
boolean_or_false null = some false
boolean_or_false (bool b) = some b
boolean_or_false _ = none

-- `MAX_LINES`, of a bill, a quote and a credit note.
abbrev pub max_lines : ℕ
max_lines = 200

-- `parseItemsArray`.
unfoldable pub parse_items_array : Json → Option (List Json)
unfolding entries
parse_items_array (array js) = do
  require (not (is_empty (entries js)))
  require (leb (length (entries js)) max_lines)
  some (entries js)
parse_items_array _ = none

abbrev pub max_qty : ℕ
max_qty = 1000000

-- `parseLineQty`.
unfoldable pub parse_line_qty : Json → Option ℕ
parse_line_qty (integer (pos n)) =
    if ltb 0 n then (if leb n max_qty then some n else none) else none
parse_line_qty _ = none

-- `items.map((raw, i) => f(raw, i))`, where `f` may throw.
unfoldable pub each_line : {A : Type 0} → (ℕ → Json → Option A) → ℕ → List Json → Option (List A)
each_line f i [] = some []
each_line f i (j ∷ js) = do x ← f i j; xs ← each_line f (suc i) js; some (x ∷ xs)

-- `value ?? fallback`.
abbrev pub or_else : Json → Json → Json
or_else undefined fallback = fallback
or_else null fallback = fallback
or_else j fallback = j
