-- ===== src/Wire/Accepted.antt =====
-- The bodies that the parsers let through.
use jenkin_sri_store.Prelude.{
  ℕ, ◌+◌, ◌≤◌, ◌<◌, ◌≡◌, refl, sym, ap, ◌∙◌, arith, true, false, Option, some, List, [], ◌∷◌, ◌==◌,
  leb, leb→le, keep, length, All, Bool-cases, inl, inr,
}
use jenkin_sri_store.Prelude.Int.{ℤ, pos}
use jenkin_sri_store.Store.{Text}
use jenkin_sri_store.Sales.Request.{SaleLine, CreateSale}
use jenkin_sri_store.Quotes.{QuoteLine, QuoteCreate}
use jenkin_sri_store.Returns.Request.{ReturnLine, CreateReturn}
use jenkin_sri_store.Wire.{Field, Json, integer, given, max_satang, max_lines, max_qty}
use jenkin_sri_store.Wire.Bounds.{
  require-some, to_natural-le, parse_line_qty-bounds, parse_line_no-pos, parse_items_array-bounds,
  each_line-All,
}
use jenkin_sri_store.Wire.Bodies.{
  has_number, all_apart, parse_sale_line, parse_create_sale, parse_quote_line, parse_quote_create,
  parse_return_line, parse_create_return, max_valid_days, parse_valid_days,
}

-- The quantity and the price of a line are figures that the columns hold, and it takes something.
abbrev pub Priced : ℕ → ℕ → Type 0
Priced qty price = (0 < qty) × (qty ≤ max_qty) × (price ≤ max_satang)

-- The three amounts, and the number of lines, of a bill or a quote.
abbrev pub Coherent : ℕ → ℕ → ℕ → ℕ → Type 0
Coherent subtotal discount total lines =
    (discount ≤ subtotal)
    × (subtotal ≤ max_satang)
    × (total ≤ max_satang)
    × (0 < lines)
    × (lines ≤ max_lines)

has_number-keep :
    (n : ℕ) (ls : List SaleLine)
    → has_number n ls ≡ false
    → length (keep (λ (l : SaleLine). l.line_no == n) ls) ≡ 0
unfolding has_number keep
has_number-keep n [] h = refl
has_number-keep n (l ∷ ls) h = elim (Bool-cases (l.line_no == n)) [
  | inl same ↦ absurd (ground arith)
  | inr other ↦ rw other (has_number-keep n ls (ground arith))
]

all_apart-keep :
    (n : ℕ) (ls : List SaleLine)
    → all_apart ls ≡ true
    → length (keep (λ (l : SaleLine). l.line_no == n) ls) ≤ 1
unfolding all_apart keep
all_apart-keep n [] h = omega arith
all_apart-keep n (l ∷ ls) h = elim (Bool-cases (has_number l.line_no ls)) [
  | inl twice ↦ absurd (ground arith)
  | inr once ↦ elim (Bool-cases (l.line_no == n)) [
    | inl same ↦
        let e : l.line_no ≡ n = ground arith in
        let none_left = has_number-keep n ls (rw e at once) in rw same (omega (arith, none_left))
    | inr other ↦ rw other (all_apart-keep n ls (ground arith))
  ]
]

parse_valid_days-bounds :
    (j : Json) (n : ℕ) → parse_valid_days j ≡ some (some n) → (0 < n) × (n ≤ max_valid_days)
unfolding parse_valid_days
parse_valid_days-bounds (integer (pos m)) n h = ground arith
parse_valid_days-bounds _ n h = absurd (cc)

module _ (satang_of_fraction : ℕ → Option ℤ) (intern : List ℕ → Text) where
  sale_line-Priced :
      (i : ℕ) (j : Json) (l : SaleLine)
      → parse_sale_line satang_of_fraction intern i j ≡ some l
      → Priced l.qty l.price × (0 < l.line_no)
  unfolding parse_sale_line
  sale_line-Priced i j l h = given _ _ h λ b eb k. given _ _ k λ qty eq k. given _ _ k λ no en k.
      given _ _ k λ price ep k. given _ _ k λ p e1 k. given _ _ k λ part e2 k.
        given _ _ k λ name e3 k. given _ _ k λ th e4 k.
          let (some_qty, fits) = parse_line_qty-bounds (b Field.qty) eq in
          let cheap = to_natural-le satang_of_fraction (b Field.price) ep in
          let numbered = parse_line_no-pos i (b Field.line_no) en in
          let same_qty : qty ≡ l.qty = cc in
          let same_price : price ≡ l.price = cc in
          let same_no : no ≡ l.line_no = cc in
          (
            (rw same_qty at some_qty, rw same_qty at fits, rw same_price at cheap),
            rw same_no at numbered,
          )

  -- A bill that was accepted: its discount is within its subtotal, its amounts are ones that the
  -- columns hold, it has a line and two hundred at most, each line takes something at a price that
  -- the columns hold, and no two lines have one number.
  pub parse_create_sale_bounds :
      (body : Json) (dto : CreateSale)
      → parse_create_sale satang_of_fraction intern body ≡ some dto
      → Coherent dto.subtotal dto.discount dto.total (length dto.items)
        × All (λ (l : SaleLine). Priced l.qty l.price × (0 < l.line_no)) dto.items
        × ((n : ℕ) → length (keep (λ (l : SaleLine). l.line_no == n) dto.items) ≤ 1)
  unfolding parse_create_sale
  parse_create_sale_bounds body dto h = given _ _ h λ b eb k. given _ _ k λ raw er k.
      given _ _ k λ subtotal es k. given _ _ k λ discount ed k. given _ _ k λ total et k.
        given _ _ k λ party ep k. given _ _ k λ items ei k. given _ _ k λ u1 eu k.
          given _ _ k λ u2 ev k.
            let (some_line, few) = parse_items_array-bounds (b Field.items) er in
            let (priced, len) = each_line-All _ _ sale_line-Priced 0 raw ei in
            let apart = require-some (all_apart items) eu in
            let within = leb→le discount subtotal (require-some (leb discount subtotal) ev) in
            let small = to_natural-le satang_of_fraction (b Field.subtotal) es in
            let small_total = to_natural-le satang_of_fraction (b Field.total) et in
            let is_items : items ≡ dto.items = cc in
            let is_subtotal : subtotal ≡ dto.subtotal = cc in
            let is_discount : discount ≡ dto.discount = cc in
            let is_total : total ≡ dto.total = cc in
            rw (sym is_items, sym is_subtotal, sym is_discount, sym is_total)
              (
                (
                  within,
                  small,
                  small_total,
                  omega (arith, some_line, len),
                  omega (arith, few, len),
                ),
                priced,
                λ n. all_apart-keep n items apart,
              )

  quote_line-Priced :
      (i : ℕ) (j : Json) (l : QuoteLine)
      → parse_quote_line satang_of_fraction intern i j ≡ some l
      → Priced l.qty l.price × (l.line_no ≡ i + 1)
  unfolding parse_quote_line
  quote_line-Priced i j l h = given _ _ h λ b eb k. given _ _ k λ qty eq k.
      given _ _ k λ price ep k. given _ _ k λ p e1 k. given _ _ k λ name e2 k.
        let (some_qty, fits) = parse_line_qty-bounds (b Field.qty) eq in
        let cheap = to_natural-le satang_of_fraction (b Field.price) ep in
        let same_qty : qty ≡ l.qty = cc in
        let same_price : price ≡ l.price = cc in
        ((rw same_qty at some_qty, rw same_qty at fits, rw same_price at cheap), cc)

  return_line-Priced :
      (i : ℕ) (j : Json) (l : ReturnLine)
      → parse_return_line satang_of_fraction intern i j ≡ some l
      → Priced l.qty l.price
  unfolding parse_return_line
  return_line-Priced i j l h = given _ _ h λ b eb k. given _ _ k λ qty eq k.
      given _ _ k λ price ep k. given _ _ k λ p e1 k. given _ _ k λ name e2 k.
        given _ _ k λ original e3 k.
          let (some_qty, fits) = parse_line_qty-bounds (b Field.qty) eq in
          let cheap = to_natural-le satang_of_fraction (b Field.price) ep in
          let same_qty : qty ≡ l.qty = cc in
          let same_price : price ≡ l.price = cc in
          (rw same_qty at some_qty, rw same_qty at fits, rw same_price at cheap)

  -- A quote that was accepted: its discount is within its subtotal, its amounts are ones that the
  -- columns hold, it has a line and two hundred at most, each line takes something at a price that
  -- the columns hold, and it is valid for a day at least and a hundred years at most where it says
  -- for how long.
  pub parse_quote_create_bounds :
      (body : Json) (q : QuoteCreate)
      → parse_quote_create satang_of_fraction intern body ≡ some q
      → Coherent q.subtotal q.discount q.total (length q.items)
        × All (λ (l : QuoteLine). Priced l.qty l.price) q.items
        × ((n : ℕ) → q.valid_days ≡ some n → (0 < n) × (n ≤ max_valid_days))
  unfolding parse_quote_create
  parse_quote_create_bounds body q h = given _ _ h λ b eb k. given _ _ k λ u0 eo k.
      given _ _ k λ raw er k. given _ _ k λ subtotal es k. given _ _ k λ discount ed k.
        given _ _ k λ total et k. given _ _ k λ name e1 k. given _ _ k λ phone e2 k.
          given _ _ k λ notes e3 k. given _ _ k λ days ey k. given _ _ k λ items ei k.
            given _ _ k λ u1 ev k.
              let (some_line, few) = parse_items_array-bounds (b Field.items) er in
              let (priced, len) =
                each_line-All (λ (l : QuoteLine). Priced l.qty l.price)
                  (parse_quote_line satang_of_fraction intern)
                  (λ i j l e. (quote_line-Priced i j l e).0) 0 raw ei in
              let within = leb→le discount subtotal (require-some (leb discount subtotal) ev) in
              let small = to_natural-le satang_of_fraction (b Field.subtotal) es in
              let small_total = to_natural-le satang_of_fraction (b Field.total) et in
              let is_items : items ≡ q.items = cc in
              let is_subtotal : subtotal ≡ q.subtotal = cc in
              let is_discount : discount ≡ q.discount = cc in
              let is_total : total ≡ q.total = cc in
              let is_days : days ≡ q.valid_days = cc in
              rw (sym is_items, sym is_subtotal, sym is_discount, sym is_total, sym is_days)
                (
                  (
                    within,
                    small,
                    small_total,
                    omega (arith, some_line, len),
                    omega (arith, few, len),
                  ),
                  priced,
                  λ n e. parse_valid_days-bounds (b Field.valid_days) n (ey ∙ ap some e),
                )

  -- A credit note that was accepted has a line and two hundred at most, and each line takes
  -- something back at a price that the columns hold; its reason is any text.
  pub parse_create_return_bounds :
      (text_of : Json → Text) (body : Json) (r : CreateReturn)
      → parse_create_return satang_of_fraction intern text_of body ≡ some r
      → (0 < length r.items)
        × (length r.items ≤ max_lines)
        × All (λ (l : ReturnLine). Priced l.qty l.price) r.items
  unfolding parse_create_return
  parse_create_return_bounds text_of body r h = given _ _ h λ b eb k. given _ _ k λ raw er k.
      given _ _ k λ sale es k. given _ _ k λ method em k. given _ _ k λ items ei k.
        let (some_line, few) = parse_items_array-bounds (b Field.items) er in
        let (priced, len) = each_line-All _ _ return_line-Priced 0 raw ei in
        let is_items : items ≡ r.items = cc in
        rw (sym is_items) (omega (arith, some_line, len), omega (arith, few, len), priced)
