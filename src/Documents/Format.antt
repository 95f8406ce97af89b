-- ===== src/Documents/Format.antt =====
-- A document number can be read back: no two numbers of the counter print alike.
use jenkin_sri_store.Prelude.{ℕ, ◌≤◌, ◌≡◌, List, arith, length, append-cancel, cons-tail}
use jenkin_sri_store.Prelude.Decimal.{
  digits, pad_start, length-pad_start, pad_start-digits-injective,
}
use jenkin_sri_store.Store.{DocType}
use jenkin_sri_store.Documents.{doc_prefix, format_doc_number}

doc_prefix-injective : (t u : DocType) → doc_prefix t ≡ doc_prefix u → t ≡ u
unfolding doc_prefix
doc_prefix-injective t u e = ground arith

length-doc_prefix : (t u : DocType) → length (doc_prefix t) ≡ length (doc_prefix u)
unfolding doc_prefix
length-doc_prefix t u = ground arith

-- Two printed numbers that are equal, on devices 0..99 with counters up to 9999 and periods of
-- one length, come from the same series, device, period and running number.
pub format_doc_number-injective :
    {t u : DocType} {d e : ℕ} {p q : List ℕ} {m n : ℕ}
    → d ≤ 99
    → e ≤ 99
    → length p ≡ length q
    → m ≤ 9999
    → n ≤ 9999
    → format_doc_number t d p m ≡ format_doc_number u e q n
    → (t ≡ u) × (d ≡ e) × (p ≡ q) × (m ≡ n)
unfolding format_doc_number
format_doc_number-injective {t} {u} {d} {e} {p} {q} {m} {n} hd he hp hm hn h =
    let (prefixes, rest) = append-cancel (doc_prefix t) (doc_prefix u) (length-doc_prefix t u) h in
    let widths : length (pad_start 2 (digits d)) ≡ length (pad_start 2 (digits e)) =
      omega (arith, length-pad_start 1 d (omega arith), length-pad_start 1 e (omega arith)) in
    let (devices, tail) =
      append-cancel (pad_start 2 (digits d)) (pad_start 2 (digits e)) widths rest in
    let (periods, last) = append-cancel p q hp (cons-tail tail) in
    (
      doc_prefix-injective t u prefixes,
      pad_start-digits-injective 2 devices,
      periods,
      pad_start-digits-injective 4 (cons-tail last),
    )
