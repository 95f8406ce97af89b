-- ===== src/Tests/Numbers.antt =====
-- Document numbers, and the average cost.
use jenkin_sri_store.Prelude.{ℕ, ◌+◌, ◌*◌, ◌<◌, ◌⊎◌, ◌≡◌, ◌≢◌, ◌≤◌, refl, arith, true, some, []}
use jenkin_sri_store.Store.{Device, DocType, Db, ok, ◌>>=◌}
use jenkin_sri_store.Documents.{period_text, device_no, bump_counter, issue}
use jenkin_sri_store.Documents.Format.{format_doc_number-injective}
use jenkin_sri_store.Documents.Series.{counter, last_of, issue_no_repeat}
use jenkin_sri_store.Purchasing.{weighted_average_cost}
use jenkin_sri_store.Purchasing.Average.{weighted_average_cost_nearest}
use jenkin_sri_store.Tests.Shop.{shop, rows_of, answer_of, returned, returned-eq}

format_doc_number-injective_example :
    (DocType.cn ≡ DocType.cn)
    × ◌≡◌ {A = ℕ} 1 1
    × (period_text 2026 9 ≡ period_text 2026 9)
    × ◌≡◌ {A = ℕ} 12 12
format_doc_number-injective_example =
    format_doc_number-injective {t = DocType.cn} {u = DocType.cn} {d = 1} {e = 1}
      {p = period_text 2026 9} {q = period_text 2026 9} {m = 12} {n = 12} (omega arith)
      (omega arith) refl (omega arith) (omega arith) refl

abbrev first : Db
first = rows_of (issue 1 DocType.receipt shop)

abbrev second : Db
second = rows_of (issue 1 DocType.receipt first)

first_returns : returned (issue 1 DocType.receipt shop) ≡ true
unfolding issue device_no bump_counter ◌>>=◌
first_returns = refl

second_returns : returned (issue 1 DocType.receipt first) ≡ true
unfolding issue device_no bump_counter ◌>>=◌
second_returns = refl

first_ran : issue 1 DocType.receipt shop ≡ ok (answer_of [] (issue 1 DocType.receipt shop), first)
first_ran = returned-eq [] (issue 1 DocType.receipt shop) first_returns

second_ran :
    issue 1 DocType.receipt first ≡ ok (answer_of [] (issue 1 DocType.receipt first), second)
second_ran = returned-eq [] (issue 1 DocType.receipt first) second_returns

two_digits : (d : Device) → shop.devices 1 ≡ some d → d.device_no ≤ 99
two_digits d e = ground arith

two_digits_first : (d : Device) → first.devices 1 ≡ some d → d.device_no ≤ 99
unfolding issue device_no bump_counter ◌>>=◌
two_digits_first d e = ground arith

first_year : (first.local_year ≡ 2026) × (first.local_month ≡ 9)
unfolding issue device_no bump_counter ◌>>=◌
first_year = (refl, refl)

first_later : last_of (counter 1 DocType.receipt first) ≤ last_of (counter 1 DocType.receipt first)
first_later = omega arith

issue_no_repeat_example :
    answer_of [] (issue 1 DocType.receipt shop) ≢ answer_of [] (issue 1 DocType.receipt first)
issue_no_repeat_example =
    issue_no_repeat 1 DocType.receipt shop first first_ran second_ran two_digits two_digits_first
      first_year.0 first_year.1 first_later

weighted_average_cost_nearest_example :
    (◌≡◌ {A = ℕ} 6500 0 × (weighted_average_cost 10 5000 20 6500 ≡ 5000))
    ⊎ ((0 < 6500)
        × (weighted_average_cost 10 5000 20 6500 * (2 * (10 + 20))
            ≤ 2 * (10 * 5000 + 20 * 6500) + (10 + 20))
        × (2 * (10 * 5000 + 20 * 6500)
            < weighted_average_cost 10 5000 20 6500 * (2 * (10 + 20)) + (10 + 20)))
weighted_average_cost_nearest_example = weighted_average_cost_nearest 10 5000 20 6500 (omega arith)
