-- ===== src/Tests/Requests.antt =====
-- A request sent twice under one key, and another request under the same key.
use jenkin_sri_store.Prelude.{ℕ, List, ◌≡◌, refl, inl, arith, true, Bool, false, Option, none, some}
use jenkin_sri_store.Store.{
  DocType, Tx, Result, ok, err, pure, ◌>>=◌, throw, internal, idempotency_key_reused,
}
use jenkin_sri_store.Documents.{device_no, bump_counter, issue}
use jenkin_sri_store.Idempotency.{
  IdempotencyParams, StoredResponse, Server, claim, complete, run_idempotent,
}
use jenkin_sri_store.Idempotency.Once.{run_idempotent_once, run_idempotent_reused}
use jenkin_sri_store.Tests.Shop.{shop, empty}

abbrev server : Server (List ℕ)
server = record { rows = shop; keys = empty; cache = empty }

abbrev request : IdempotencyParams
request = record { key = 9; endpoint = 1; request_hash = 77; success_code = 201 }

abbrev other_request : IdempotencyParams
other_request = record { key = 9; endpoint = 1; request_hash = 78; success_code = 201 }

-- The work issues a receipt number.
abbrev work : Tx (Option (List ℕ))
work = do number ← issue 1 DocType.receipt; pure (some number)

abbrev after_request : Result (StoredResponse (List ℕ) × Server (List ℕ)) → Server (List ℕ)
after_request (ok (r, t)) = t
after_request (err e) = server

abbrev response : Result (StoredResponse (List ℕ) × Server (List ℕ)) → StoredResponse (List ℕ)
response (ok (r, t)) = r
response (err e) = record { code = 500; body = none }

abbrev responds : Result (StoredResponse (List ℕ) × Server (List ℕ)) → Bool
responds (ok x) = true
responds (err e) = false

responds-eq :
    (r : Result (StoredResponse (List ℕ) × Server (List ℕ)))
    → responds r ≡ true
    → r ≡ ok (response r, after_request r)
responds-eq (ok (r, t)) h = refl
responds-eq (err e) h = cc

request_done : responds (run_idempotent request work server) ≡ true
unfolding run_idempotent claim complete issue device_no bump_counter ◌>>=◌
request_done = refl

abbrev served : Server (List ℕ)
served = after_request (run_idempotent request work server)

request_ran :
    run_idempotent request work server ≡ ok (response (run_idempotent request work server), served)
request_ran = responds-eq (run_idempotent request work server) request_done

run_idempotent_once_example :
    (u : Server (List ℕ)) × (run_idempotent request (throw internal) served
      ≡ ok (response (run_idempotent request work server), u))
    × (u.rows ≡ served.rows)
    × (u.keys ≡ served.keys)
run_idempotent_once_example =
    run_idempotent_once request work (throw internal) server refl refl request_ran

run_idempotent_reused_example :
    run_idempotent other_request work served ≡ err idempotency_key_reused
run_idempotent_reused_example =
    run_idempotent_reused request other_request work work server refl refl request_ran refl
      (inl (omega arith))
