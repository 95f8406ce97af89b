-- ===== src/Idempotency/Once.antt =====
-- A key runs its work once.
use jenkin_sri_store.Prelude.{◌≡◌, ◌≢◌, ◌⊎◌, refl, ap, arith, Option, none, some, inl, inr, ==_refl}
use jenkin_sri_store.Store.{put, put_self, Db, Tx, Result, ok, err, idempotency_key_reused}
use jenkin_sri_store.Idempotency.{
  IdempotencyParams, Status, KeyRow, CachedResponse, StoredResponse, Server, replay, reused,
  claimed_row, response_of, decide, completed, finish, claim, complete, run_idempotent,
}

-- What the rows keep of a request that was done: its answer, and nothing cached against it.
pub record Done {B : Type 0} (p : IdempotencyParams) (r : StoredResponse B) (t : Server B)
    : Type 0 where
  pub row : KeyRow B
  pub found : t.keys p.key ≡ some row
  pub for_endpoint : row.endpoint ≡ p.endpoint
  pub for_request : row.request_hash ≡ p.request_hash
  pub done : row.status ≡ Status.done
  pub code : row.response_code ≡ some r.code
  pub body : row.response_body ≡ r.body
  pub uncached : t.cache p.key ≡ none

module _ {B : Type 0} where
  finish-Done :
      (p : IdempotencyParams) (result : Result (Option B × Db)) (s : Server B) (row : KeyRow B)
      {r : StoredResponse B} {t : Server B}
      → s.keys p.key ≡ some row
      → row.endpoint ≡ p.endpoint
      → row.request_hash ≡ p.request_hash
      → s.cache p.key ≡ none
      → finish p result s ≡ ok (r, t)
      → Done p r t
  unfolding complete
  finish-Done p (err e) s row found e1 e2 u h = cc
  finish-Done p (ok (b, d)) s row found e1 e2 u h = record {
    row = completed p.success_code b row;
    found = ground arith;
    for_endpoint = e1;
    for_request = e2;
    done = refl;
    code = ground arith;
    body = ground arith;
    uncached = ground arith;
  }

  run-Done :
      (p : IdempotencyParams) (work : Tx (Option B)) (s : Server B) {r : StoredResponse B}
      {t : Server B}
      → s.keys p.key ≡ none
      → s.cache p.key ≡ none
      → run_idempotent p work s ≡ ok (r, t)
      → Done p r t
  unfolding run_idempotent claim
  run-Done p work s {r} {t} fresh uncached h =
      let row : KeyRow B = claimed_row p in
      finish-Done p (work s.rows) (record s { keys = put p.key row s.keys }) row
        (put_self p.key row s.keys) refl refl uncached (rw fresh at h)

  decide-same :
      (c : CachedResponse B) (p : IdempotencyParams)
      → c.hash ≡ p.request_hash
      → c.endpoint ≡ p.endpoint
      → decide c p ≡ replay (record { code = c.code; body = c.body })
  unfolding decide
  decide-same c p e f = rw (e, f, ==_refl p.request_hash, ==_refl p.endpoint) refl

  decide-other :
      (c : CachedResponse B) (q p : IdempotencyParams)
      → c.hash ≡ p.request_hash
      → c.endpoint ≡ p.endpoint
      → (q.request_hash ≢ p.request_hash) ⊎ (q.endpoint ≢ p.endpoint)
      → decide c q ≡ reused
  unfolding decide
  decide-other c q p e f (inl other) = ground arith
  decide-other c q p e f (inr other) = ground arith

  -- A request under a new key that returned, sent again, is answered as it was the first time,
  -- whatever its work would do now: no row of the shop and no key changes. The cache knew nothing
  -- of the key before the first.
  pub run_idempotent_once :
      (p : IdempotencyParams) (work again : Tx (Option B)) (s : Server B) {r : StoredResponse B}
      {t : Server B}
      → s.keys p.key ≡ none
      → s.cache p.key ≡ none
      → run_idempotent p work s ≡ ok (r, t)
      → (u : Server B) × (run_idempotent p again t ≡ ok (r, u))
        × (u.rows ≡ t.rows)
        × (u.keys ≡ t.keys)
  unfolding run_idempotent claim
  run_idempotent_once p work again s {r} {t} fresh uncached h =
      let d = run-Done p work s fresh uncached h in
      let c = response_of d.row r.code in
      let same = decide-same c p d.for_request d.for_endpoint in
      let u : Server B = record t { cache = put p.key c t.cache } in
      (
        u,
        rw (d.found, d.uncached, d.done, d.code, same)
            (ap {B = Result (StoredResponse B × Server B)}
              (λ (b : Option B). ok (record { code = r.code; body = b }, u)) d.body),
        refl,
        refl,
      )

  -- After a request under a new key returned, another one under that key, with another body or to
  -- another endpoint, is refused. The cache knew nothing of the key before the first.
  pub run_idempotent_reused :
      (p q : IdempotencyParams) (work other : Tx (Option B)) (s : Server B) {r : StoredResponse B}
      {t : Server B}
      → s.keys p.key ≡ none
      → s.cache p.key ≡ none
      → run_idempotent p work s ≡ ok (r, t)
      → q.key ≡ p.key
      → (q.request_hash ≢ p.request_hash) ⊎ (q.endpoint ≢ p.endpoint)
      → run_idempotent q other t ≡ err idempotency_key_reused
  unfolding run_idempotent claim
  run_idempotent_reused p q work other s {r} {t} fresh uncached h same differs =
      let d = run-Done p work s fresh uncached h in
      let c = response_of d.row r.code in
      let refused = decide-other c q p d.for_request d.for_endpoint differs in
      rw (same, d.found, d.uncached, d.done, d.code, refused) refl
