-- ===== src/Idempotency.antt =====
-- Requests that carry an `Idempotency-Key` (server/src/idempotency/idempotency.service.ts).
pub mod Once
use jenkin_sri_store.Prelude.{
  ℕ, Bool, true, false, Option, none, some, ◌==◌, ◌||◌, not, if◌then◌else◌,
}
use jenkin_sri_store.Store.{
  Text, Table, put, update, is_some, Db, Tx, Result, ok, err, idempotency_key_reused,
  idempotency_not_done, idempotency_vanished,
}

pub record IdempotencyParams : Type 0 where
  pub key : Text
  pub endpoint : Text
  pub request_hash : Text
  pub success_code : ℕ

pub data Status : Type 0 where
  in_progress done failed : Status

-- The types are over the bodies that the endpoints answer with; no body is `null`.
pub record KeyRow (B : Type 0) : Type 0 where
  pub endpoint : Text
  pub request_hash : Text
  pub status : Status
  pub response_code : Option ℕ
  pub response_body : Option B

pub record CachedResponse (B : Type 0) : Type 0 where
  pub endpoint : Text
  pub hash : Text
  pub code : ℕ
  pub body : Option B

pub record StoredResponse (B : Type 0) : Type 0 where
  pub code : ℕ
  pub body : Option B

pub data ClaimResult (B : Type 0) : Type 0 where
  claimed reused : ClaimResult B
  replay : StoredResponse B → ClaimResult B

-- The shop's rows, the table of the keys, and the cache of the answers, which may have dropped any
-- of them.
pub record Server (B : Type 0) : Type 0 where
  pub rows : Db
  pub keys : Table (KeyRow B)
  pub cache : Table (CachedResponse B)

module _ {B : Type 0} where
  -- `decide`.
  unfoldable pub decide : CachedResponse B → IdempotencyParams → ClaimResult B
  decide stored p =
      if not (stored.hash == p.request_hash) || not (stored.endpoint == p.endpoint)
      then reused
      else replay (record { code = stored.code; body = stored.body })

  abbrev pub response_of : KeyRow B → ℕ → CachedResponse B
  response_of row code = record {
    endpoint = row.endpoint;
    hash = row.request_hash;
    code = code;
    body = row.response_body;
  }

  -- `writeCache`, on a replay.
  abbrev pub cached : Text → CachedResponse B → ClaimResult B → Server B → Server B
  cached key c (replay r) s = record s { cache = put key c s.cache }
  cached key c claimed s = s
  cached key c reused s = s

  -- The read of the row that another request committed.
  abbrev pub claim_done :
      IdempotencyParams
      → KeyRow B
      → Status
      → Option ℕ
      → Server B
      → Result (ClaimResult B × Server B)
  claim_done p row Status.done (some code) s =
      let decision = decide (response_of row code) p in
      ok (decision, cached p.key (response_of row code) decision s)
  claim_done p row status code s = err idempotency_not_done

  abbrev pub claim_cached :
      IdempotencyParams
      → KeyRow B
      → Option (CachedResponse B)
      → Server B
      → Result (ClaimResult B × Server B)
  claim_cached p row (some c) s = ok (decide c p, s)
  claim_cached p row none s = claim_done p row row.status row.response_code s

  -- The row that `insertClaim` inserts.
  abbrev pub claimed_row : IdempotencyParams → KeyRow B
  claimed_row p = record {
    endpoint = p.endpoint;
    request_hash = p.request_hash;
    status = Status.in_progress;
    response_code = none;
    response_body = none;
  }

  -- `claim`, with `insertClaim`: the key is taken if nobody has it.
  abbrev pub claim_row :
      IdempotencyParams → Option (KeyRow B) → Server B → Result (ClaimResult B × Server B)
  claim_row p none s = ok (claimed, record s { keys = put p.key (claimed_row p) s.keys })
  claim_row p (some row) s = claim_cached p row (s.cache p.key) s

  unfoldable pub claim : IdempotencyParams → Server B → Result (ClaimResult B × Server B)
  unfolding decide
  claim p s = claim_row p (s.keys p.key) s

  abbrev pub completed : ℕ → Option B → KeyRow B → KeyRow B
  completed code body row = record row {
    status = Status.done;
    response_code = some code;
    response_body = body;
  }

  -- `complete`: the row is there, or the request fails.
  unfoldable pub complete :
      IdempotencyParams → Option B → Server B → Result (StoredResponse B × Server B)
  complete p body s =
      if is_some (s.keys p.key)
      then ok (
        record { code = p.success_code; body = body },
        record s { keys = update p.key (completed p.success_code body) s.keys },
      )
      else err idempotency_vanished

  abbrev pub finish :
      IdempotencyParams → Result (Option B × Db) → Server B → Result (StoredResponse B × Server B)
  finish p (err e) s = err e
  finish p (ok (body, t)) s = complete p body (record s { rows = t })

  abbrev pub answer :
      IdempotencyParams
      → Tx (Option B)
      → Result (ClaimResult B × Server B)
      → Result (StoredResponse B × Server B)
  answer p work (err e) = err e
  answer p work (ok (reused, s)) = err idempotency_key_reused
  answer p work (ok (replay r, s)) = ok (r, s)
  answer p work (ok (claimed, s)) = finish p (work s.rows) s

  -- `runIdempotentIn`.
  unfoldable pub run_idempotent :
      IdempotencyParams → Tx (Option B) → Server B → Result (StoredResponse B × Server B)
  unfolding claim complete
  run_idempotent p work s = answer p work (claim p s)
