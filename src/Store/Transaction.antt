-- ===== src/Store/Transaction.antt =====
-- A service method inside `TenantService.runTx`: it reads and writes the tenant's rows, and an
-- exception ends it. `run_tx` is the transaction that owns it.
use jenkin_sri_store.Prelude.{
  suc, ◌≡◌, refl, subst, Bool, true, false, Option, none, some, List, [], ◌∷◌, ◌++◌,
}
use jenkin_sri_store.Store.Rows.{RowId, Db, Hook}
use jenkin_sri_store.Store.Errors.{Error}

pub data Result (A : Type 0) : Type 0 where
  ok : A → Result A
  err : Error → Result A

abbrev pub Tx : Type 0 → Type 0
Tx A = Db → Result (A × Db)

module _ {A : Type 0} where
  abbrev pub pure : A → Tx A
  pure a s = ok (a, s)

  abbrev pub throw : Error → Tx A
  throw e s = err e

  abbrev pub gets : (Db → A) → Tx A
  gets f s = ok (f s, s)

  abbrev pub or_throw : Option A → Error → Tx A
  or_throw none e = throw e
  or_throw (some a) e = pure a

abbrev pub modify : (Db → Db) → Tx (Unit {0})
modify f s = ok (tt, f s)

abbrev pub throw_if : Bool → Error → Tx (Unit {0})
throw_if true e = throw e
throw_if false e = pure tt

module _ {A B : Type 0} where
  abbrev then_run : Result (A × Db) → (A → Tx B) → Result (B × Db)
  then_run (ok (a, s)) f = f a s
  then_run (err e) f = err e

  infixl 5 ◌>>=◌
  unfoldable pub ◌>>=◌ : Tx A → (A → Tx B) → Tx B
  ◌>>=◌ m f s = then_run (m s) f

  then_run-ok {ℓ} :
      {P : Type ℓ} (r : Result (A × Db)) (f : A → Tx B) {b : B} {t : Db}
      → then_run r f ≡ ok (b, t)
      → ((a : A) (u : Db) → r ≡ ok (a, u) → f a u ≡ ok (b, t) → P)
      → P
  then_run-ok (ok (a, u)) f h k = k a u refl h
  then_run-ok (err e) f h k = cc

  -- A block that returned ran its first action, and then the rest.
  pub ran {ℓ} :
      {P : Type ℓ} (m : Tx A) (f : A → Tx B) (s : Db) {b : B} {t : Db}
      → (m >>= f) s ≡ ok (b, t)
      → ((a : A) (u : Db) → m s ≡ ok (a, u) → f a u ≡ ok (b, t) → P)
      → P
  unfolding ◌>>=◌
  ran m f s h k = then_run-ok (m s) f h k

-- A call that returns, whatever it answers and writes.
abbrev pub Returns : {A : Type 0} → Tx A → Db → Type 0
Returns {A} m s = (a : A) × (t : Db) × (m s ≡ ok (a, t))

module _ {A B : Type 0} (m : Tx A) (f : A → Tx B) (s : Db) where
  -- A block returns if its first action does, and the rest does after it.
  pub Returns-next : {a : A} {u : Db} → m s ≡ ok (a, u) → Returns (f a) u → Returns (m >>= f) s
  unfolding ◌>>=◌
  Returns-next e (b, t, k) = (b, t, rw e k)

infixl 5 ◌>>◌
abbrev pub ◌>>◌ : {B : Type 0} → Tx (Unit {0}) → Tx B → Tx B
m >> k = m >>= λ _. k

pub or_throw-ok :
    {A : Type 0} (o : Option A) (e : Error) (s : Db) {a : A} {t : Db}
    → or_throw o e s ≡ ok (a, t)
    → (o ≡ some a) × (t ≡ s)
or_throw-ok none e s h = cc
or_throw-ok (some x) e s h = (cc, cc)

pub throw_if-ok :
    (b : Bool) (e : Error) (s : Db) {a : Unit {0}} {t : Db}
    → throw_if b e s ≡ ok (a, t)
    → (b ≡ false) × (t ≡ s)
throw_if-ok true e s h = cc
throw_if-ok false e s h = (refl, cc)

-- `for (const x of xs) out.push(await f(x))`.
unfoldable pub each : {A B : Type 0} → (A → Tx B) → List A → Tx (List B)
each f [] = pure []
each f (x ∷ xs) = do y ← f x; ys ← each f xs; pure (y ∷ ys)

-- A relation between the rows before and after that holds of each round holds of the loop.
pub each-relates :
    {A B : Type 0} (R : Db → Db → Type 0)
    → ((s : Db) → R s s)
    → ((s t u : Db) → R s t → R t u → R s u)
    → (f : A → Tx B) → ((x : A) (s : Db) (y : B) (t : Db) → f x s ≡ ok (y, t) → R s t)
    → (xs : List A) (s : Db) {ys : List B} {t : Db} → each f xs s ≡ ok (ys, t)
    → R s t
unfolding each
each-relates R rfl trans f one [] s {ys} {t} h = let same : s ≡ t = cc in subst (R s) same (rfl s)
each-relates R rfl trans f one (x ∷ xs) s {ys} {t} h = ran _ _ _ h λ y u e k.
    ran _ _ _ k λ rest v e' k'.
      let same : v ≡ t = cc in
      subst (R s) same (trans s u v (one x s y u e) (each-relates R rfl trans f one xs u e'))

-- `newId`: ids are taken from a source that does not repeat.
unfoldable pub new_id : Tx RowId
new_id s = ok (s.next_id, record s { next_id = suc s.next_id })

-- `onTransactionCommit`.
unfoldable pub on_commit : Hook → Tx (Unit {0})
on_commit h s = ok (tt, record s { hooks = s.hooks ++ h ∷ [] })

-- The transaction that owns `m`: it starts with no hook, and what `m` wrote and registered is kept
-- only if `m` returns. The hooks that are to run come back beside the rows.
unfoldable pub run_tx : {A : Type 0} → Tx A → Db → Result A × Db × List Hook
run_tx m s = elim (m (record s { hooks = [] })) [
  | ok (a, t) ↦ (ok a, record t { hooks = [] }, t.hooks)
  | err e ↦ (err e, s, [])
]
