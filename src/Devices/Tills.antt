-- ===== src/Devices/Tills.antt =====
-- The number of each machine, and the one till: what enrolling and retiring keep.
use jenkin_sri_store.Prelude.{
  ◌≤◌, ◌≡◌, arith, Bool, true, false, none, some, List, [], ◌∷◌, ◌++◌, ◌==◌, if◌then◌else◌,
  Option-cases, Bool-cases, inl, inr,
}
use jenkin_sri_store.Store.{RowId, Table, Device, DeviceRole, Db, ok}
use jenkin_sri_store.Devices.{is_till, till_row, live_till, one_till, no_of, last_device_no}

abbrev pub is_key : RowId → List RowId → Bool
is_key k [] = false
is_key k (j ∷ js) = let rest = is_key k js in if k == j then true else rest

-- Every machine is among the keys, its number is of two digits and its own, and one till at most is
-- not retired.
pub record IsNumbered (s : Db) : Type 0 where
  pub listed : (k : RowId) (d : Device) → s.devices k ≡ some d → is_key k s.device_ids ≡ true
  pub in_range :
      (k : RowId) (d : Device) → s.devices k ≡ some d → (1 ≤ d.device_no) × (d.device_no ≤ 99)
  pub apart :
      (j k : RowId) (d e : Device)
      → s.devices j ≡ some d
      → s.devices k ≡ some e
      → d.device_no ≡ e.device_no
      → j ≡ k
  pub one :
      (j k : RowId) (d e : Device)
      → s.devices j ≡ some d
      → s.devices k ≡ some e
      → is_till d ≡ true
      → is_till e ≡ true
      → j ≡ k

pub is_key-append_old :
    (k n : RowId) (ks : List RowId) → is_key k ks ≡ true → is_key k (ks ++ n ∷ []) ≡ true
is_key-append_old k n [] h = absurd (ground arith)
is_key-append_old k n (j ∷ js) h = elim (Bool-cases (k == j)) [
  | inl same ↦ ground arith
  | inr other ↦ let rest = is_key-append_old k n js (ground arith) in ground arith
]

pub is_key-append_new : (n : RowId) (ks : List RowId) → is_key n (ks ++ n ∷ []) ≡ true
is_key-append_new n [] = ground arith
is_key-append_new n (j ∷ js) = let rest = is_key-append_new n js in ground arith

pub no_of-last :
    (k : RowId) (ks : List RowId) (t : Table Device)
    → is_key k ks ≡ true
    → no_of (t k) ≤ last_device_no ks t
unfolding last_device_no
no_of-last k [] t h = absurd (ground arith)
no_of-last k (j ∷ js) t h = elim (Bool-cases (k == j)) [
  | inl same ↦ let e : k ≡ j = ground arith in rw e (ground arith)
  | inr other ↦ let rest = no_of-last k js t (ground arith) in ground arith
]

pub live_till-none :
    (k : RowId) (ks : List RowId) (t : Table Device)
    → live_till ks t ≡ none
    → is_key k ks ≡ true
    → till_row (t k) ≡ false
unfolding live_till
live_till-none k [] t h m = absurd (ground arith)
live_till-none k (j ∷ js) t h m = elim (Bool-cases (k == j)) [
  | inl same ↦ let e : k ≡ j = ground arith in rw e (ground arith)
  | inr other ↦ live_till-none k js t (ground arith) (ground arith)
]

pub one_till-ok :
    (role : DeviceRole) (s : Db) {a : Unit {0}} {t : Db}
    → one_till role s ≡ ok (a, t)
    → (t ≡ s) × (role ≡ DeviceRole.pos → live_till s.device_ids s.devices ≡ none)
one_till-ok DeviceRole.pos s h = elim (Option-cases (live_till s.device_ids s.devices)) [
  | inl free ↦ (ground arith, λ p. free)
  | inr (k, taken) ↦ absurd (ground arith)
]
one_till-ok DeviceRole.backoffice s h = (ground arith, λ p. absurd (ground arith))
