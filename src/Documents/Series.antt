-- ===== src/Documents/Series.antt =====
-- The series of a counter has no gap and no repeat, and ends by a refusal.
use jenkin_sri_store.Prelude.{
  ℕ, ◌+◌, ◌≤◌, ◌≡◌, ◌≢◌, ◌↔◌, inl, inr, refl, arith, Option, none, some, List, true, false, length,
  Option-cases,
}
use jenkin_sri_store.Store.{RowId, Device, DocType, Db, ok, err, ◌>>=◌, ran, doc_number_exhausted}
use jenkin_sri_store.Documents.{
  max_doc_no, period_text, format_doc_number, same_type, device_no, bumped, bump_counter, issue,
}
use jenkin_sri_store.Documents.Format.{format_doc_number-injective}

-- The running number that the current series of a device has reached.
abbrev pub counter : RowId → DocType → Db → Option ℕ
counter device doc_type s = s.doc_counters device doc_type s.local_year s.local_month

abbrev pub last_of : Option ℕ → ℕ
last_of none = 0
last_of (some n) = n

bumped-last_of : (o : Option ℕ) → bumped o ≡ last_of o + 1
bumped-last_of none = refl
bumped-last_of (some n) = refl

same_type_refl : (t : DocType) → same_type t t ≡ true
same_type_refl DocType.receipt = refl
same_type_refl DocType.cn = refl
same_type_refl DocType.po = refl
same_type_refl DocType.quote = refl
same_type_refl DocType.cp = refl

-- What a call that issued a number has done.
pub record Issued (device : RowId) (doc_type : DocType) (s : Db) (no : List ℕ) (t : Db)
    : Type 0 where
  pub holder : Device
  pub known : s.devices device ≡ some holder
  pub active : holder.retired ≡ false
  pub next : last_of (counter device doc_type t) ≡ last_of (counter device doc_type s) + 1
  pub in_range : last_of (counter device doc_type t) ≤ max_doc_no
  pub printed :
      no
      ≡ format_doc_number doc_type holder.device_no
          (period_text s.local_year s.local_month)
          (last_of (counter device doc_type t))
  pub only_counters : t ≡ record s { doc_counters = t.doc_counters }

bump_counter-ok :
    (device : RowId) (doc_type : DocType) (s : Db) {n : ℕ} {t : Db}
    → bump_counter device doc_type s ≡ ok (n, t)
    → (n ≡ bumped (counter device doc_type s))
      × (n ≤ max_doc_no)
      × (counter device doc_type t ≡ some n)
      × (t ≡ record s { doc_counters = t.doc_counters })
unfolding bump_counter
bump_counter-ok device doc_type s h = ground (arith, same_type_refl doc_type)

device_no-ok :
    (device : RowId) (s : Db) {n : ℕ} {t : Db}
    → device_no device s ≡ ok (n, t)
    → (d : Device) × (s.devices device ≡ some d) × (d.retired ≡ false) × (n ≡ d.device_no) × (t ≡ s)
unfolding device_no
device_no-ok device s h = elim (Option-cases (s.devices device)) [
  | inl unknown ↦ absurd (ground arith)
  | inr (d, e) ↦ (d, e, ground arith, ground arith, ground arith)
]

-- A call that returned issued the next number of the device's own series, and wrote nothing else.
pub issue-Issued :
    (device : RowId) (doc_type : DocType) (s : Db) {no : List ℕ} {t : Db}
    → issue device doc_type s ≡ ok (no, t)
    → Issued device doc_type s no t
unfolding issue
issue-Issued device doc_type s h = ran _ _ _ h λ n u e k.
    let (d, known, active, num, same) = device_no-ok device s e in
    ran _ _ _ k λ p v e' k'. ran _ _ _ k' λ m w e'' k''.
      let (next, in_range, written, only) = bump_counter-ok device doc_type v e'' in
      record {
        holder = d;
        known = known;
        active = active;
        next = ground (arith, bumped-last_of (counter device doc_type s));
        in_range = ground arith;
        printed = ground arith;
        only_counters = ground arith;
      }

-- On a device that may issue, a number is refused exactly when the month's series has reached 9999.
pub issue_exhausted_iff :
    (device : RowId) (doc_type : DocType) (s : Db) (holder : Device)
    → s.devices device ≡ some holder
    → holder.retired ≡ false
    → (issue device doc_type s ≡ err doc_number_exhausted)
      ↔ (max_doc_no ≤ last_of (counter device doc_type s))
unfolding issue device_no bump_counter ◌>>=◌
issue_exhausted_iff device doc_type s holder known active =
    elim (Option-cases (counter device doc_type s)) [
      | inl none_yet ↦ ground arith
      | inr (n, e) ↦ ground arith
    ]

-- A later call for the same series of the same device in the same month, on a counter at least as
-- high as the first call left it, prints another number. The device's number is two digits long at
-- both calls.
pub issue_no_repeat :
    (device : RowId) (doc_type : DocType) (s u : Db) {no no' : List ℕ} {t v : Db}
    → issue device doc_type s ≡ ok (no, t)
    → issue device doc_type u ≡ ok (no', v)
    → ((d : Device) → s.devices device ≡ some d → d.device_no ≤ 99)
    → ((d : Device) → u.devices device ≡ some d → d.device_no ≤ 99)
    → u.local_year ≡ s.local_year
    → u.local_month ≡ s.local_month
    → last_of (counter device doc_type t) ≤ last_of (counter device doc_type u)
    → no ≢ no'
issue_no_repeat device doc_type s u {no} {no'} {t} {v} h k two two' year month later same =
    let a = issue-Issued device doc_type s h in
    let b = issue-Issued device doc_type u k in
    let alike : format_doc_number doc_type a.holder.device_no
          (period_text s.local_year s.local_month) (last_of (counter device doc_type t))
        ≡ format_doc_number doc_type b.holder.device_no (period_text u.local_year u.local_month)
            (last_of (counter device doc_type v)) =
      cc (a.printed, b.printed) in
    let widths : length (period_text s.local_year s.local_month)
        ≡ length (period_text u.local_year u.local_month) =
      cc in
    let parts =
      format_doc_number-injective (two a.holder a.known) (two' b.holder b.known) widths a.in_range
        b.in_range alike in
    let numbers : last_of (counter device doc_type t) ≡ last_of (counter device doc_type v) =
      parts.3 in
    omega (arith, numbers, b.next)
