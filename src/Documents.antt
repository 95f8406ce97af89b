-- ===== src/Documents.antt =====
-- Document numbers (server/src/documents/doc-number.service.ts). A text is the list of its
-- character codes; the period is the Buddhist year and month of the tenant's own clock.
pub mod Format
pub mod Series
use jenkin_sri_store.Prelude.{
  ℕ, suc, ◌+◌, Option, none, some, List, [], ◌∷◌, ◌++◌, ltb, ◌==◌, ◌&&◌, if◌then◌else◌, Bool, true,
  false,
}
use jenkin_sri_store.Prelude.Decimal.{digits, pad_start}
use jenkin_sri_store.Store.{
  RowId, Device, DocType, Db, Error, Result, ok, err, Tx, pure, throw, throw_if, gets, or_throw,
  ◌>>=◌, ◌>>◌, device_role_forbidden, doc_number_exhausted,
}

-- `DOC_PREFIX`.
unfoldable pub doc_prefix : DocType → List ℕ
doc_prefix DocType.receipt = b'R' ∷ b'C' ∷ []
doc_prefix DocType.cn = b'C' ∷ b'N' ∷ []
doc_prefix DocType.po = b'P' ∷ b'O' ∷ []
doc_prefix DocType.quote = b'Q' ∷ b'T' ∷ []
doc_prefix DocType.cp = b'C' ∷ b'P' ∷ []

-- `MAX_DOC_NO`.
abbrev pub max_doc_no : ℕ
max_doc_no = 9999

-- `TENANT_PERIOD_SQL`: the Buddhist year, a dash, and the month in two digits.
unfoldable pub period_text : ℕ → ℕ → List ℕ
period_text year month = digits (year + 543) ++ (b'-' ∷ pad_start 2 (digits month))

-- `formatDocNumber`.
unfoldable pub format_doc_number : DocType → ℕ → List ℕ → ℕ → List ℕ
format_doc_number doc_type device_no period seq =
    doc_prefix doc_type
    ++ (pad_start 2 (digits device_no) ++ (b'-' ∷ (period ++ (b'-' ∷ pad_start 4 (digits seq)))))

abbrev pub same_type : DocType → DocType → Bool
same_type DocType.receipt DocType.receipt = true
same_type DocType.cn DocType.cn = true
same_type DocType.po DocType.po = true
same_type DocType.quote DocType.quote = true
same_type DocType.cp DocType.cp = true
same_type _ _ = false

-- `DocNumberService.deviceNo`: a device that is unknown or retired may not issue.
abbrev pub number_of : Option Device → Option ℕ
number_of none = none
number_of (some d) = if d.retired then none else some d.device_no

unfoldable pub device_no : RowId → Tx ℕ
device_no device s = or_throw (number_of (s.devices device)) device_role_forbidden s

-- The counter after one more number: 1 for a series that has none yet.
abbrev pub bumped : Option ℕ → ℕ
bumped none = 1
bumped (some last_no) = last_no + 1

-- The upsert on `doc_counters`, with its `CHECK (last_no <= 9999)`.
unfoldable pub bump_counter : RowId → DocType → Tx ℕ
bump_counter device doc_type s =
    let last_no = bumped (s.doc_counters device doc_type s.local_year s.local_month) in
    if ltb max_doc_no last_no
    then err doc_number_exhausted
    else ok (
      last_no,
      record s {
        doc_counters = λ d t y m.
            if (d == device) && same_type t doc_type && (y == s.local_year) && (m == s.local_month)
            then some last_no
            else s.doc_counters d t y m;
      },
    )

-- `DocNumberService.issue`.
unfoldable pub issue : RowId → DocType → Tx (List ℕ)
unfolding device_no bump_counter
issue device doc_type = do
  number ← device_no device
  period ← gets (λ s. period_text s.local_year s.local_month)
  last_no ← bump_counter device doc_type
  pure (format_doc_number doc_type number period last_no)
