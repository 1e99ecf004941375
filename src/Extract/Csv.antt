-- ===== src/Extract/Csv.antt =====
-- internal/extract/csv.go: the loop of `ExtractCSV` over the records of the file, behind the opening
-- of the file, the database and the table.
pub mod Rows
use churro.Common.{
  ℕ, suc, Bool, String, List, [], ◌∷◌, ◌++◌, Option, none, some, get_elem?, if◌then◌else◌,
}
use churro.Common.Int.{ℤ, pos, negsuc, nat_le}
use churro.Common.Text.{atoi}
use churro.Common.Action.{
  Result, ok, err, Outcome, returned, failed, panicked, Action, give, fail, panic, read, write,
  ◌>>=◌, ◌>>◌,
}
use churro.Domain.{ExtractRule, TransformFunction}
use churro.Extract.{Column, get_column_names}
use churro.Transform.{Cells, Interpreter, run_rules}

-- The value for a column: nil if its path is no number; `none` for an index out of range.
abbrev pub cell_at : List String → Option ℤ → Option (Option String)
cell_at values none = some none
cell_at values (some (negsuc _)) = none
cell_at values (some (pos i)) = elim (get_elem? values i) [ none ↦ none | some v ↦ some (some v) ]

abbrev pub prepend : Option (Option String) → Option Cells → Option Cells
prepend none rest = none
prepend (some v) none = none
prepend (some v) (some cells) = some (v ∷ cells)

-- `getCSVRow`: the cells of the row, or `none` for the panic of an index out of range.
unfoldable pub get_csv_row : List String → List Column → Option Cells
unfolding atoi
get_csv_row values [] = some []
get_csv_row values (c ∷ cols) = prepend (cell_at values (atoi c.path)) (get_csv_row values cols)

-- What is sent to `process` for a record: `RecordsLoaded` of the job and the rows.
pub record Message : Type 0 where
  pub records_loaded : ℕ
  pub rows : List Cells

-- `recordsRead`, `csvStruct.Records` and the messages sent so far
pub record Loop : Type 0 where
  pub records_read : ℕ
  pub records : List Cells
  pub sent : List Message

abbrev pub row_or_panic : {S : Type 0} → Option Cells → Action S Cells
row_or_panic none = panic
row_or_panic (some cells) = give cells

-- The cells after `RunRules`, whose error is only logged.
abbrev pub transformed : {S : Type 0} → Outcome (Unit {0}) × Cells → Action S Cells
transformed (returned _, cells) = give cells
transformed (failed _, cells) = give cells
transformed (panicked, cells) = panic

-- The row is pending, it is sent, and nothing is pending.
unfoldable pub send_row : Cells → Action Loop (Unit {0})
send_row cells = do
  write (λ s. record s { records = s.records ++ (cells ∷ []) })
  write (λ s. record s {
    sent = s.sent ++ (record { records_loaded = s.records_read; rows = s.records } ∷ []);
  })
  write (λ s. record s { records = [] })

-- `orders` gives the rules for the record of a number: `RunRules` ranges over the map of rules anew for
-- each record, in an order of its own.
module _ (interp : Interpreter) (functions : List TransformFunction) (orders : ℕ → List ExtractRule)
    (cols : List Column) (skipheaders : ℤ) where
  -- The branch for a record behind the skipped ones
  unfoldable pub take_record : ℕ → List String → Action Loop (Unit {0})
  unfolding get_csv_row send_row
  take_record n values = do
    row ← row_or_panic (get_csv_row values cols)
    cells ← transformed (run_rules interp (get_column_names cols) functions (orders n) row)
    send_row cells

  -- The loop, over what the reader returns until the end of the file
  unfoldable pub extract_csv : List (Result (List String)) → Action Loop (Unit {0})
  unfolding take_record
  extract_csv [] = give tt
  extract_csv (err e ∷ reads) = fail e
  extract_csv (ok values ∷ reads) = do
    write (λ s. record s { records_read = suc s.records_read })
    n ← read (λ s. s.records_read)
    if nat_le n skipheaders then give tt else take_record n values
    extract_csv reads
