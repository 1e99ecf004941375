-- ===== src/Extract/Xlsx.antt =====
-- internal/extract/xlsx.go: the loop of `ExtractXLS` over the rows of the sheet, behind the opening
-- of the file, the database and the table, and up to the count that the extract log gets.
pub mod Same
use churro.Common.{ℕ, suc, String, List, [], ◌∷◌, ◌++◌, Option, some, length, if◌then◌else◌}
use churro.Common.Int.{ℤ, nat_le}
use churro.Common.Text.{atoi}
use churro.Common.Action.{Action, give, read, write, ◌>>=◌, ◌>>◌}
use churro.Domain.{ExtractRule, TransformFunction}
use churro.Extract.{Column, get_column_names}
use churro.Extract.Csv.{cell_at, prepend, row_or_panic, transformed}
use churro.Transform.{Cells, Interpreter, run_rules}

-- `getXLSRow`: the cells of the row, or `none` for the panic of an index out of range.
unfoldable pub get_xls_row : List String → List Column → Option Cells
unfolding atoi
get_xls_row values [] = some []
get_xls_row values (c ∷ cols) = prepend (cell_at values (atoi c.path)) (get_xls_row values cols)

-- `recordsRead`, `xlsStruct.Records` and the rows of each message sent so far. The job's
-- `RecordsLoaded` is 0 in all of them.
pub record Sheet : Type 0 where
  pub records_read : ℕ
  pub records : List Cells
  pub sent : List (List Cells)

-- The row is pending, it is sent, and nothing is pending.
unfoldable pub send_xls_row : Cells → Action Sheet (Unit {0})
send_xls_row cells = do
  write (λ s. record s { records = s.records ++ (cells ∷ []) })
  write (λ s. record s { sent = s.sent ++ (s.records ∷ []) })
  write (λ s. record s { records = [] })

-- `orders` gives the rules for the row of a number, as for the records of a CSV file.
module _ (interp : Interpreter) (functions : List TransformFunction) (orders : ℕ → List ExtractRule)
    (cols : List Column) (skipheaders : ℤ) where
  -- The branch for a row behind the skipped ones
  unfoldable pub take_xls_row : ℕ → List String → Action Sheet (Unit {0})
  unfolding get_xls_row send_xls_row
  take_xls_row n values = do
    row ← row_or_panic (get_xls_row values cols)
    cells ← transformed (run_rules interp (get_column_names cols) functions (orders n) row)
    send_xls_row cells

  -- The loop over the rows
  unfoldable pub xls_loop : List (List String) → Action Sheet (Unit {0})
  unfolding take_xls_row
  xls_loop [] = give tt
  xls_loop (values ∷ rows) = do
    write (λ s. record s { records_read = suc s.records_read })
    n ← read (λ s. s.records_read)
    if nat_le n skipheaders then give tt else take_xls_row n values
    xls_loop rows

  -- The loop, and the count of the extract log
  unfoldable pub extract_xls : List (List String) → Action Sheet ℕ
  unfolding xls_loop
  extract_xls rows = do xls_loop rows; give (length rows)
