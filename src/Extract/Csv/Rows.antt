-- ===== src/Extract/Csv/Rows.antt =====
-- Which rows of a file are sent on.
use mathlib.Core.Path.{ap₂}
use mathlib.Core.List.{append-nil, append_assoc}
use mathlib.Core.Option.{some-injective, none-ne-some}
use churro.Common.{
  ℕ, zero, suc, ◌+◌, ◌-◌, String, List, [], ◌∷◌, ◌++◌, map, Option, none, some, get_elem?, length,
  if◌then◌else◌, ◌≡◌, ◌≢◌, refl, ◌∙◌, sym, ap, arith, Bool-cases, inl, inr,
}
use churro.Common.Int.{ℤ, pos, nat_le}
use churro.Common.Text.{atoi}
use churro.Common.Action.{
  ok, Outcome, returned, failed, panicked, Action, give, read, write, proceed, ◌>>=◌,
}
use churro.Domain.{ExtractRule, TransformFunction}
use churro.Extract.{Column, get_column_names}
use churro.Extract.Csv.{
  cell_at, prepend, row_or_panic, get_csv_row, Message, Loop, transformed, send_row, take_record,
  extract_csv,
}
use churro.Transform.{Cells, Interpreter, run_rules}

prepend_parts :
    (a : Option (Option String)) (b : Option Cells) (row : Cells)
    → prepend a b ≡ some row
    → (v : Option String) × (rest : Cells) × (a ≡ some v) × (b ≡ some rest) × ((v ∷ rest) ≡ row)
prepend_parts none b row h = absurd (none-ne-some _ h)
prepend_parts (some v) none row h = absurd (none-ne-some _ h)
prepend_parts (some v) (some rest) row h = (v, rest, refl, refl, some-injective _ _ h)

length-get_csv_row :
    (values : List String) (cols : List Column) (row : Cells)
    → get_csv_row values cols ≡ some row
    → length row ≡ length cols
unfolding get_csv_row atoi
length-get_csv_row values [] row h = ap length (sym (some-injective _ _ h))
length-get_csv_row values (d ∷ cols) row h =
    let (v, rest, _, e, f) = prepend_parts _ _ row h in
    ap length (sym f) ∙ ap suc (length-get_csv_row values cols rest e)

get_elem?-get_csv_row :
    (values : List String) (cols : List Column) (row : Cells) (i : ℕ) (c : Column)
    → get_csv_row values cols ≡ some row
    → get_elem? cols i ≡ some c
    → get_elem? row i ≡ cell_at values (atoi c.path)
unfolding get_csv_row atoi
get_elem?-get_csv_row values [] row i c h g = absurd (none-ne-some _ g)
get_elem?-get_csv_row values (d ∷ cols) row zero c h g =
    let (v, rest, e, _, f) = prepend_parts _ _ row h in
    ap (λ l. get_elem? l 0) (sym f)
    ∙ sym e
    ∙ ap (λ (x : Column). cell_at values (atoi x.path)) (some-injective _ _ g)
get_elem?-get_csv_row values (d ∷ cols) row (suc i) c h g =
    let (v, rest, _, e, f) = prepend_parts _ _ row h in
    ap (λ l. get_elem? l (suc i)) (sym f) ∙ get_elem?-get_csv_row values cols rest i c e g

-- A row has one cell for each column, in their order: nil where the column's path is no number, else
-- the value of the record at that index.
pub get_csv_row_lem :
    (values : List String) (cols : List Column) (row : Cells) (i : ℕ) (c : Column)
    → get_csv_row values cols ≡ some row
    → get_elem? cols i ≡ some c
    → (length row ≡ length cols) × (get_elem? row i ≡ cell_at values (atoi c.path))
get_csv_row_lem values cols row i c h g =
    (length-get_csv_row values cols row h, get_elem?-get_csv_row values cols row i c h g)

bind_returned :
    {S A B : Type 0} (m : Action S A) (f : A → Action S B) (s : S) (a : A) (t : S)
    → m s ≡ (returned a, t)
    → (m >>= f) s ≡ f a t
unfolding ◌>>=◌
bind_returned m f s a t h = ap (λ r. proceed r.0 f r.1) h

transformed-calm :
    (r : Outcome (Unit {0}) × Cells) (s : Loop)
    → r.0 ≢ panicked
    → transformed r s ≡ (returned r.1, s)
unfolding give
transformed-calm (returned _, cells) s calm = refl
transformed-calm (failed _, cells) s calm = refl
transformed-calm (panicked, cells) s calm = absurd (calm refl)

module _ (interp : Interpreter) (functions : List TransformFunction) (orders : ℕ → List ExtractRule)
    (cols : List Column) (skipheaders : ℤ) where
  -- The run of the rules on the row of the record of that number.
  abbrev pub ran : ℕ → Cells → Outcome (Unit {0}) × Cells
  ran n row = run_rules interp (get_column_names cols) functions (orders n) row

  -- The record of that number gives a row, and the rules run on it without a panic.
  abbrev pub Fine : ℕ → List String → Type 0
  Fine n values = (row : Cells) × (get_csv_row values cols ≡ some row) × ((ran n row).0 ≢ panicked)

  -- So do all records that go on from number `n`.
  abbrev pub AllFine : ℕ → List (List String) → Type 0
  AllFine n [] = Unit
  AllFine n (values ∷ l) = Fine (suc n) values × AllFine (suc n) l

  -- The message for a record: its number in the file, and its row after the rules.
  abbrev pub message : ℕ → Option Cells → Message
  message n none = record { records_loaded = n; rows = [] }
  message n (some row) = record { records_loaded = n; rows = (ran n row).1 ∷ [] }

  -- One message for each record behind the skipped ones, of records that go on from number `n`.
  abbrev pub messages : ℕ → List (List String) → List Message
  messages n [] = []
  messages n (values ∷ l) =
      let rest = messages (suc n) l in
      if nat_le (suc n) skipheaders then rest else message (suc n) (get_csv_row values cols) ∷ rest

  -- The state after `n` records, with nothing pending.
  abbrev pub at_rest : ℕ → List Message → Loop
  at_rest n l = record { records_read = n; records = []; sent = l }

  at_rest-cong : {m n : ℕ} {k l : List Message} → m ≡ n → k ≡ l → at_rest m k ≡ at_rest n l
  at_rest-cong p q = ap₂ at_rest p q

  take_record-Fine :
      (values : List String) (n : ℕ) (l : List Message)
      → Fine n values
      → take_record interp functions orders cols skipheaders n values (at_rest n l)
        ≡ (returned tt, at_rest n (l ++ (message n (get_csv_row values cols) ∷ [])))
  unfolding take_record send_row ◌>>=◌ write give
  take_record-Fine values n l (row, e, calm) =
      bind_returned (row_or_panic (get_csv_row values cols))
        (λ r. transformed (ran n r) >>= send_row) (at_rest n l) row (at_rest n l)
        (ap (λ o. row_or_panic o (at_rest n l)) e)
      ∙ bind_returned (transformed (ran n row)) send_row (at_rest n l) (ran n row).1 (at_rest n l)
          (transformed-calm (ran n row) (at_rest n l) calm)
      ∙ ap (λ x. (returned tt, at_rest n (l ++ (message n x ∷ [])))) (sym e)

  extract_csv-messages :
      (reads : List (List String)) (n : ℕ) (l : List Message)
      → AllFine n reads
      → extract_csv interp functions orders cols skipheaders (map ok reads) (at_rest n l)
        ≡ (returned tt, at_rest (n + length reads) (l ++ messages n reads))
  unfolding extract_csv write read give ◌>>=◌
  extract_csv-messages [] n l fine =
      ap (λ m. (returned tt, m)) (at_rest-cong (omega arith) (sym (append-nil _)))
  extract_csv-messages (values ∷ reads) n l (fine, rest) =
      elim (Bool-cases (nat_le (suc n) skipheaders)) [
        | inl skipped ↦
            bind_returned
              (if nat_le (suc n) skipheaders
                then give tt
                else take_record interp functions orders cols skipheaders (suc n) values)
              (λ _. extract_csv interp functions orders cols skipheaders (map ok reads))
              (at_rest (suc n) l) tt _ (rw skipped refl)
            ∙ extract_csv-messages reads (suc n) l rest
            ∙ ap (λ m. (returned tt, m)) (at_rest-cong (omega arith) (rw skipped refl))
        | inr taken ↦
            bind_returned
              (if nat_le (suc n) skipheaders
                then give tt
                else take_record interp functions orders cols skipheaders (suc n) values)
              (λ _. extract_csv interp functions orders cols skipheaders (map ok reads))
              (at_rest (suc n) l) tt _ (rw taken (take_record-Fine values (suc n) l fine))
            ∙ extract_csv-messages reads (suc n)
                (l ++ (message (suc n) (get_csv_row values cols) ∷ [])) rest
            ∙ ap (λ m. (returned tt, m))
                (at_rest-cong (omega arith) (
                  rw taken (
                    append_assoc l (message (suc n) (get_csv_row values cols) ∷ [])
                      (messages (suc n) reads))))
      ]

-- Over a file without an unreadable record, whose records all give a row on which the rules do not
-- panic, the loop ends without an error, has read all records, and has sent one message for each
-- record behind the skipped ones, in their order: the record's number in the file and its one row
-- after the rules, in the order that the map gives for this record, also where a rule failed.
pub extract_csv_lem :
    (interp : Interpreter) (functions : List TransformFunction) (orders : ℕ → List ExtractRule)
    (cols : List Column) (skipheaders : ℤ) (reads : List (List String))
    → AllFine interp functions orders cols skipheaders 0 reads
    → extract_csv interp functions orders cols skipheaders
        (map ok reads)
        (record { records_read = 0; records = []; sent = [] })
      ≡ (
        returned tt,
        record {
          records_read = length reads;
          records = [];
          sent = messages interp functions orders cols skipheaders 0 reads;
        },
      )
extract_csv_lem interp functions orders cols skipheaders reads fine =
    extract_csv-messages interp functions orders cols skipheaders reads 0 [] fine
    ∙ ap
        (λ n. (
          returned tt,
          record {
            records_read = n;
            records = [];
            sent = messages interp functions orders cols skipheaders 0 reads;
          },
        ))
        (omega arith)

module _ (interp : Interpreter) (functions : List TransformFunction) (orders : ℕ → List ExtractRule)
    (cols : List Column) (k : ℕ) where
  length-messages_from :
      (n : ℕ) (reads : List (List String))
      → length (messages interp functions orders cols (pos k) n reads)
        ≡ (length reads + n - k) - (n - k)
  length-messages_from n [] = omega arith
  length-messages_from n (values ∷ reads) = ground (arith, length-messages_from (suc n) reads)

-- The number of rows that a file gives is that of its records less the headers to skip, under the
-- conditions of a file that is read without an error or a panic.
pub length-extract_csv :
    (interp : Interpreter) (functions : List TransformFunction) (orders : ℕ → List ExtractRule)
    (cols : List Column) (k : ℕ) (reads : List (List String))
    → AllFine interp functions orders cols (pos k) 0 reads
    → length
        (extract_csv interp functions orders cols
          (pos k)
          (map ok reads)
          (record { records_read = 0; records = []; sent = [] })).1.sent
      ≡ length reads - k
length-extract_csv interp functions orders cols k reads fine =
    ap (λ r. length r.1.sent) (extract_csv_lem interp functions orders cols (pos k) reads fine)
    ∙ length-messages_from interp functions orders cols k 0 reads
    ∙ omega arith
