-- ===== src/Tests/Files.antt =====
-- A small file that is extracted, and a queue of two files.
use churro.Common.{
  ℕ, leb, if◌then◌else◌, ◌<>◌, String, List, [], ◌∷◌, ◌++◌, map, none, some, ◌≡◌, ◌≢◌, refl, true,
  length, arith,
}
use churro.Common.Int.{pos}
use churro.Common.Text.{atoi}
use churro.Common.Action.{
  ok, give, fail, panic, read, write, of_result, refuse_with, Outcome, returned, panicked, ◌>>=◌,
}
use churro.Domain.{ExtractRule, TransformFunction}
use churro.Tests.Sample.{new_rule}
use churro.Extract.{Column}
use churro.Extract.Csv.{get_csv_row, extract_csv}
use churro.Extract.Csv.Rows.{AllFine, extract_csv_lem, length-extract_csv}
use churro.Extract.Xlsx.{extract_xls}
use churro.Extract.Xlsx.Same.{forget}
use churro.Transform.{Interpreter, run_rules, run_rule, apply_rule, locate, text_at, find_function}
use churro.Cluster.{running}
use churro.Jobs.{receiving, Service, Event, send, receive, count_pods, enter, running_pods, run}
use churro.Jobs.Limit.{running_pods_unbounded}
use churro.Jobs.Queue.{files_of, files_of-run}

abbrev interpreter : Interpreter
interpreter = record { eval_error = λ _. none; function = λ _ _. returned (λ _. some "x") }

abbrev zip_city : List Column
zip_city =
    record { name = "zip"; path = "1"; type = "TEXT" }
    ∷ record { name = "city"; path = "0"; type = "TEXT" }
    ∷ []

abbrev lines : List (List String)
lines = ("city" ∷ "zip" ∷ []) ∷ ("bonn" ∷ "53111" ∷ []) ∷ ("ulm" ∷ "89073" ∷ []) ∷ []

not_panicked : ◌≢◌ {A = Outcome (Unit {0})} (returned tt) panicked
not_panicked e = ground arith

-- Two rules of one column, each with a function that appends to the text
abbrev appending : Interpreter
appending = record {
  eval_error = λ _. none;
  function = λ source name. returned (λ x. some (x <> source));
}

abbrev functions : List TransformFunction
functions =
    record { id = "f1"; name = "First"; source = "a" }
    ∷ record { id = "f2"; name = "Second"; source = "b" }
    ∷ []

abbrev first_rule : ExtractRule
first_rule = record new_rule { column_name = "city"; transform_function = "First" }

abbrev second_rule : ExtractRule
second_rule = record first_rule { id = "r2"; transform_function = "Second" }

-- The map gives them in another order for the third record.
abbrev turned : ℕ → List ExtractRule
turned n = if leb n 2 then first_rule ∷ second_rule ∷ [] else second_rule ∷ first_rule ∷ []

lines-turned : AllFine appending functions turned zip_city (pos 1) 0 lines
unfolding get_csv_row atoi run_rules run_rule apply_rule locate text_at find_function give read
    write fail panic of_result refuse_with ◌>>=◌
lines-turned = (
  (some "zip" ∷ some "city" ∷ [], refl, not_panicked),
  (
    (some "53111" ∷ some "bonn" ∷ [], refl, not_panicked),
    ((some "89073" ∷ some "ulm" ∷ [], refl, not_panicked), tt),
  ),
)

extract_csv_lem_example :
    extract_csv appending functions turned zip_city
      (pos 1)
      (map ok lines)
      (record { records_read = 0; records = []; sent = [] })
    ≡ (
      returned tt,
      record {
        records_read = 3;
        records = [];
        sent =
            record { records_loaded = 2; rows = (some "53111" ∷ some "bonnab" ∷ []) ∷ [] }
            ∷ record { records_loaded = 3; rows = (some "89073" ∷ some "ulmba" ∷ []) ∷ [] }
            ∷ [];
      },
    )
unfolding get_csv_row atoi run_rules run_rule apply_rule locate text_at find_function give read
    write fail panic of_result refuse_with ◌>>=◌
extract_csv_lem_example =
    extract_csv_lem appending functions turned zip_city (pos 1) lines lines-turned

length-extract_csv_example :
    length
      (extract_csv appending functions turned zip_city
        (pos 1)
        (map ok lines)
        (record { records_read = 0; records = []; sent = [] })).1.sent
    ≡ 2
length-extract_csv_example =
    length-extract_csv appending functions turned zip_city 1 lines lines-turned

-- A row that ends before the column of its path
extract_xls_short :
    (extract_xls interpreter []
      (λ _. [])
      zip_city
      (pos 1)
      (lines ++ (("jena" ∷ []) ∷ []))
      (forget (record { records_read = 0; records = []; sent = [] }))).0
    ≡ panicked
unfolding extract_xls atoi run_rules give ◌>>=◌
extract_xls_short = refl

abbrev idle : Service
idle = record { waiting = []; consumer = receiving; pods = running ∷ []; finished = [] }

-- The second file comes while the limit is reached.
abbrev busy : List Event
busy =
    send "a.csv"
    ∷ receive
    ∷ count_pods true true
    ∷ enter 1 running
    ∷ send "b.csv"
    ∷ receive
    ∷ count_pods true true
    ∷ []

files_of-run_example : files_of (run (pos 2) busy idle) ≡ "a.csv" ∷ "b.csv" ∷ []
files_of-run_example = files_of-run (pos 2) busy idle

running_pods_unbounded_example :
    (events : List Event) × (running_pods
        (run
          (pos 1)
          events
          (record { waiting = []; consumer = receiving; pods = []; finished = [] })).pods
      ≡ 5)
running_pods_unbounded_example = running_pods_unbounded 5
