-- ===== src/Extract/Xlsx/Same.antt =====
-- The rows of a sheet are treated as the records of a CSV file are.
use churro.Common.{map, ◌≡◌}
use churro.Common.Action.{Outcome, Action}
use churro.Extract.Csv.{Loop}
use churro.Extract.Xlsx.{Sheet}

-- The state without the counts in the messages
abbrev pub forget : Loop → Sheet
forget s = record {
  records_read = s.records_read;
  records = s.records;
  sent = map (λ m. m.rows) s.sent;
}

abbrev pub carry : {A : Type 0} → Outcome A × Loop → Outcome A × Sheet
carry r = (r.0, forget r.1)

-- The two actions end alike from every state.
abbrev Alike : {A : Type 0} → Action Sheet A → Action Loop A → Type 0
Alike m n = (s : Loop) → m (forget s) ≡ carry (n s)
