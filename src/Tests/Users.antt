-- ===== src/Tests/Users.antt =====
-- A user's access and a record's transformation.
use churro.Common.{
  List, [], ◌∷◌, none, some, ◌≡◌, refl, inl, inr, false, true, get_elem?, arith, eq_iff,
}
use churro.Common.Action.{ok, err, returned}
use churro.Domain.{UserProfile, ExtractRule, TransformFunction}
use churro.Authorization.{AuthMap, Database, authorized, action_write}
use churro.Authorization.Ranks.{writing, authorized-reaches, authorized-error}
use churro.Transform.{Cells, Interpreter, run_rules}
use churro.Transform.Cells.{run_rules-Spares}

abbrev pub mary : UserProfile
mary = record {
  id = "u1";
  first_name = "Mary";
  last_name = "Major";
  password = "secret";
  access = "Read";
  email = "mary@churro";
}

-- Mary reads in general and writes on one pipeline.
abbrev admin_db : Database
admin_db = record {
  new_database = λ _. ok tt;
  connection = ok tt;
  user_profile_by_email = λ _. ok mary;
  user_pipeline_access = λ _ _. ok "Write";
}

abbrev wish : AuthMap
wish = record {
  subject = "mary@churro";
  pipeline_id = "p1";
  object = "pipeline";
  action = action_write;
}

authorized-reaches_example : authorized admin_db wish "mockdb" ≡ true
authorized-reaches_example =
    authorized-reaches admin_db wish "mockdb" writing mary refl refl refl refl refl

authorized-error_example :
    authorized (record admin_db { connection = err "refused" }) wish "mockdb" ≡ false
authorized-error_example =
    authorized-error (record admin_db { connection = err "refused" }) wish "mockdb" "refused"
      (inr (inl refl))

abbrev interpreter : Interpreter
interpreter = record { eval_error = λ _. none; function = λ _ _. returned (λ _. some "x") }

abbrev functions : List TransformFunction
functions = record { id = "f1"; name = "Mark"; source = "" } ∷ []

abbrev rules : List ExtractRule
rules =
    record {
      id = "r1";
      extract_source_id = "s1";
      column_name = "city";
      column_path = "0";
      column_type = "TEXT";
      match_values = "";
      transform_function = "Mark";
    }
    ∷ []

abbrev cells : Cells
cells = some "bonn" ∷ some "53111" ∷ []

run_rules-Spares_example :
    get_elem? (run_rules interpreter ("city" ∷ "zip" ∷ []) functions rules cells).1 1
    ≡ some (some "53111")
run_rules-Spares_example =
    run_rules-Spares interpreter ("city" ∷ "zip" ∷ []) functions rules "zip" 1 cells refl
      (inr (refl, λ e. ground (arith, (eq_iff "city" "zip").1 e)), tt)
