-- ===== src/Transform.antt =====
-- internal/transform/transform-functions.go: the transform functions of the rules, run on a record.
-- The state is the record: a value is a text, or nil as `none`.
pub mod Cells
use churro.Common.{
  ℕ, zero, suc, Bool, true, false, ◌||◌, String, List, [], ◌∷◌, Option, none, some, ◌==◌, ◌<>◌,
  if◌then◌else◌, get_elem?, set,
}
use churro.Common.Action.{
  Result, ok, err, Outcome, returned, failed, panicked, Action, give, fail, panic, read, write,
  of_result, refuse_with, ◌>>=◌, ◌>>◌,
}
use churro.Domain.{ExtractRule, TransformFunction}

abbrev pub Cells : Type 0
Cells = List (Option String)

-- The interpreter (traefik/yaegi): the error of evaluating a source, the function that a name has in
-- a source, which panics where it is no `func(string) string`, and a run of it, `none` for a panic.
pub record Interpreter : Type 0 where
  pub eval_error : String → Option String
  pub function : String → String → Outcome (String → Option String)

unfoldable pub find_function : List TransformFunction → String → Result TransformFunction
find_function [] name = err ("could not find function " <> name)
find_function (f ∷ l) name =
    let rest = find_function l name in if f.name == name then ok f else rest

abbrev pub find_column_from : ℕ → List String → String → Result ℕ
find_column_from i [] path = err ("could not find column that matches path " <> path)
find_column_from i (c ∷ l) path =
    let rest = find_column_from (suc i) l path in if c == path then ok i else rest

unfoldable pub find_column : List String → String → Result ℕ
find_column = find_column_from 0

abbrev pub text_or_panic : Option (Option String) → Action Cells String
text_or_panic none = panic
text_or_panic (some none) = panic
text_or_panic (some (some t)) = give t

abbrev pub of_outcome : {A : Type 0} → Outcome A → Action Cells A
of_outcome (returned a) = give a
of_outcome (failed e) = fail e
of_outcome panicked = panic

abbrev pub value_or_panic : Option String → Action Cells String
value_or_panic none = panic
value_or_panic (some t) = give t

-- `record[i].(string)`
unfoldable pub text_at : ℕ → Action Cells String
text_at i = do v ← read (λ r. get_elem? r i); text_or_panic v

-- The search for the rule's column from the index on: the last one of that name, else the index
-- found so far, which is 0 at first. The log line reads the record at each column of that name.
unfoldable pub locate : List String → String → ℕ → ℕ → Action Cells ℕ
unfolding text_at
locate [] name i found = give found
locate (c ∷ cols) name i found = elim (c == name) [
  | true ↦ do text_at i; locate cols name (suc i) i
  | false ↦ locate cols name (suc i) found
]

module _ (interp : Interpreter) (cols : List String) (functions : List TransformFunction) where
  -- The body of the loop for a rule with a function
  unfoldable pub apply_rule : ExtractRule → Action Cells (Unit {0})
  unfolding text_at
  apply_rule rule = do
    i ← locate cols rule.column_name 0 0
    fn ← of_result (find_function functions rule.transform_function)
    refuse_with (interp.eval_error fn.source)
    f ← of_outcome (interp.function fn.source fn.name)
    t ← text_at i
    v ← value_or_panic (f t)
    write (λ r. set r i (some v))

  abbrev pub has_no_function : ExtractRule → Bool
  has_no_function rule = rule.transform_function == "" || rule.transform_function == "None"

  unfoldable pub run_rule : ExtractRule → Action Cells (Unit {0})
  run_rule rule = if has_no_function rule then give tt else apply_rule rule

  -- `RunRules` with the rules in the order in which the loop takes them from the map
  unfoldable pub run_rules : List ExtractRule → Action Cells (Unit {0})
  run_rules [] = give tt
  run_rules (rule ∷ rules) = do run_rule rule; run_rules rules
