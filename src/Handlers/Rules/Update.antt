-- ===== src/Handlers/Rules/Update.antt =====
-- The page that updates a rule, over the control service that keeps the rules.
use text.Mathlib.TextEquality.{eq_iff}
use churro.Common.{false, String, List, [], ◌∷◌, map, some, none, ◌==◌, ◌<>◌, ◌≡◌, refl, Distinct}
use churro.Common.{◌⊎◌, Bool-cases, inl, inr, arith}
use churro.Common.Action.{
  ok, Outcome, returned, failed, panicked, give, of_result, rescue, resume, ◌>>=◌,
}
use churro.Common.Ensures.{Ends}
use churro.Domain.{ExtractRule}
use churro.Cluster.{Api, Cluster, ExtractRuleDefinition}
use churro.Ctl.Functions.{encode_or_empty}
use churro.Ctl.Rewriting.{edited}
use churro.Ctl.Rules
use churro.Ctl.Rules.{PathParsers, change_rule, edit_rule}
use churro.Ctl.Rules.Specs.{change_rule_lem}
use churro.Handlers.{Request, var, value_at}
use churro.Common.Keeps.{Keeps-after}
use churro.Handlers.Rules.Keeping.{Reading, extract_rule-Keeps}
use churro.Handlers.Pages.{Wrapper, Reply, redirect, copy, or_else}
use churro.Handlers.Rules.{
  RuleWeb, Client, RuleForm, extract_rule, send_update, update_extract_rule,
}

-- The rule that the page reads from the request: it names no function.
abbrev pub rule_of_form : Request → String → String → String → String → ExtractRule
rule_of_form r column_name column_path column_type match_values = record {
  id = var "rid" r;
  extract_source_id = var "extractsourceid" r;
  column_name = column_name;
  column_path = column_path;
  column_type = column_type;
  match_values = match_values;
  transform_function = "";
}

-- No rule of the ID has a function.
abbrev pub Unset : String → List ExtractRuleDefinition → Type 0
Unset id [] = Unit
Unset id (x ∷ xs) = (x.id ≡ id → x.transform_function_name ≡ "") × Unset id xs

edited-Unset :
    (id : String) (rule : ExtractRule)
    → rule.transform_function ≡ ""
    → (xs : List ExtractRuleDefinition) → Unset id (edited (λ x. x.id) id (edit_rule rule) xs)
edited-Unset id rule h [] = tt
edited-Unset id rule h (x ∷ xs) = elim (Bool-cases (x.id == id)) [
  | inl e ↦ rw e ((λ _. h), edited-Unset id rule h xs)
  | inr e ↦ rw e ((λ k. ground (arith, (eq_iff x.id id).1 k)), edited-Unset id rule h xs)
]

module _ (service : RuleWeb Cluster) (client : Client Cluster) (name : String) (api : Api)
    (parsers : PathParsers) where
  -- The pipeline of the ID in the request is known, and its control service answers.
  abbrev pub Reaches : Request → Type 0
  Reaches r =
      (service.pipeline_name (var "id" r) ≡ ok name)
      × (service.connect name ≡ ok client)
      × (client.update_extract_rule ≡ Rules.update_extract_rule api parsers service.rule_codec)

  -- The request names a pipeline, a source and a rule, and its form has these fields.
  abbrev pub Filled : Request → String → String → String → String → Type 0
  Filled r column_name column_path column_type match_values =
      (var "id" r == "" ≡ false)
      × (var "extractsourceid" r == "" ≡ false)
      × (var "rid" r == "" ≡ false)
      × (value_at "columnname" r.form ≡ some column_name)
      × (value_at "columnpath" r.form ≡ some column_path)
      × (value_at "columntype" r.form ≡ some column_type)
      × (value_at "matchvalues" r.form ≡ some match_values)

  update_extract_rule-change_rule :
      (u : Wrapper) (r : Request) (n p t m : String) (s : Cluster)
      → Reaches r
      → Filled r n p t m
      → service.rule_codec.decode (encode_or_empty service.rule_codec (rule_of_form r n p t m))
        ≡ ok (rule_of_form r n p t m)
      → let (o, after) = change_rule api parsers (rule_of_form r n p t m) s in
        update_extract_rule service u r s
        ≡ resume o
            (λ e. extract_rule service (copy u e) r)
            (λ _. give (redirect ("/pipelines/" <> var "id" r)))
            after
  unfolding update_extract_rule send_update or_else rescue of_result Rules.update_extract_rule ◌>>=◌
      give
  update_extract_rule-change_rule u r n p t m s (known, reached, same) (i, j, k, a, b, c, d) codes =
      rw (i, j, k, known, reached, a, b, c, d, same, codes) refl

  -- The rules behind the update: those of the ID have the values of the form, keep their types and
  -- lose their functions. Or the page of the rule is shown with an error, and behind that page the rules
  -- are the old ones.
  abbrev pub Resets :
      Wrapper → Request → ExtractRule → Cluster → Outcome (Reply RuleForm) × Cluster → Type 0
  Resets u r rule s x =
      ((after : Cluster) × (x ≡ (returned (redirect ("/pipelines/" <> var "id" r)), after))
        × (after.pipeline ≡ record s.pipeline {
          extractrules = edited (λ y. y.id) rule.id (edit_rule rule) s.pipeline.extractrules;
        })
        × Unset rule.id after.pipeline.extractrules)
      ⊎ ((e : String) × (after : Cluster) × (x ≡ extract_rule service (copy u e) r after)
          × (x.1.pipeline ≡ s.pipeline))
      ⊎ ((x.0 ≡ panicked) × (x.1.pipeline ≡ s.pipeline))

  change_rule-Resets :
      (u : Wrapper) (r : Request) (n p t m : String) (s : Cluster)
      (x : Outcome (Unit {0}) × Cluster)
      → Reading service (λ t. t.pipeline ≡ s.pipeline)
      → let rule = rule_of_form r n p t m in
        Ends
          (λ _ after.
            (Rules.validate_rule_path parsers rule.column_path
                (Rules.scheme_of rule.extract_source_id s.pipeline.extractsources "")
              ≡ none)
            × (after.pipeline ≡ record s.pipeline {
              extractrules = edited (λ y. y.id) rule.id (edit_rule rule) s.pipeline.extractrules;
            }))
          (λ after. after.pipeline ≡ s.pipeline)
          x
        → Resets u r rule s (
            resume x.0
              (λ e. extract_rule service (copy u e) r)
              (λ _. give (redirect ("/pipelines/" <> var "id" r)))
              x.1)
  unfolding give
  change_rule-Resets u r n p t m s (returned _, after) reading (_, h) = inl (
    after,
    refl,
    h,
    rw h (edited-Unset (var "rid" r) (rule_of_form r n p t m) refl s.pipeline.extractrules),
  )
  change_rule-Resets u r n p t m s (failed e, after) reading h = inr (
      inl (
        e,
        after,
        refl,
        Keeps-after _
            (extract_rule-Keeps service (λ t. t.pipeline ≡ s.pipeline) reading (copy u e) r) after
            h,
      ))
  change_rule-Resets u r n p t m s (panicked, after) reading h = inr (inr (refl, h))

  -- Where the pipeline is known and its control service answers, the request names a pipeline, a
  -- source and a rule, its form has the four fields, the rule reads back from its JSON, no two rules
  -- have the same ID, and the reads of a rule, of a source and of the functions keep the document:
  -- either the page redirects to the pipeline, every stored rule of the ID
  -- has the values of the form, the type it had and no function, and the rest of the document is as
  -- it was; or the page of the rule is shown with an error, or the control service panics, and at the
  -- end, behind what that page does, the document is as it was.
  pub update_extract_rule-Resets :
      (u : Wrapper) (r : Request) (n p t m : String) (s : Cluster)
      → Reaches r
      → Filled r n p t m
      → service.rule_codec.decode (encode_or_empty service.rule_codec (rule_of_form r n p t m))
        ≡ ok (rule_of_form r n p t m)
      → Distinct (map (λ x. x.id) s.pipeline.extractrules)
      → Reading service (λ t. t.pipeline ≡ s.pipeline)
      → Resets u r (rule_of_form r n p t m) s (update_extract_rule service u r s)
  update_extract_rule-Resets u r n p t m s reaches filled codes distinct reading =
      rw (update_extract_rule-change_rule u r n p t m s reaches filled codes) (
        change_rule-Resets u r n p t m s _ reading
          (change_rule_lem api parsers (rule_of_form r n p t m) s distinct))
