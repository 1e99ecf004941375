-- ===== src/Ctl/Requests/Invariant/Rules.antt =====
-- The requests that change the extract rules keep the form.
use churro.Common.{ℕ, String, List, refl}
use churro.Common.Ensures.{
  Ensures, Ensures-bind, Ensures-give, Ensures-refuse, Ensures-refuse_with, Ensures-refuse_all,
}
use churro.Domain.{ExtractRule}
use churro.Cluster.{Api, Pipeline, ExtractRuleDefinition}
use churro.Ctl.Rewriting.Laws.{Ensures-rewrite_all}
use churro.Ctl.Rules.{PathParsers, edit_rule, add_rule, change_rule, delete_extract_rule}
use churro.Ctl.Requests.Invariant.{
  IsWellFormed, Kept, Held, Held-Stable, Drawn-Stable, DrawsDistinct, Fits, Fits-snoc, Fits-delete,
  Fits-edited, fresh-Drawn, update-Kept, fetch-Held, rule_ids,
}

module _ (api : Api) where
  -- The document with another list of rules.
  with_rules :
      (calls : ℕ) (p : Pipeline) (l : List ExtractRuleDefinition)
      → IsWellFormed api calls p
      → Fits api (λ x. x.id) calls l
      → IsWellFormed api calls (record p { extractrules = l })
  with_rules calls p l w (d, u) = record {
    sources_distinct = w.sources_distinct;
    paths_distinct = w.paths_distinct;
    rules_distinct = d;
    functions_distinct = w.functions_distinct;
    sources_undrawn = w.sources_undrawn;
    rules_undrawn = u;
    functions_undrawn = w.functions_undrawn;
  }

  rules_fit :
      (calls : ℕ) (p : Pipeline)
      → IsWellFormed api calls p
      → Fits api (λ x. x.id) calls p.extractrules
  rules_fit calls p w = (w.rules_distinct, w.rules_undrawn)

  pub change_rule-Kept :
      (parsers : PathParsers) (rule : ExtractRule)
      → Ensures (Kept api) (change_rule api parsers rule) (λ _. Kept api) (Kept api)
  unfolding change_rule
  change_rule-Kept parsers rule = Ensures-bind (fetch-Held api) λ p.
      Ensures-bind {Q = λ _. Held api p} (Ensures-refuse_with _ (λ s h. h.1) (λ _ s h. h)) λ _.
        Ensures-bind {Q = λ _. Held api p} (Ensures-refuse _ _ (λ s h. h.1) (λ _ s h. h)) λ _.
          Ensures-rewrite_all (λ x. x.id) rule.id (edit_rule rule) _ p.extractrules
            (λ s h. h.0.rules_distinct) (λ _ s h. h.1)
            (update-Kept api _ (Held-Stable api p) (λ s h. h.1)
              λ s h. with_rules s.calls p _ h.0 (
                Fits-edited api (λ x. x.id) s.calls p.extractrules rule.id (edit_rule rule)
                  (λ x. refl) (rules_fit s.calls p h.0)))

  pub delete_extract_rule-Kept :
      (id : String) → Ensures (Kept api) (delete_extract_rule api id) (λ _. Kept api) (Kept api)
  unfolding delete_extract_rule
  delete_extract_rule-Kept id = Ensures-bind (fetch-Held api) λ p.
      Ensures-bind {Q = λ _. Held api p} (Ensures-refuse _ _ (λ s h. h.1) (λ _ s h. h)) λ _.
        update-Kept api _ (Held-Stable api p) (λ s h. h.1)
          λ s h.
            with_rules s.calls p _ h.0
              (Fits-delete api (λ x. x.id) s.calls p.extractrules id (rules_fit s.calls p h.0))

  module _ (distinct : DrawsDistinct api) where
    pub add_rule-Kept :
        (parsers : PathParsers) (rule : ExtractRule)
        → Ensures (Kept api) (add_rule api parsers rule) (λ _. Kept api) (Kept api)
    unfolding add_rule
    add_rule-Kept parsers rule =
        Ensures-bind {Q = λ _. Kept api} (Ensures-refuse_all _ (λ s w. w) (λ _ s w. w)) λ _.
          Ensures-bind (fetch-Held api) λ p.
            Ensures-bind {Q = λ _. Held api p} (Ensures-refuse_with _ (λ s h. h.1) (λ _ s h. h))
              λ _. Ensures-bind (fresh-Drawn api distinct rule_ids p (λ n w. w.rules_undrawn)) λ id.
                Ensures-bind
                  (update-Kept api _ (Drawn-Stable api rule_ids p id) (λ s h. h.0.1)
                    (λ s h. with_rules s.calls p _ h.0.0 (
                      Fits-snoc api (λ x. x.id) s.calls p.extractrules _
                        (h.0.0.rules_distinct, h.0.0.rules_undrawn) h.1)))
                  λ _. Ensures-give id (λ s w. w)
