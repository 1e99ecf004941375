-- ===== src/Ctl/Rules/Specs.antt =====
-- What the requests that change the extract rules do to the stored document, whatever outside calls
-- fail.
use churro.Common.{String, [], ◌∷◌, ◌++◌, map, none, ◌≡◌, refl, ◌∙◌, Distinct}
use churro.Common.Action.{first_refusal}
use churro.Common.Ensures.{
  Ends, Ensures-bind, Ensures-give, Ensures-weaken, Ensures-refuse-then, Ensures-refuse_with-then,
  Ensures-refuse_all-then,
}
use churro.Domain.{ExtractRule}
use churro.Cluster.{Api, Cluster}
use churro.Cluster.Document.{Ensures-fetch-then, Ensures-fresh-then, update-Stored}
use churro.Ctl.Removal.{without}
use churro.Ctl.Removal.Laws.{delete_entry-without}
use churro.Ctl.Rewriting.{edited}
use churro.Ctl.Rewriting.Laws.{Ensures-rewrite_all, edited-absent}
use churro.Ctl.Rules.{
  PathParsers, checks, scheme_of, validate_rule_path, rule_definition, edit_rule, add_rule,
  change_rule, delete_extract_rule,
}

-- Deleting a rule, where no rule's ID occurs twice: on success the stored document has lost the
-- rule of that ID and nothing else; on an error it is the old one.
pub delete_extract_rule_lem :
    (api : Api) (id : String) (s : Cluster)
    → Distinct (map (λ x. x.id) s.pipeline.extractrules)
    → Ends
        (λ _ t.
          t.pipeline
          ≡ record s.pipeline { extractrules = without (λ x. x.id) id s.pipeline.extractrules })
        (λ t. t.pipeline ≡ s.pipeline)
        (delete_extract_rule api id s)
unfolding delete_extract_rule
delete_extract_rule_lem api id s d =
    (Ensures-fetch-then api s.pipeline _ (λ t h. h)
        (Ensures-refuse-then _ _ (λ t h. h)
          λ _.
            rw (delete_entry-without (λ x. x.id) id s.pipeline.extractrules d)
              (update-Stored api s.pipeline _ (λ t h. h)))).at
      s refl

-- Creating a rule: on success the request has passed the checks, its path fits the scheme of its
-- extract source, and the stored document has gained the rule, under the answered ID, as the last;
-- on an error it is the old one.
pub add_rule_lem :
    (api : Api) (parsers : PathParsers) (rule : ExtractRule) (s : Cluster)
    → Ends
        (λ id t.
          (first_refusal (checks rule) ≡ none)
          × (validate_rule_path parsers rule.column_path
                (scheme_of rule.extract_source_id s.pipeline.extractsources "")
              ≡ none)
          × (t.pipeline ≡ record s.pipeline {
            extractrules = s.pipeline.extractrules ++ (rule_definition id rule ∷ []);
          }))
        (λ t. t.pipeline ≡ s.pipeline)
        (add_rule api parsers rule s)
unfolding add_rule
add_rule_lem api parsers rule s =
    (Ensures-refuse_all-then _ (λ t h. h)
        λ passed.
          Ensures-fetch-then api s.pipeline _ (λ t h. h)
            (Ensures-refuse_with-then _ (λ t h. h)
              λ fits. Ensures-fresh-then api s.pipeline _ λ id.
                Ensures-bind (update-Stored api s.pipeline _ (λ t h. h))
                  λ _. Ensures-give id (λ t h. (passed, fits, h)))).at
      s refl

-- Updating a rule, where no rule's ID occurs twice: on success the path fits the scheme of the
-- extract source that the request names, and the rule of the request's ID is edited in the stored
-- document, which is otherwise the old one; on an error it is the old one.
pub change_rule_lem :
    (api : Api) (parsers : PathParsers) (rule : ExtractRule) (s : Cluster)
    → Distinct (map (λ x. x.id) s.pipeline.extractrules)
    → Ends
        (λ _ t.
          (validate_rule_path parsers rule.column_path
              (scheme_of rule.extract_source_id s.pipeline.extractsources "")
            ≡ none)
          × (t.pipeline ≡ record s.pipeline {
            extractrules = edited (λ x. x.id) rule.id (edit_rule rule) s.pipeline.extractrules;
          }))
        (λ t. t.pipeline ≡ s.pipeline)
        (change_rule api parsers rule s)
unfolding change_rule
change_rule_lem api parsers rule s d =
    let p = s.pipeline in
    (Ensures-fetch-then api p _ (λ t h. h)
        (Ensures-refuse_with-then _ (λ t h. h)
          λ fits.
            Ensures-refuse-then _ _ (λ t h. h)
              λ _.
                Ensures-rewrite_all (λ x. x.id) rule.id (edit_rule rule) _ p.extractrules (λ t h. d)
                  (λ gone t h. (
                    fits,
                    h ∙ rw (edited-absent (λ x. x.id) rule.id (edit_rule rule) p.extractrules gone),
                  ))
                  (Ensures-weaken (update-Stored api p _ (λ t h. h)) (λ t h. h) (λ _ t h. (fits, h))
                    (λ t h. h)))).at
      s refl
