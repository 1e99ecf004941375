-- ===== src/Tests/Entries.antt =====
-- The requests on the entries of the sample.
use churro.Common.{◌<>◌, String, [], ◌∷◌, none, some, ◌≡◌, refl, ◌⊎◌, false, true}
use churro.Common.Action.{returned, ok, err, first_refusal, ◌>>=◌}
use churro.Common.Ensures.{Ends}
use churro.Domain.{ExtractRule}
use churro.Common.Text.{atoi}
use churro.Cluster.{Cluster, Codec}
use churro.Ctl.Removal.{delete_entry, has}
use churro.Ctl.Removal.Laws.{delete_entry-without}
use churro.Ctl.Rewriting.{rewrite_all}
use churro.Ctl.Rewriting.Laws.{rewrite_all_lem}
use churro.Ctl.Sources
use churro.Ctl.Sources.{
  add_source, change_source, delete_extract_source, source_definition, edit_source,
}
use churro.Ctl.Sources.Specs.{
  add_source_lem, add_source-succeeds, change_source_lem, delete_extract_source_lem,
}
use churro.Ctl.Rules
use churro.Ctl.Rules.{
  add_rule, change_rule, delete_extract_rule, validate_rule_path, rule_definition, edit_rule,
  get_extract_rule,
}
use churro.Ctl.Rules.Roundtrip.{add_rule-get_extract_rule}
use churro.Ctl.Rules.Specs.{add_rule_lem}
use churro.Ctl.Extensions
use churro.Ctl.Extensions.{
  add_extension, change_extension, delete_extension, extension_definition, edit_extension,
}
use churro.Ctl.Extensions.Specs.{add_extension_lem, delete_extension_twin}
use churro.Tests.Sample.{
  quiet, parsers, orders, city, audit, sales, before, returns, new_rule, archive,
}

add_rule_lem_example :
    Ends
      (λ id t.
        (first_refusal (Rules.checks new_rule) ≡ none)
        × (validate_rule_path parsers "1" "csv" ≡ none)
        × (t.pipeline ≡ record sales { extractrules = city ∷ rule_definition id new_rule ∷ [] }))
      (λ t. t.pipeline ≡ sales)
      (add_rule quiet parsers new_rule before)
add_rule_lem_example = add_rule_lem quiet parsers new_rule before

add_source_lem_example :
    Ends
      (λ id t.
        (first_refusal (Sources.checks returns) ≡ none)
        × (Sources.path_taken "/churro/returns" (orders ∷ []) ≡ false)
        × (t.pipeline
            ≡ record sales { extractsources = orders ∷ source_definition id returns ∷ [] }))
      (λ t.
        (t.pipeline ≡ sales)
        ⊎ ((id : String) × (t.pipeline
              ≡ record sales { extractsources = orders ∷ source_definition id returns ∷ [] })))
      (add_source quiet returns before)
add_source_lem_example = add_source_lem quiet returns before

add_source-succeeds_example : add_source quiet returns before ≡ (
  returned "",
  record before {
    pipeline = record sales { extractsources = orders ∷ source_definition "" returns ∷ [] };
    notified = 1;
    calls = 10;
  },
)
unfolding Sources.checks
add_source-succeeds_example = add_source-succeeds quiet returns before (λ _ _. refl) refl refl

delete_extract_source_lem_example :
    Ends
      (λ _ t. t.pipeline ≡ record sales { extractsources = [] })
      (λ t. (t.pipeline ≡ sales) ⊎ (t.pipeline ≡ record sales { extractsources = [] }))
      (delete_extract_source quiet "sales" "s1" before)
delete_extract_source_lem_example = delete_extract_source_lem quiet "sales" "s1" before (refl, tt)

change_source_lem_example :
    Ends
      (λ _ t.
        (false ≡ false)
        × (t.pipeline ≡ record sales {
          extractsources = edit_source (record returns { id = "s1" }) orders ∷ [];
        }))
      (λ t.
        (t.pipeline ≡ sales)
        ⊎ (t.pipeline ≡ record sales {
          extractsources = edit_source (record returns { id = "s1" }) orders ∷ [];
        }))
      (change_source quiet (record returns { id = "s1" }) before)
change_source_lem_example = change_source_lem quiet (record returns { id = "s1" }) before (refl, tt)

add_extension_lem_example :
    Ends
      (λ id t.
        (first_refusal (Extensions.checks archive) ≡ none)
        × (id ≡ "e1")
        × (t.pipeline ≡ record sales { extensions = audit ∷ extension_definition archive ∷ [] }))
      (λ t. t.pipeline ≡ sales)
      (add_extension quiet archive before)
add_extension_lem_example = add_extension_lem quiet archive before

-- The pipeline behind a second creation of the extension.
abbrev twice : Cluster
twice = record before {
  pipeline = record sales { extensions = audit ∷ extension_definition archive ∷ [] };
}

delete_extension_twin_example :
    has (λ x. x.id) "e1" (delete_extension quiet "e1" twice).1.pipeline.extensions ≡ true
delete_extension_twin_example =
    delete_extension_twin quiet "e1" twice [] [] audit (extension_definition archive) refl refl refl
      refl

delete_entry-without_example :
    delete_entry (λ (x : String). x) "b" ("a" ∷ "b" ∷ "c" ∷ []) ≡ ("a" ∷ "c" ∷ [], some "b")
delete_entry-without_example =
    delete_entry-without (λ (x : String). x) "b" ("a" ∷ "b" ∷ "c" ∷ []) (refl, (refl, (refl, tt)))

rewrite_all_lem_example :
    rewrite_all (λ (x : String). x) "b" (λ _. "d") (λ l s. (returned tt, l)) ("a" ∷ "b" ∷ []) []
    ≡ (returned tt, "a" ∷ "d" ∷ [])
rewrite_all_lem_example =
    rewrite_all_lem (λ (x : String). x) "b" (λ _. "d") (λ l s. (returned tt, l)) ("a" ∷ "b" ∷ []) []
      (refl, (refl, tt))

-- A codec that writes the ID and the name of the column.
abbrev writes : Codec ExtractRule
writes = record { decode = λ _. err "not json"; encode = λ r. ok (r.id <> ":" <> r.column_name) }

add_rule-get_extract_rule_example :
    ((add_rule quiet parsers new_rule >>= get_extract_rule quiet writes) before).0
    ≡ returned ("xxx" <> ":" <> new_rule.column_name)
unfolding Rules.checks validate_rule_path atoi
add_rule-get_extract_rule_example =
    add_rule-get_extract_rule quiet (λ _ _. refl) parsers new_rule before writes _ refl refl refl
      refl
