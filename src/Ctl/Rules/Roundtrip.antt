-- ===== src/Ctl/Rules/Roundtrip.antt =====
-- A rule that was created is the one that is read under the answered ID.
use churro.Common.{suc, String, [], ◌∷◌, ◌++◌, none, ◌≡◌, refl, ◌∙◌, ap, false}
use churro.Common.Action.{returned, ok, first_refusal, proceed, of_result, give, ◌>>=◌}
use churro.Domain.{ExtractRule}
use churro.Cluster.{Api, Cluster, Codec, fresh}
use churro.Cluster.Faultless.{
  Faultless, refuse_all-passed, refuse_with-passed, fetch-passed, update-passed,
}
use churro.Ctl.Removal.{has}
use churro.Ctl.Removal.Laws.{find_last}
use churro.Ctl.Rules.{
  PathParsers, checks, scheme_of, validate_rule_path, rule_definition, add_rule, answer_rule,
  get_extract_rule,
}

module _ (api : Api) (sound : Faultless api) (parsers : PathParsers) (rule : ExtractRule)
    (s : Cluster) where
  -- The ID is drawn behind the three calls that read the document.
  abbrev pub drawn : String
  drawn = api.new_id (suc (suc (suc s.calls)))

  abbrev created : Cluster
  created = record s {
    pipeline = record s.pipeline {
      extractrules = s.pipeline.extractrules ++ (rule_definition drawn rule ∷ []);
    };
    calls = suc (suc (suc (suc (suc s.calls))));
  }

  add_rule-created :
      first_refusal (checks rule) ≡ none
      → validate_rule_path parsers rule.column_path
          (scheme_of rule.extract_source_id s.pipeline.extractsources "")
        ≡ none
      → add_rule api parsers rule s ≡ (returned drawn, created)
  unfolding add_rule fresh give ◌>>=◌
  add_rule-created passed fits =
      refuse_all-passed (checks rule) _ s passed
      ∙ fetch-passed api sound _ _
      ∙ refuse_with-passed _ _ _ fits
      ∙ update-passed api sound _ _ _

  -- Where no outside call fails, the request passes the checks, its path fits the scheme of its
  -- extract source, the drawn ID is new, and the rule under that ID can be encoded, reading the
  -- created rule by the answered ID gives that encoding.
  pub add_rule-get_extract_rule :
      (codec : Codec ExtractRule) (text : String)
      → first_refusal (checks rule) ≡ none
      → validate_rule_path parsers rule.column_path
          (scheme_of rule.extract_source_id s.pipeline.extractsources "")
        ≡ none
      → has (λ x. x.id) drawn s.pipeline.extractrules ≡ false
      → codec.encode (record rule { id = drawn }) ≡ ok text
      → ((add_rule api parsers rule >>= get_extract_rule api codec) s).0 ≡ returned text
  unfolding get_extract_rule answer_rule of_result ◌>>=◌
  add_rule-get_extract_rule codec text passed fits new encoded =
      ap (λ r. (proceed r.0 (get_extract_rule api codec) r.1).0) (add_rule-created passed fits)
      ∙ ap (λ r. r.0) (fetch-passed api sound _ created)
      ∙ rw
          (
            find_last (λ x. x.id) drawn s.pipeline.extractrules (rule_definition drawn rule) new
                refl,
            encoded,
          )
          refl
