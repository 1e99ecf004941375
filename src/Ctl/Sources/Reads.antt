-- ===== src/Ctl/Sources/Reads.antt =====
-- internal/ctl/extractsource.go: the requests that read the extract sources.
use churro.Common.{
  Bool, true, false, ◌&&◌, ◌||◌, String, List, [], ◌∷◌, map, insert, ◌==◌, if◌then◌else◌,
}
use churro.Common.Int.{pos}
use churro.Common.Action.{Action, give, of_result, rescue, ◌>>=◌, ◌>>◌}
use churro.Domain.{ExtractSource, ExtractRule, Extension, Metric}
use churro.Domain.Scheme
use churro.Cluster.{
  Api, Cluster, Codec, Pipeline, Pod, Phase, pending, running, succeeded, broken, unknown,
  ExtractSourceDefinition, ExtractRuleDefinition, ExtensionDefinition, attempt, fetch,
  list_selected, kube_client, new_database, connect_database, query_metrics,
}
use churro.Ctl.Rules.{rule_of}
use churro.Ctl.Extensions.{extension_of}

-- `domain.ExtractSource{}`
abbrev pub zero_source : ExtractSource
zero_source = record {
  id = "";
  name = "";
  path = "";
  scheme = "";
  regex = "";
  tablename = "";
  cronexpression = "";
  skipheaders = pos 0;
  multiline = false;
  sheetname = "";
  port = pos 0;
  encoding = "";
  transport = "";
  servicetype = "";
  initialized = false;
  running = false;
  extract_rules = [];
  extensions = [];
}

-- The fields that `GetExtractSources` copies: not the skipped headers, the sheet, nor `Multiline`.
abbrev pub source_of : ExtractSourceDefinition → ExtractSource
source_of x = record zero_source {
  id = x.id;
  name = x.name;
  path = x.path;
  scheme = x.scheme;
  regex = x.regex;
  tablename = x.tablename;
  cronexpression = x.cronexpression;
  port = x.port;
  encoding = x.encoding;
  transport = x.transport;
  servicetype = x.servicetype;
}

-- The rules and the extensions of a source, under their IDs: a later one of an ID replaces it.
unfoldable pub rules_of :
    String → List ExtractRuleDefinition → List (String × ExtractRule) → List (String × ExtractRule)
unfolding insert
rules_of id [] m = m
rules_of id (x ∷ xs) m =
    rules_of id xs (if x.extractsourceid == id then insert x.id (rule_of x) m else m)

unfoldable pub extensions_of :
    String → List ExtensionDefinition → List (String × Extension) → List (String × Extension)
unfolding insert
extensions_of id [] m = m
extensions_of id (x ∷ xs) m =
    extensions_of id xs (if x.extractsourceid == id then insert x.id (extension_of x) m else m)

-- `wdir` after the search loop of `GetExtractSource`: the fields of the last source of the ID.
unfoldable pub source_found :
    String → Pipeline → List ExtractSourceDefinition → ExtractSource → ExtractSource
unfolding rules_of extensions_of
source_found id p [] w = w
source_found id p (x ∷ xs) w = source_found id p xs (
    if x.id == id
    then record (source_of x) {
      extract_rules = rules_of id p.extractrules [];
      extensions = extensions_of id p.extensions [];
    }
    else w)

abbrev pub is_running_phase : Phase → Bool
is_running_phase running = true
is_running_phase pending = false
is_running_phase succeeded = false
is_running_phase broken = false
is_running_phase unknown = false

abbrev any_running : List Pod → Bool
any_running [] = false
any_running (p ∷ l) = is_running_phase p.phase || any_running l

module _ (api : Api) where
  -- `isRunning`
  unfoldable pub is_running : String → String → Action Cluster Bool
  is_running namespace name = do
    attempt api kube_client
    pods ← list_selected api (λ p. p.namespace == namespace && p.extractsourcename == name)
    give (any_running pods)

  -- `getExtractSourceMetrics`
  unfoldable pub get_extract_source_metrics : String → Action Cluster (List Metric)
  get_extract_source_metrics id = do
    attempt api new_database
    attempt api connect_database
    query_metrics api id

  -- `wdir.Running` is asked for these schemes only.
  unfoldable pub with_running : String → ExtractSource → Action Cluster ExtractSource
  with_running namespace w =
      if w.scheme == Scheme.api || w.scheme == Scheme.httppost
      then (do r ← is_running namespace w.name; give (record w { running = r }))
      else give w

  -- An error of the metrics is dropped.
  unfoldable pub get_extract_source :
      Codec ExtractSource → String → Action Cluster (String × List Metric)
  get_extract_source codec id = do
    p ← fetch api
    w ← with_running p.name (source_found id p p.extractsources zero_source)
    text ← of_result (codec.encode w)
    metrics ← rescue (get_extract_source_metrics id) (λ e. give []) give
    give (text, metrics)

  unfoldable pub get_extract_sources : Codec (List ExtractSource) → Action Cluster String
  get_extract_sources codec = do
    p ← fetch api
    of_result (codec.encode (map source_of p.extractsources))
