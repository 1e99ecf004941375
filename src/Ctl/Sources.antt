-- ===== src/Ctl/Sources.antt =====
-- internal/ctl/extractsource.go: the requests that change the extract sources of a pipeline.
pub mod Specs
pub mod Reads
use churro.Common.{
  Bool, true, false, not, ◌&&◌, ◌||◌, String, List, [], ◌∷◌, ◌++◌, map, contains, suc, is_nil,
  Option, none, some, ◌==◌, if◌then◌else◌,
}
use churro.Common.Int.{pos, is_negative}
use churro.Common.Action.{Action, give, read, write, of_result, refuse, refuse_all, ◌>>=◌, ◌>>◌}
use churro.Domain.{ExtractSource}
use churro.Domain.Scheme
use churro.Cluster.{
  Api, Cluster, Codec, Pipeline, Pod, ExtractSourceDefinition, attempt, fresh, fetch, update,
  get_pipeline_or_panic, list_selected, delete_pod_named, kube_client, dial_extractsource,
  call_extractsource,
}
use churro.Ctl.Removal.{delete_entry}
use churro.Ctl.Rewriting.{rewrite_all}

-- The checks of `CreateExtractSource`, in their order.
unfoldable pub checks : ExtractSource → List (Bool × String)
checks w =
    (w.name == "", "extract source name is required")
    ∷ (w.path == "", "extract source path is required")
    ∷ (w.scheme == "", "extract source scheme is required")
    ∷ (w.transport == "" && w.scheme == Scheme.httppost, "extract source transport is required")
    ∷ (w.encoding == "" && w.scheme == Scheme.httppost, "extract source encoding is required")
    ∷ (
      w.regex == "" && (not (w.scheme == Scheme.api) && not (w.scheme == Scheme.httppost)),
      "extract source regex is required",
    )
    ∷ (
      w.servicetype == "" && w.scheme == Scheme.httppost,
      "extract source servicetype is required for httppost schemes",
    )
    ∷ (
      is_negative w.skipheaders && (w.scheme == Scheme.csv || w.scheme == Scheme.xlsx),
      "extract source skipheaders is required to be >= 0",
    )
    ∷ (
      w.sheetname == "" && w.scheme == Scheme.xlsx,
      "extract source sheetname is required for xlsx scheme",
    )
    ∷ (w.tablename == "", "extract source tablename is required")
    ∷ []

abbrev pub path_taken : String → List ExtractSourceDefinition → Bool
path_taken path xs = contains (map (λ x. x.path) xs) path

-- `strconv.FormatBool`
abbrev pub format_bool : Bool → String
format_bool true = "true"
format_bool false = "false"

abbrev pub source_definition : String → ExtractSource → ExtractSourceDefinition
source_definition id w = record {
  id = id;
  name = w.name;
  path = w.path;
  scheme = w.scheme;
  regex = w.regex;
  tablename = w.tablename;
  cronexpression = w.cronexpression;
  skipheaders = w.skipheaders;
  multiline = format_bool w.multiline;
  sheetname = w.sheetname;
  port = w.port;
  encoding = w.encoding;
  transport = w.transport;
  servicetype = w.servicetype;
}

-- What `UpdateExtractSource` writes over an entry: all but its ID and `Multiline`.
abbrev pub edit_source : ExtractSource → ExtractSourceDefinition → ExtractSourceDefinition
edit_source f x = record x {
  name = f.name;
  path = f.path;
  scheme = f.scheme;
  regex = f.regex;
  tablename = f.tablename;
  port = f.port;
  encoding = f.encoding;
  skipheaders = f.skipheaders;
  sheetname = f.sheetname;
  transport = f.transport;
  cronexpression = f.cronexpression;
  servicetype = f.servicetype;
}

-- The zero value of the struct.
abbrev pub no_source : ExtractSourceDefinition
no_source = record {
  id = "";
  name = "";
  path = "";
  scheme = "";
  regex = "";
  tablename = "";
  cronexpression = "";
  skipheaders = pos 0;
  multiline = "";
  sheetname = "";
  port = pos 0;
  encoding = "";
  transport = "";
  servicetype = "";
}

-- `current` after the search loop: the last entry of the ID.
abbrev pub current_source :
    String → List ExtractSourceDefinition → ExtractSourceDefinition → ExtractSourceDefinition
current_source id [] current = current
current_source id (x ∷ xs) current = current_source id xs (if id == x.id then x else current)

-- `currentName`: empty if no entry was removed.
abbrev pub name_of : Option ExtractSourceDefinition → String
name_of none = ""
name_of (some x) = x.name

module _ (api : Api) where
  -- `triggerExtractSourceUpdate`, with `GetExtractSourceServiceConnection`
  unfoldable pub trigger_update : Action Cluster (Unit {0})
  trigger_update = do
    get_pipeline_or_panic api
    attempt api dial_extractsource
    attempt api call_extractsource
    write (λ s. record s { notified = suc s.notified })

  -- The loop of `deleteDataSourcePods`
  unfoldable pub delete_pods : String → List Pod → Action Cluster (Unit {0})
  delete_pods namespace [] = give tt
  delete_pods namespace (p ∷ l) = do delete_pod_named api namespace p.name; delete_pods namespace l

  unfoldable pub delete_data_source_pods : String → String → Action Cluster (Unit {0})
  delete_data_source_pods namespace name = do
    attempt api kube_client
    pods ← list_selected api (λ p. p.namespace == namespace && p.extractsourcename == name)
    delete_pods namespace pods

  -- `CreateExtractSource` behind the decoding of the request
  unfoldable pub add_source : ExtractSource → Action Cluster String
  add_source w = do
    refuse_all (checks w)
    id ← fresh api
    p ← fetch api
    refuse (path_taken w.path p.extractsources) "path already taken"
    update api (record p { extractsources = p.extractsources ++ (source_definition id w ∷ []) })
    trigger_update
    give id

  unfoldable pub create_extract_source : Codec ExtractSource → String → Action Cluster String
  create_extract_source codec request = do w ← of_result (codec.decode request); add_source w

  unfoldable pub delete_extract_source : String → String → Action Cluster (Unit {0})
  delete_extract_source namespace id = do
    p ← fetch api
    refuse (is_nil p.extractsources) "no extract sources exist"
    let found = delete_entry (λ x. x.id) id p.extractsources
    update api (record p { extractsources = found.0 })
    trigger_update
    delete_data_source_pods namespace (name_of found.1)

  -- `UpdateExtractSource` behind the decoding of the request
  unfoldable pub change_source : ExtractSource → Action Cluster (Unit {0})
  change_source f = do
    p ← fetch api
    refuse
        (not ((current_source f.id p.extractsources no_source).path == f.path)
          && path_taken f.path p.extractsources)
        "path already taken"
    refuse (is_nil p.extractsources) "no extract sources exist"
    rewrite_all (λ x. x.id) f.id (edit_source f) (λ l. update api (record p { extractsources = l }))
        p.extractsources
    trigger_update

  unfoldable pub update_extract_source : Codec ExtractSource → String → Action Cluster (Unit {0})
  update_extract_source codec request = do f ← of_result (codec.decode request); change_source f
