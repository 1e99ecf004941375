-- ===== src/Jobs/Pods.antt =====
-- internal/extractsource/server.go: the extract pod that is created for a new file.
pub mod NewFile
use churro.Common.{
  String, List, [], ◌∷◌, ◌++◌, ◌<>◌, Option, none, some, Bool, not, ◌==◌, ◌&&◌, ◌||◌, if◌then◌else◌,
}
use churro.Common.Action.{Action, Result, ok, err, give, write, refuse, of_result, ◌>>=◌, ◌>>◌}
use churro.Domain.Scheme.{xlsx, csv, xml, json, jsonpath, api, httppost}
use churro.Cluster.{
  Api, Cluster, Pod, ExtractSourceDefinition, pending, kube_client, create_pod, attempt, fetch,
  fresh,
}
use churro.Jobs.Paths.{occurs, base_dir}

-- The variables CHURRO_EXTRACT_IMAGE, CHURRO_NAMESPACE, CHURRO_PIPELINE, CHURRO_PULL_SECRET_NAME.
pub record Settings : Type 0 where
  pub extract_image : String
  pub namespace : String
  pub pipeline_name : String
  pub pull_secret_name : String

-- `getTable` behind `filepath.Dir`: the name and the table of the first source of the scheme whose
-- path occurs somewhere in the directory.
abbrev pub get_table : String → String → List ExtractSourceDefinition → Result (String × String)
get_table dir scheme [] = err "could not find right scheme and dir in churro config"
get_table dir scheme (c ∷ l) =
    let rest = get_table dir scheme l in
    if c.scheme == scheme && occurs c.path dir then ok (c.name, c.tablename) else rest

-- The schemes of the `switch` in `createExtractPod`.
abbrev pub recognized : String → Bool
recognized scheme =
    scheme == api
    || (scheme == xml
        || (scheme == csv
            || (scheme == json || (scheme == jsonpath || (scheme == xlsx || scheme == httppost)))))

-- The sources that no file comes from.
abbrev pub is_fed : String → Bool
is_fed scheme = scheme == api || scheme == httppost

-- `getPodDefinition`, with the parts that depend on its arguments.
abbrev pub pod_definition : Settings → String → String → String → (String × String) → String → Pod
pod_definition settings suffix log scheme (source, table) file = record {
  name = "churro-extract-" <> suffix;
  namespace = settings.namespace;
  service = "churro-extract";
  extractsourcename = source;
  extractlogid = log;
  image = settings.extract_image;
  pipeline_name = settings.pipeline_name;
  file_name = file;
  scheme = scheme;
  table_name = table;
  pull_secret = if settings.pull_secret_name == "" then none else some settings.pull_secret_name;
  phase = pending;
  start_time = 0;
}

module _ (outside : Api) (settings : Settings) (file : String) where
  -- `createExtractPod`: the suffix of the name and the ID of the log are drawn.
  unfoldable pub create_extract_pod : String → String × String → Action Cluster (Unit {0})
  unfolding attempt fresh
  create_extract_pod scheme target = do
    refuse (not (recognized scheme)) "scheme is not recognized"
    suffix ← fresh outside
    log ← fresh outside
    attempt outside create_pod
    write (λ s. record s {
      pods = s.pods ++ (pod_definition settings suffix log scheme target file ∷ []);
    })

  -- What is done for the source whose path is the directory.
  unfoldable pub extract_for :
      List ExtractSourceDefinition → ExtractSourceDefinition → Action Cluster (Unit {0})
  unfolding create_extract_pod
  extract_for sources c = do
    target ← of_result (get_table (base_dir file) c.scheme sources)
    attempt outside kube_client
    create_extract_pod c.scheme target

  abbrev pub new_file_loop :
      String
      → List ExtractSourceDefinition
      → List ExtractSourceDefinition
      → Action Cluster (Unit {0})
  new_file_loop dir sources [] = give tt
  new_file_loop dir sources (c ∷ l) =
      let rest = new_file_loop dir sources l in
      if is_fed c.scheme then rest else if dir == c.path then extract_for sources c else rest

  -- `createExtractPodForNewFile`
  unfoldable pub create_extract_pod_for_new_file : String → Action Cluster (Unit {0})
  unfolding fetch extract_for
  create_extract_pod_for_new_file dir = do
    p ← fetch outside
    new_file_loop dir p.extractsources p.extractsources
