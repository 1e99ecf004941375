-- ===== src/Handlers/Pipelines.antt =====
-- internal/handlers/pipelinedetail.go: the pages that show, create, update and delete pipelines. The
-- custom resources are reached through Pipelines.antt. The admin database, the clients of the control
-- services, the templates, the archive and the encoding of the credentials are parameters.
pub mod Routes
use Prim.Native.Char.{code}
use churro.Common.{
  ℕ, Bool, true, ◌&&◌, ◌||◌, not, String, List, [], ◌∷◌, ◌++◌, map, Option, none, some, ◌==◌, leb,
  if◌then◌else◌, ◌<>◌,
}
use churro.Common.Int.{ℤ, nat_le}
use churro.Common.Text.{atoi}
use churro.Common.Action.{Result, ok, err, Action, give, panic, of_result, rescue, ◌>>=◌, ◌>>◌}
use churro.Domain.{UserProfile, TransformFunction, ExtractSource, Metric, JobProfile}
use churro.Cluster.{Codec}
use churro.Authorization.{Database, authorized, action_read, action_write, action_admin}
use churro.Jobs.Paths.{same_code}
use churro.Pipelines.{
  PipelineCr, Keys, Kube, create_pipeline, delete_pipeline, list_pipelines, get_pipeline_cr,
}
use churro.Handlers.{Request, var}
use churro.Handlers.Pages.{Reply, page, body, redirect, Wrapper, copy, or_else, say, field}

-- `XPipelineDetail`
pub record Detail : Type 0 where
  pub user_email : String
  pub error_text : String
  pub id : String
  pub name : String
  pub db_console_url : String
  pub pipeline : PipelineCr
  pub metrics : List Metric
  pub transform_functions : List TransformFunction
  pub users : List UserProfile
  pub jobs : List JobProfile
  pub extract_sources : List ExtractSource

-- What a template gets: `XPipelineDetail` or `ShowCreatePipelineForm`
pub data View : Type 0 where
  detail : Detail → View
  create_form : String → String → List String → List String → View

-- The calls of the control service; the status is its metrics and its jobs.
pub record DetailClient (K : Type 0) : Type 0 where
  pub get_transform_functions : Action K String
  pub get_database_console_url : Action K String
  pub get_extract_sources : Action K String
  pub get_pipeline_status : Action K (List Metric × List JobProfile)

pub record PipelineWeb (K : Type 0) : Type 0 where
  pub kube : Kube K
  pub database : Database
  pub pipeline_users : String → Result (List UserProfile)
  pub connect : String → Result (DetailClient K)
  pub template : String → Result (Unit {0})
  pub functions_codec : Codec (List TransformFunction)
  pub sources_codec : Codec (List ExtractSource)
  pub storage_classes : Action K (List String)
  pub supported_databases : Action K (List String)
  pub zip : List (String × String) → Result String
  pub base64 : String → String
  pub atoi_refusal : String → String
  pub blank : PipelineCr

-- The match of `^[a-z0-9]*$`
abbrev pub is_lower_or_digit : String → Bool
is_lower_or_digit String.[] = true
is_lower_or_digit (String.◌∷◌ c s) =
    let k = code c in
    let rest = is_lower_or_digit s in ((leb 97 k && leb k 122) || (leb 48 k && leb k 57)) && rest

-- What is behind the prefix, if the text has it
abbrev pub behind : String → String → Option String
behind String.[] s = some s
behind (String.◌∷◌ c p) String.[] = none
behind (String.◌∷◌ c p) (String.◌∷◌ d s) =
    let rest = behind p s in if same_code (code c) (code d) then rest else none

abbrev pub selected_or : Option String → List String → List String
selected_or none l = l
selected_or (some id) l = id ∷ l

-- `getSelectedPipelines`, over the form in the order in which the loop takes its keys
abbrev pub get_selected_pipelines : List (String × String) → List String
get_selected_pipelines [] = []
get_selected_pipelines ((k, _) ∷ l) = selected_or (behind "pipeline-" k) (get_selected_pipelines l)

-- The name of the last resource of the ID, the empty text if there is none
abbrev pub last_name : String → String → List PipelineCr → String
last_name id name [] = name
last_name id name (x ∷ xs) = last_name id (if id == x.id then x.name else name) xs

module _ {K : Type 0} (web : PipelineWeb K) where
  abbrev pub PipelinePage : Type 0
  PipelinePage = Action K (Reply View)

  -- `Authorized` for an action on a pipeline
  abbrev pub may : Wrapper → String → ℕ → Bool
  may u id action =
      authorized web.database
        (record { subject = u.user_email; pipeline_id = id; object = "pipeline"; action = action })
        u.database_type

  unfoldable pub show_create_pipeline : Wrapper → PipelinePage
  show_create_pipeline u = or_else (of_result (web.template "pages/pipeline-create.html")) say (λ _.
      or_else web.storage_classes say (λ names. or_else web.supported_databases say (λ databases.
        give (
          page "pages/pipeline-create.html"
            (create_form u.error_text u.user_email names databases)))))

  abbrev pub create_error : Wrapper → String → PipelinePage
  create_error u e = show_create_pipeline (copy u e)

  -- What the control service is asked first; a source list that cannot be read leaves a nil answer,
  -- which is then used.
  unfoldable pub ask : DetailClient K → Detail → (Detail → PipelinePage) → PipelinePage
  ask client d next = or_else client.get_transform_functions say (λ text.
      or_else (of_result (web.functions_codec.decode text)) say (λ functions.
        or_else client.get_database_console_url say (λ url.
          or_else client.get_extract_sources (λ _. panic)
            (λ answer. or_else (of_result (web.sources_codec.decode answer)) say (λ sources.
              next (record d {
                transform_functions = functions;
                db_console_url = url;
                extract_sources = sources;
              }))))))

  unfoldable pub show_status : DetailClient K → Detail → PipelinePage
  show_status client d = or_else client.get_pipeline_status say (λ status.
      or_else (of_result (web.template "pages/pipeline-detail.html")) say (λ _. give (
        page "pages/pipeline-detail.html"
          (detail (record d { metrics = status.0; jobs = status.1 })))))

  -- Without a connection the client is nil, and asking it for the status panics.
  unfoldable pub show_connected : Result (DetailClient K) → Detail → PipelinePage
  show_connected (err e) d = panic
  show_connected (ok client) d = ask client d (show_status client)

  -- The text of an error in the wrapper is not shown.
  unfoldable pub pipeline_detail_handler : Wrapper → Request → PipelinePage
  pipeline_detail_handler u r =
      if not (may u (var "id" r) action_read)
      then say "user not authorized to view this pipeline"
      else or_else (of_result (web.database.new_database u.database_type)) say (λ _.
        or_else (of_result web.database.connection) say (λ _.
          or_else (of_result (web.pipeline_users (var "id" r))) say (λ users.
            or_else (get_pipeline_cr web.kube (var "id" r)) say (λ x.
              show_connected (web.connect x.name) (record {
                user_email = u.user_email;
                error_text = "";
                id = var "id" r;
                name = x.name;
                db_console_url = "";
                pipeline = x;
                metrics = [];
                transform_functions = [];
                users = users;
                jobs = [];
                extract_sources = [];
              })))))

  abbrev pub detail_error : Wrapper → Request → String → PipelinePage
  detail_error u r e = pipeline_detail_handler (copy u e) r

  abbrev home : PipelinePage
  home = give (redirect "/")

  -- `UpdatePipelineDetail` behind the checks of the form: the resource is written back as it was read.
  unfoldable pub rewrite_pipeline : Wrapper → Request → String → PipelinePage
  rewrite_pipeline u r id =
      if not (may u id action_write)
      then detail_error u r "user not authorized to update this pipeline"
      else or_else (get_pipeline_cr web.kube id) say (λ x.
        or_else (do web.kube.kube_client; web.kube.new_client x.name) say
          (λ _. or_else (web.kube.update x) (detail_error u r) (λ _. home)))

  unfoldable pub update_pipeline_detail : Wrapper → Request → PipelinePage
  update_pipeline_detail u r = do
    id ← field "pipelineid" r
    if id == "" then detail_error u r "invalid pipeline" else (do
      headroom ← field "loaderpctheadroom" r
      if headroom == "" then detail_error u r "invalid loader pct head room" else (do
        size ← field "loaderqueuesize" r
        if size == "" then detail_error u r "invalid loader queue size" else elim (atoi size) [
          | none ↦ detail_error u r "invalid loader queue size"
          | some _ ↦ elim (atoi headroom) [
            | none ↦ detail_error u r "invalid loader pct head room"
            | some _ ↦ rewrite_pipeline u r id
          ]
        ]))

  -- The number of jobs, or the text of the error's page
  abbrev pub max_jobs_of : String → Result ℤ
  max_jobs_of text = elim (atoi text) [
    | none ↦ err (web.atoi_refusal text)
    | some n ↦ if nat_le 1 n then ok n else err "max jobs needs to be greater than 0"
  ]

  -- `CreatePipelineDetail` behind the checks of the form
  unfoldable pub launch : Wrapper → PipelineCr → PipelinePage
  launch u cr = or_else (create_pipeline web.kube cr) (create_error u) (λ _. home)

  unfoldable pub create_pipeline_detail : Wrapper → Request → PipelinePage
  create_pipeline_detail u r = do
    name ← field "pipelinename" r
    max_jobs ← field "maxjobs" r
    storage_size ← field "storagesize" r
    storage_class_name ← field "storageclassname" r
    access_mode ← field "accessmode" r
    password ← field "dbpassword" r
    password2 ← field "dbpassword2" r
    db_type ← field "dbtype" r
    if not (is_lower_or_digit name)
        then create_error u "pipeline name not valid, needs to be only lowercase chars and numbers"
        else if not (may u "" action_admin)
        then create_error u "user not authorized to create pipelines"
        else if not (password == password2)
        then create_error u "database passwords do not match"
        else if name == ""
        then create_error u "pipeline name is blank"
        else or_else (of_result (max_jobs_of max_jobs)) (create_error u) (λ n.
          launch u (record web.blank {
            name = name;
            labels = ("name", name) ∷ [];
            max_jobs = n;
            database_type = db_type;
            storage_class_name = storage_class_name;
            storage_size = storage_size;
            access_mode = access_mode;
            admin_data_source = record web.blank.admin_data_source {
              password = web.base64 password;
            };
            data_source = record web.blank.data_source { password = web.base64 password };
          }))

  unfoldable pub delete_pipeline_detail : Wrapper → Request → PipelinePage
  delete_pipeline_detail u r =
      if not (may u (var "id" r) action_admin)
      then say "user not authorized to delete this pipeline"
      else or_else (get_pipeline_cr web.kube (var "id" r)) say
          (λ x. or_else (delete_pipeline web.kube x.name) say (λ _. home))

  -- The loop over the selected pipelines: those before one that is refused are deleted.
  unfoldable pub delete_each : Wrapper → List PipelineCr → List String → PipelinePage
  delete_each u items [] = home
  delete_each u items (id ∷ ids) =
      let rest = delete_each u items ids in
      if not (may u id action_admin)
      then say "user not authorized to delete this pipeline"
      else or_else (delete_pipeline web.kube (last_name id "" items)) say (λ _. rest)

  unfoldable pub delete_pipelines : Wrapper → Request → PipelinePage
  delete_pipelines u r =
      or_else (list_pipelines web.kube) say
        (λ items. delete_each u items (get_selected_pipelines r.form))

  abbrev pub files_of : Keys → List (String × String)
  files_of k =
      ("client.pipeline.key", k.pipeline_key)
      ∷ ("client.pipeline.crt", k.pipeline_crt)
      ∷ ("service.key", k.service_key)
      ∷ ("service.crt", k.service_crt)
      ∷ ("node.key", k.node_key)
      ∷ ("node.crt", k.node_crt)
      ∷ ("client.root.key", k.client_root_key)
      ∷ ("client.root.crt", k.client_root_crt)
      ∷ ("ca.key", k.ca_key)
      ∷ ("ca.crt", k.ca_crt)
      ∷ []

  unfoldable pub pipeline_download_file : Wrapper → Request → PipelinePage
  pipeline_download_file u r =
      or_else (get_pipeline_cr web.kube (var "id" r)) say
        (λ x. or_else (of_result (web.zip (files_of x.keys))) (create_error u) say)
