-- ===== src/Pipelines.antt =====
-- internal/pipeline/pipeline.go, with getPipelineCR of internal/handlers/kubeapi.go: creating, deleting
-- and finding the custom resource of a pipeline. The calls of Kubernetes are an interface over its
-- states. The parts of the resource that stay empty are left out.
use churro.Common.{Bool, String, List, [], ◌∷◌, Option, none, some, ◌==◌, if◌then◌else◌, ◌<>◌}
use churro.Common.Int.{ℤ, pos}
use churro.Common.Action.{Action, give, fail, rescue, ◌>>=◌, ◌>>◌}

pub record Source : Type 0 where
  pub name : String
  pub host : String
  pub path : String
  pub port : ℤ
  pub scheme : String
  pub username : String
  pub password : String
  pub database : String

pub record Endpoint : Type 0 where
  pub host : String
  pub port : ℤ
  pub scheme : String

-- `DBCreds` and `ServiceCreds`
pub record Keys : Type 0 where
  pub ca_key : String
  pub ca_crt : String
  pub node_key : String
  pub node_crt : String
  pub client_root_key : String
  pub client_root_crt : String
  pub pipeline_key : String
  pub pipeline_crt : String
  pub service_key : String
  pub service_crt : String

pub record PipelineCr : Type 0 where
  pub name : String
  pub labels : List (String × String)
  pub api_version : String
  pub kind : String
  pub active : String
  pub standby : List String
  pub id : String
  pub max_jobs : ℤ
  pub database_type : String
  pub storage_class_name : String
  pub storage_size : String
  pub access_mode : String
  pub admin_data_source : Source
  pub data_source : Source
  pub watch : Endpoint
  pub keys : Keys

-- `GetKubeClient`, `NewClient`, and the calls of the clients; a namespace that is not found is no error.
pub record Kube (K : Type 0) : Type 0 where
  pub kube_client : Action K (Unit {0})
  pub new_client : String → Action K (Unit {0})
  pub list : Action K (List PipelineCr)
  pub create : PipelineCr → Action K (Unit {0})
  pub update : PipelineCr → Action K (Unit {0})
  pub delete : String → Action K (Unit {0})
  pub has_namespace : String → Action K Bool
  pub create_namespace : String → Action K (Unit {0})

-- The `switch` on the type of the database
abbrev pub fill_database : String → PipelineCr → PipelineCr
fill_database db_type cr =
    if db_type == "cockroachdb"
    then record cr {
      admin_data_source = record cr.admin_data_source {
        host = "cockroachdb-public";
        path = "";
        port = pos 26257;
      };
      data_source = record cr.data_source {
        host = "cockroachdb-public";
        path = "";
        port = pos 26257;
      };
    }
    else if db_type == "mysql"
    then record cr {
      admin_data_source = record cr.admin_data_source {
        host = "churro-pipeline-mysql-mysql";
        path = "";
        port = pos 3306;
      };
      data_source = record cr.data_source {
        host = "churro-pipeline-mysql-mysql";
        path = "";
        port = pos 3306;
      };
    }
    else if db_type == "singlestore"
    then record cr {
      admin_data_source = record cr.admin_data_source {
        host = "svc-memsql-cluster-ddl";
        path = "";
        password = "secretpass";
        port = pos 3306;
        username = "admin";
        database = "churro";
      };
      data_source = record cr.data_source {
        host = "svc-memsql-cluster-ddl";
        path = "";
        password = "secretpass";
        port = pos 3306;
      };
    }
    else cr

unfoldable pub fill_cr_defaults : String → PipelineCr → PipelineCr
fill_cr_defaults name cr = fill_database cr.database_type (record cr {
  api_version = "churro.project.io/v1alpha1";
  kind = "Pipeline";
  name = name;
  labels = ("name", name) ∷ [];
  active = "true";
  standby = "one" ∷ "two" ∷ [];
  admin_data_source = record cr.admin_data_source {
    name = "churrodatastore";
    scheme = "";
    username = "root";
    database = "churro";
  };
  data_source = record cr.data_source {
    name = "pipelinedatastore";
    scheme = "";
    username = name;
    database = name;
  };
  watch = record { scheme = "http"; host = "churro-watch"; port = pos 8087 };
})

-- The first resource of the ID
abbrev pub with_id : String → List PipelineCr → Option PipelineCr
with_id id [] = none
with_id id (x ∷ xs) = if id == x.id then some x else with_id id xs

module _ {K : Type 0} (kube : Kube K) where
  -- The namespace is made if it is not found; an error of making it is only logged.
  unfoldable pub ensure_namespace : String → Action K (Unit {0})
  ensure_namespace name = do
    found ← kube.has_namespace name
    if found then give tt else rescue (kube.create_namespace name) (λ _. give tt) (λ _. give tt)

  unfoldable pub create_pipeline : PipelineCr → Action K (Unit {0})
  create_pipeline cr = do
    kube.kube_client
    ensure_namespace cr.name
    kube.new_client cr.name
    kube.create (fill_cr_defaults cr.name cr)

  unfoldable pub delete_pipeline : String → Action K (Unit {0})
  delete_pipeline name = do kube.kube_client; kube.new_client name; kube.delete name

  -- All resources, as `getPipelineCR` and `DeletePipelines` read them
  unfoldable pub list_pipelines : Action K (List PipelineCr)
  list_pipelines = do kube.kube_client; kube.new_client ""; kube.list

  abbrev pub found_cr : String → Option PipelineCr → Action K PipelineCr
  found_cr id none = fail (("pipeline CR " <> id) <> " not found")
  found_cr id (some x) = give x

  unfoldable pub get_pipeline_cr : String → Action K PipelineCr
  get_pipeline_cr id = do items ← list_pipelines; found_cr id (with_id id items)
