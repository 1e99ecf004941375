-- ===== src/Tests/Pipelines.antt =====
-- A cluster with one pipeline, and requests of a user who may only read it.
use churro.Common.{Bool, true, false, List, [], ◌∷◌, ◌++◌, ◌≡◌, refl, arith}
use churro.Common.Int.{pos}
use churro.Common.Action.{ok, err, returned, failed, Outcome, give}
use churro.Common.Ensures.{Ends}
use churro.Authorization.{authorized, get_auth_map, has_flag, action_admin}
use churro.Cluster.{Codec}
use churro.Ctl.Removal.{has, without}
use churro.Ctl.Rewriting.{edited}
use churro.Pipelines.{PipelineCr, Kube, Source, fill_cr_defaults}
use churro.Handlers.{Request}
use churro.Handlers.Pages.{Wrapper}
use churro.Handlers.Pipelines.{PipelineWeb, may}
use churro.Handlers.Pipelines.Routes.{
  PipelineRoute, to_delete, to_delete_selected, to_update, visit_all,
}
use churro.Handlers.Pipelines.Routes.Present.{Present}
use churro.Handlers.Pipelines.Routes.Stored.{Stored}
use churro.Handlers.Pipelines.Routes.Safe.{visit_all-Present}
use churro.Tests.Pages.{reader_db, mary_wrapper}

abbrev nowhere : Source
nowhere = record {
  name = "";
  host = "";
  path = "";
  port = pos 0;
  scheme = "";
  username = "";
  password = "";
  database = "";
}

abbrev blank : PipelineCr
blank = record {
  name = "";
  labels = [];
  api_version = "";
  kind = "";
  active = "";
  standby = [];
  id = "";
  max_jobs = pos 0;
  database_type = "mysql";
  storage_class_name = "";
  storage_size = "";
  access_mode = "";
  admin_data_source = nowhere;
  data_source = nowhere;
  watch = record { host = ""; port = pos 0; scheme = "" };
  keys = record {
    ca_key = "";
    ca_crt = "";
    node_key = "";
    node_crt = "";
    client_root_key = "";
    client_root_crt = "";
    pipeline_key = "";
    pipeline_crt = "";
    service_key = "";
    service_crt = "";
  };
}

abbrev sales_cr : PipelineCr
sales_cr = record (fill_cr_defaults "sales" blank) { id = "p1" }

-- A name that is taken is refused.
abbrev added : Bool → PipelineCr → List PipelineCr → Outcome (Unit {0}) × List PipelineCr
added true x l = (failed "already exists", l)
added false x l = (returned tt, l ++ (x ∷ []))

abbrev kube : Kube (List PipelineCr)
kube = record {
  kube_client = give tt;
  new_client = λ n. give tt;
  list = λ l. (returned l, l);
  create = λ x l. added (has (λ y. y.name) x.name l) x l;
  update = λ x l. (returned tt, edited (λ y. y.name) x.name (λ _. x) l);
  delete = λ n l. (returned tt, without (λ y. y.name) n l);
  has_namespace = λ n. give true;
  create_namespace = λ n. give tt;
}

abbrev no_codec : {A : Type 0} → Codec (List A)
no_codec = record { decode = λ _. ok []; encode = λ _. ok "[]" }

abbrev pipelines_web : PipelineWeb (List PipelineCr)
pipelines_web = record {
  kube = kube;
  database = reader_db;
  pipeline_users = λ id. ok [];
  connect = λ name. err "no service";
  template = λ file. ok tt;
  functions_codec = no_codec;
  sources_codec = no_codec;
  storage_classes = give ("standard" ∷ []);
  supported_databases = give ("mysql" ∷ []);
  zip = λ files. ok "archive";
  base64 = λ text. text;
  atoi_refusal = λ text. "not a number";
  blank = blank;
}

stored : Stored pipelines_web (λ l. l)
unfolding give
stored = record {
  kube_client = λ s. refl;
  new_client = λ n s. refl;
  has_namespace = λ n s. refl;
  create_namespace = λ n s. refl;
  list = λ s. (refl, refl);
  create = λ x s. adds x s (has (λ y. y.name) x.name s) refl;
  update = λ x s. refl;
  delete = λ n s. refl;
  storage_classes = λ s. refl;
  supported_databases = λ s. refl;
  client = λ n c h. absurd (ground (arith, h));
}
  where
    adds :
        (x : PipelineCr) (s : List PipelineCr) (b : Bool)
        → has (λ y. y.name) x.name s ≡ b
        → Ends
            (λ _ t. (has (λ y. y.name) x.name s ≡ false) × (t ≡ s ++ (x ∷ [])))
            (λ t. t ≡ s)
            (added b x s)
    adds x s true h = refl
    adds x s false h = (h, refl)

abbrev selecting : Request
selecting = record {
  uri = "/deletepipelines";
  form = ("pipeline-p1", "on") ∷ ("pipelineid", "p1") ∷ [];
  vars = ("id", "p1") ∷ [];
  cookie = err "http: named cookie not present";
}

abbrev requests : List (PipelineRoute × Wrapper × Request)
requests =
    (to_delete, mary_wrapper, selecting)
    ∷ (to_delete_selected, mary_wrapper, selecting)
    ∷ (to_update, mary_wrapper, selecting)
    ∷ []

powerless : may pipelines_web mary_wrapper "p1" action_admin ≡ false
unfolding authorized get_auth_map has_flag
powerless = refl

visit_all-Present_example : Present "sales" "p1" (visit_all pipelines_web requests (sales_cr ∷ []))
unfolding fill_cr_defaults
visit_all-Present_example =
    visit_all-Present pipelines_web (λ l. l) stored "sales" "p1" refl requests
      (powerless, (powerless, (powerless, tt))) (sales_cr ∷ []) (refl, ((λ _. refl), tt))
