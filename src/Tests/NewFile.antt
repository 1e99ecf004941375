-- ===== src/Tests/NewFile.antt =====
-- A new file of the sample's extract source.
use churro.Common.{[], ◌∷◌, ◌≡◌, refl}
use churro.Common.Action.{ok}
use churro.Common.Ensures.{Ends}
use churro.Cluster.{Cluster, ExtractSourceDefinition}
use churro.Jobs.Paths.{base_dir}
use churro.Jobs.Pods.{Settings, get_table, create_extract_pod_for_new_file}
use churro.Jobs.Pods.NewFile.{Same, Gained, create_extract_pod_for_new_file_lem}
use churro.Tests.Sample.{quiet, orders, sales, before}

abbrev settings : Settings
settings = record {
  extract_image = "churro-extract";
  namespace = "sales";
  pipeline_name = "sales";
  pull_secret_name = "";
}

-- A source beside the sample's, and one whose path begins that of the sample's.
abbrev refunds : ExtractSourceDefinition
refunds = record orders {
  id = "s2";
  name = "refunds";
  path = "/churro/refunds";
  tablename = "refunds";
}

abbrev ord : ExtractSourceDefinition
ord = record orders { id = "s3"; name = "ord"; path = "/churro/ord"; tablename = "ord" }

abbrev two_sources : Cluster
two_sources = record before { pipeline = record sales { extractsources = refunds ∷ orders ∷ [] } }

base_dir_file : base_dir "/churro/orders/a.csv" ≡ "/churro/orders"
base_dir_file = refl

base_dir_dots : base_dir "/churro/./x/../orders//a.csv" ≡ "/churro/orders"
base_dir_dots = refl

base_dir_bare : base_dir "a.csv" ≡ "."
base_dir_bare = refl

create_extract_pod_for_new_file_lem_example :
    Ends
      (λ _. Gained settings "/churro/orders/a.csv" [] "csv" ("orders", "orders"))
      (Same [])
      (create_extract_pod_for_new_file quiet settings "/churro/orders/a.csv" "/churro/orders"
        two_sources)
create_extract_pod_for_new_file_lem_example =
    create_extract_pod_for_new_file_lem quiet settings "/churro/orders/a.csv" "/churro/orders"
      (refunds ∷ []) [] orders two_sources refl ((refl, refl), tt) refl refl refl

-- The table of the other source is taken, since its path is a part of the directory's text.
wrong_table : get_table "/churro/orders" "csv" (ord ∷ orders ∷ []) ≡ ok ("ord", "ord")
wrong_table = refl
