-- ===== src/Operator/Services.antt =====
-- internal/operator/service.go: the services of a pipeline.
use churro.Common.{String, [], ◌∷◌, none, true, false}
use churro.Common.Action.{Action}
use churro.Operator.{Api, World, Resource, Object, Pairs, service}
use churro.Operator.Ensure.{ensure}

abbrev pub service_labels : Resource → String → Pairs
service_labels p name = ("app", "churro") ∷ ("pipeline", p.name) ∷ ("service", name) ∷ []

abbrev pub ctl_service : Resource → Object
ctl_service p = record {
  kind = "Service";
  namespace = p.namespace;
  name = "churro-ctl";
  owner = none;
  labels = service_labels p "churro-ctl";
  spec = service (record {
    annotations = [];
    ports = ("grpc", 8088) ∷ [];
    selector = service_labels p "churro-ctl";
    publish_not_ready_addresses = false;
    cluster_ip = "";
    service_type = "";
  });
}

abbrev pub extractsource_service : Resource → Object
extractsource_service p = record {
  kind = "Service";
  namespace = p.namespace;
  name = "churro-extractsource";
  owner = none;
  labels = service_labels p "churro-extractsource";
  spec = service (record {
    annotations = [];
    ports = ("grpc", 8087) ∷ [];
    selector = service_labels p "churro-extractsource";
    publish_not_ready_addresses = false;
    cluster_ip = "";
    service_type = "";
  });
}

abbrev pub cockroach_service : Resource → Object
cockroach_service p = record {
  kind = "Service";
  namespace = p.namespace;
  name = "cockroachdb";
  owner = none;
  labels = ("app", "cockroachdb") ∷ [];
  spec = service (record {
    annotations =
        ("service.alpha.kubernetes.io/tolerate-unready-endpoints", "true")
        ∷ ("prometheus.io/scrape", "true")
        ∷ ("prometheus.io/path", "_status/vars")
        ∷ ("prometheus.io/port", "8080")
        ∷ [];
    ports = ("grpc", 26257) ∷ ("http", 8080) ∷ [];
    selector = ("app", "cockroachdb") ∷ [];
    publish_not_ready_addresses = true;
    cluster_ip = "None";
    service_type = "";
  });
}

abbrev pub cockroach_public_service : Resource → Object
cockroach_public_service p = record {
  kind = "Service";
  namespace = p.namespace;
  name = "cockroachdb-public";
  owner = none;
  labels = ("app", "cockroachdb") ∷ [];
  spec = service (record {
    annotations = [];
    ports = ("grpc", 26257) ∷ ("http", 8080) ∷ [];
    selector = ("app", "cockroachdb") ∷ [];
    publish_not_ready_addresses = false;
    cluster_ip = "";
    service_type = "";
  });
}

unfoldable pub process_services : Api → Resource → Action World (Unit {0})
unfolding ensure
process_services api p = ensure api "Service" p.namespace p.name (
    ctl_service p ∷ extractsource_service p ∷ cockroach_service p ∷ cockroach_public_service p ∷ [])
