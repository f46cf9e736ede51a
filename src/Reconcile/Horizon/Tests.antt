-- ===== src/Reconcile/Horizon/Tests.antt =====
-- Examples for the HorizonSource controller, with a cluster that holds at most one service account
-- and one deployment.
use sources_for_knative.Base.{
  String, Option, none, some, List, [], ◌∷◌, Bool, true, false, ◌≡◌, inl, inr, refl, string_eq,
  ◌==◌, if◌then◌else◌, Bool-cases, test_eq, test_refl, subst,
}
use sources_for_knative.Kube.{
  Container, ObjectMeta, Deployment, ServiceAccount, Lookup, found, not_found,
}
use sources_for_knative.Kube.Equality.{eq_env, eq_pod_spec}
use sources_for_knative.Sources.HorizonSource.{HorizonSource}
use sources_for_knative.Reconcile.Resources.{new_receive_adapter}
use sources_for_knative.Reconcile.Conditions.{Manager, Status}
use sources_for_knative.Reconcile.Horizon.{
  Services, deployment_created, deployment_found, reconcile_deployment, reconcile_kind,
  account_found, reconcile_service_account, finish, ignore_normal, with_adapter, with_configs,
  with_account, with_sink,
}
use sources_for_knative.Reconcile.Horizon.Deployments.{
  Keeps, IsStoring, reconcile_deployment_settles,
}
use sources_for_knative.Reconcile.Horizon.Kind.{Succeeds, reconcile_kind-Succeeds}

abbrev Lab : Type 0
Lab = Option ServiceAccount × Option Deployment

abbrev account_of : Option ServiceAccount → Lookup ServiceAccount
account_of none = not_found
account_of (some a) = found a

deployment_named : String → Option Deployment → Lookup Deployment
deployment_named name none = not_found
deployment_named name (some d) = if d.metadata.name == name then found d else not_found

abbrev lab_meta : ObjectMeta
lab_meta = record {
  namespace_name = "lab";
  name = "src-adapter";
  labels = [];
  controller = some "uid-1";
}

abbrev lab_container : Container
lab_container = record {
  name = "adapter";
  image = "adapter:1";
  env = [];
  volume_mounts = [];
  rest = "";
}

abbrev lab_deployment : Deployment
lab_deployment = record {
  metadata = lab_meta;
  replicas = 1;
  selector = [];
  template_labels = [];
  pod = record {
    service_account_name = "horizon";
    volumes = [];
    init_containers = [];
    containers = lab_container ∷ [];
    rest = "";
  };
  strategy = "Recreate";
  conditions = [];
}

abbrev lab_services : Services Lab
lab_services = record {
  sink_ok = λ d. true;
  resolve = λ d. some (record { host = "sink"; text = "http://sink" });
  has_secret = λ ns name c. true;
  accounts = record {
    get = λ ns name c. account_of c.0;
    create = λ ns sa c. some (sa, (some sa, c.1));
    update = λ ns sa c. some (sa, (some sa, c.1));
  };
  deployments = record {
    get = λ ns name c. deployment_named name c.1;
    create = λ ns d c. some (d, (c.0, some d));
    update = λ ns d c. some (d, (c.0, some d));
  };
  failed_update = lab_deployment;
  spare = λ d. 0;
  is_available = λ d. false;
  unavailable = λ name. "unavailable";
  adapter_image = "adapter:1";
  logging_config = some "{}";
  metrics_config = some "{}";
  marshal = λ t. some t;
  child_name = λ parent suffix. parent;
}

deployment_named_name :
    (name : String) (o : Option Deployment) (d : Deployment)
    → deployment_named name o ≡ found d
    → d.metadata.name ≡ name
unfolding deployment_named
deployment_named_name name none d h = absurd cc
deployment_named_name name (some e) d h = elim (Bool-cases (e.metadata.name == name)) [
  | inl p ↦
      let q : ◌≡◌ {A = Lookup Deployment} (found e) (found d) = (rw p at h) in
      let r : e ≡ d = cc in subst (λ x. x.metadata.name ≡ name) r (test_eq e.metadata.name name p)
  | inr p ↦ let q : ◌≡◌ {A = Lookup Deployment} not_found (found d) = (rw p at h) in absurd cc
]

deployment_named_self : (d : Deployment) → deployment_named d.metadata.name (some d) ≡ found d
unfolding deployment_named
deployment_named_self d = rw (test_refl d.metadata.name)

Keeps-refl : (d : Deployment) → Keeps d d
Keeps-refl d = record { same_metadata = refl; same_container = λ name n ec h. (ec, h, refl, refl) }

lab_stored :
    (d stored : Deployment) (c after : Lab)
    → ◌≡◌ {A = Option (Deployment × Lab)} (some (d, (c.0, some d))) (some (stored, after))
    → Keeps d stored × (deployment_named d.metadata.name after.1 ≡ found stored)
lab_stored d stored c after h =
    let p : d ≡ stored = cc in
    let q : some d ≡ after.1 = cc in
    (
      subst (Keeps d) p (Keeps-refl d),
      subst (λ o. deployment_named d.metadata.name o ≡ found stored) q
          (subst (λ x. deployment_named d.metadata.name (some d) ≡ found x) p
            (deployment_named_self d)),
    )

lab-IsStoring : IsStoring lab_services
lab-IsStoring = record {
  named = λ ns name c d h. deployment_named_name name c.1 d h;
  created = λ ns d stored c after h. lab_stored d stored c after h;
  updated = λ ns d stored c after h. lab_stored d stored c after h;
}

abbrev lab_account : ServiceAccount
lab_account = record { metadata = record lab_meta { name = "horizon" } }

abbrev lab_source : HorizonSource
lab_source = record {
  namespace_name = "lab";
  name = "src";
  uid = "uid-1";
  spec = record {
    sink = record { ref = none; uri = some "http://sink" };
    ce_overrides = none;
    service_account_name = "horizon";
    auth = record {
      address = record { host = "horizon.lab"; text = "https://horizon.lab" };
      skip_tls_verify = false;
      secret_name = "credentials";
    };
  };
}

-- The conditions that were marked, the last one first.
abbrev log_manager : Manager
log_manager = record {
  Conditions = List (String × Bool);
  initialize = λ cs. cs;
  mark_true = λ kind cs. (kind, true) ∷ cs;
  mark_false = λ kind reason message cs. (kind, false) ∷ cs;
  mark_unknown = λ kind reason message cs. (kind, false) ∷ cs;
}

abbrev new_status : Status log_manager
new_status = record { sink_uri = none; conditions = [] }

reconcile_deployment_settles_example :
    reconcile_deployment lab_services eq_env eq_pod_spec lab_source lab_deployment
      (reconcile_deployment lab_services eq_env eq_pod_spec lab_source lab_deployment
        (some lab_account, none)).cluster
    ≡ record (reconcile_deployment lab_services eq_env eq_pod_spec lab_source lab_deployment
        (some lab_account, none)) { event = none }
unfolding reconcile_deployment deployment_found deployment_created deployment_named
reconcile_deployment_settles_example =
    reconcile_deployment_settles lab_services eq_env eq_pod_spec lab-IsStoring lab_source
      lab_deployment lab_container (some lab_account, none) refl refl
      (inr ("DeploymentCreated", "lab", "src-adapter", refl))

reconcile_kind-Succeeds_example :
    Succeeds lab_services eq_env eq_pod_spec log_manager lab_source
      (some lab_account, none)
      (reconcile_kind lab_services eq_env eq_pod_spec log_manager lab_source new_status
        (some lab_account, none))
unfolding reconcile_kind with_sink with_account with_configs with_adapter finish ignore_normal
    reconcile_service_account account_found reconcile_deployment deployment_found deployment_created
    deployment_named new_receive_adapter
reconcile_kind-Succeeds_example =
    reconcile_kind-Succeeds lab_services eq_env eq_pod_spec log_manager lab_source new_status
      (some lab_account, none) refl
