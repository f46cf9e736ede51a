-- ===== src/Reconcile/Vsphere/Controller/Tests.antt =====
-- Examples for the VSphereSource controller, with a cluster that has room for one object of each kind.
use sources_for_knative.Base.{
  String, Option, none, some, List, [], ◌∷◌, ◌≡◌, ◌≢◌, ◌∙◌, inl, inr, refl, ap, sym, subst,
  string_eq, ◌==◌, if◌then◌else◌, Bool-cases, test_eq, test_refl, pos, codes, false, ◌⊎◌, arith,
}
use sources_for_knative.Kube.{
  Url, Deployment, ConfigMap, RoleBinding, ServiceAccount, Lookup, found, not_found, get_failed,
  Calls, secret_volume,
}
use sources_for_knative.Sources.Bindings.{VsphereBinding}
use sources_for_knative.Sources.VsphereSource.{VsphereSource}
use sources_for_knative.Reconcile.Conditions.{Manager, Status}
use sources_for_knative.Vsphere.Checkpoint.Tests.{unary_formats}
use sources_for_knative.Vsphere.Checkpoint.Tests.{unary_formats-IsFaithful}
use sources_for_knative.Reconcile.Vsphere.Intervals.{make_deployment_intervals}
use sources_for_knative.Reconcile.Vsphere.Controller.{
  Stores, Cluster, Site, Progress, go, stop, Error, binding_error, config_map_error, account_error,
  role_binding_error, sink_error, config_error, deployment_error, with_spec, reconcile_kind,
  desired_deployment,
}
use sources_for_knative.Reconcile.Vsphere.Controller.Steps.{
  IsKeeping, IsFinding, IsStable, IsKept, Admission, with_binding_spec,
}
use sources_for_knative.Reconcile.Vsphere.Controller.Settles.{
  Done, reconcile_kind-Done, reconcile_kind_settles,
}
use sources_for_knative.Reconcile.Vsphere.Controller.Order.{
  cluster_of, IsPrepared, reconcile_kind_order,
}
use sources_for_knative.Reconcile.Vsphere.Controller.Failing.{
  NotMade, NotWritten, Unmade, Cause, StopsFor, reconcile_kind-StopsFor,
}

-- A store for one object, which stores what it admits for an object.
module _ {A : Type 0} (name_of : A → String) (admit : A → A) where
  slot_get : String → Option A → Lookup A
  slot_get name none = not_found
  slot_get name (some a) = if name_of a == name then found a else not_found

  abbrev slot : Calls (Option A) A
  slot = record {
    get = λ ns name o. slot_get name o;
    create = λ ns a o. some (admit a, some (admit a));
    update = λ ns a o. some (admit a, some (admit a));
  }

  slot_get_found :
      (name : String) (o : Option A) (a : A)
      → slot_get name o ≡ found a
      → (name_of a ≡ name) × (o ≡ some a)
  unfolding slot_get
  slot_get_found name none a h = absurd cc
  slot_get_found name (some b) a h = elim (Bool-cases (name_of b == name)) [
    | inl p ↦
        let q : ◌≡◌ {A = Lookup A} (found b) (found a) = (rw p at h) in
        let r : b ≡ a = cc in
        (subst (λ x. name_of x ≡ name) r (test_eq (name_of b) name p), ap some r)
    | inr p ↦ let q : ◌≡◌ {A = Lookup A} not_found (found a) = (rw p at h) in absurd cc
  ]

  slot_get_self : (a : A) → slot_get (name_of a) (some a) ≡ found a
  unfolding slot_get
  slot_get_self a = rw (test_refl (name_of a))

  abbrev Admits : A → A → Type 0
  Admits sent stored = stored ≡ admit sent

  module _ (named : (a : A) → name_of (admit a) ≡ name_of a) where
    slot_stored :
        (a b : A) (after : Option A)
        → ◌≡◌ {A = Option (A × Option A)} (some (admit a, some (admit a))) (some (b, after))
        → Admits a b × (slot_get (name_of a) after ≡ found b)
    slot_stored a b after h =
        let p : some (admit a) ≡ after = cc in
        let q : admit a ≡ b = cc in
        (
          sym q,
          subst (λ o. slot_get (name_of a) o ≡ found b) p
              (subst (λ x. slot_get (name_of a) (some (admit a)) ≡ found x) q
                (subst (λ n. slot_get n (some (admit a)) ≡ found (admit a)) (named a)
                  (slot_get_self (admit a)))),
        )

    slot-IsFinding : IsFinding name_of slot
    slot-IsFinding = record { created = λ ns a b o after h. (slot_stored a b after h).1 }

    slot-IsKeeping : IsKeeping name_of Admits slot
    slot-IsKeeping = record {
      named = λ ns name a o h. (slot_get_found name o a h).0;
      created = λ ns a b o after h. slot_stored a b after h;
      updated = λ ns a b o after h. slot_stored a b after h;
    }

  slot-IsStable :
      (over : A → A → A)
      → ((a : A) → admit (over (admit a) a) ≡ admit a)
      → IsStable Admits over slot
  slot-IsStable over settled = record {
    again = λ ns name sent stored o h admitted.
        let same : admit (over stored sent) ≡ stored =
          ap (λ x. admit (over x sent)) admitted ∙ (settled sent ∙ sym admitted) in
        ap (λ x. some (x, some x)) same
        ∙ ap (λ x. some (stored, x)) (sym (slot_get_found name o stored h).1);
  }

  slot_get_answers : (name : String) (o : Option A) → slot_get name o ≢ get_failed
  unfolding slot_get
  slot_get_answers name none h = absurd cc
  slot_get_answers name (some a) h = elim (Bool-cases (name_of a == name)) [
    | inl p ↦ let q : ◌≡◌ {A = Lookup A} (found a) get_failed = (rw p at h) in absurd cc
    | inr p ↦ let q : ◌≡◌ {A = Lookup A} not_found get_failed = (rw p at h) in absurd cc
  ]

  slot_made : (name ns : String) (made : A) (o : Option A) → NotMade slot ns name made o → ⊥
  slot_made name ns made o (inl h) = slot_get_answers name o h
  slot_made name ns made o (inr (h, e)) = absurd cc

  slot_written :
      (name ns : String) (made : A) (over : A → A → A) (o : Option A)
      → NotWritten slot ns name made over o
      → ⊥
  slot_written name ns made over o (inl h) = slot_made name ns made o h
  slot_written name ns made over o (inr (a, h, e)) = absurd cc

-- The webhook mounts the credentials.
abbrev webhook : Deployment → Deployment
webhook d = record d {
  pod = record d.pod {
    volumes = record { name = "vsphere-binding"; source = secret_volume "credentials" } ∷ [];
  };
}

abbrev lab_stores : Stores
lab_stores = record {
  Bindings = Option VsphereBinding;
  ConfigMaps = Option ConfigMap;
  Accounts = Option ServiceAccount;
  RoleBindings = Option RoleBinding;
  Deployments = Option Deployment;
}

abbrev lab_account : ServiceAccount
lab_account = record {
  metadata = record { namespace_name = "lab"; name = "default"; labels = []; controller = none };
}

abbrev lab_site : Site lab_stores
lab_site = record {
  bindings = slot (λ b. b.metadata.name) (λ b. b);
  config_maps = slot (λ b. b.metadata.name) (λ b. b);
  accounts = record {
    get = λ ns name o. found lab_account;
    create = λ ns a o. none;
    update = λ ns a o. none;
  };
  role_bindings = slot (λ b. b.metadata.name) (λ b. b);
  deployments = slot (λ b. b.metadata.name) webhook;
  resolve = λ d. some (record { host = "sink"; text = "http://sink" });
  adapter_image = "adapter:1";
  logging_config = some "{}";
  metrics_config = some "{}";
  formats = unary_formats;
  text_of = λ i. i.period;
  string_of = λ t. "application/json";
  unicode_lower = λ c. c;
  marshal = λ t. some t;
  child_name = λ parent suffix. suffix;
}

-- The conditions that were marked, the last one first.
abbrev log_manager : Manager
log_manager = record {
  Conditions = List String;
  initialize = λ cs. cs;
  mark_true = λ kind cs. kind ∷ cs;
  mark_false = λ kind reason message cs. kind ∷ cs;
  mark_unknown = λ kind reason message cs. kind ∷ cs;
}

abbrev lab_source : VsphereSource
lab_source = record {
  namespace_name = "lab";
  name = "src";
  uid = "uid-2";
  spec = record {
    sink = record { ref = none; uri = some "http://sink" };
    ce_overrides = none;
    auth = record {
      address = record { host = "vcenter.lab"; text = "https://vcenter.lab" };
      skip_tls_verify = false;
      secret_name = "credentials";
    };
    checkpoint_config = record { max_age_seconds = pos 300; period_seconds = pos 10 };
    payload_encoding = codes "application/json";
    service_account_name = "";
  };
}

abbrev sink_url : Url
sink_url = record { host = "sink"; text = "http://sink" }

abbrev lab_cluster : Cluster lab_stores
lab_cluster = record {
  bindings = none;
  config_maps = none;
  accounts = some lab_account;
  role_bindings = none;
  deployments = none;
}

abbrev new_status : Status log_manager
new_status = record { sink_uri = none; conditions = [] }

abbrev lab_admission : Admission
lab_admission = record {
  binding = Admits (λ b. b.metadata.name) (λ b. b);
  deployment = Admits (λ d. d.metadata.name) webhook;
}

lab-IsKept : IsKept lab_site log_manager lab_admission
lab-IsKept = record {
  bindings = slot-IsKeeping (λ b. b.metadata.name) (λ b. b) (λ b. refl);
  config_maps = slot-IsFinding (λ b. b.metadata.name) (λ b. b) (λ b. refl);
  role_bindings = slot-IsFinding (λ b. b.metadata.name) (λ b. b) (λ b. refl);
  deployments = slot-IsKeeping (λ d. d.metadata.name) webhook (λ d. refl);
}

reconcile_kind_order_example :
    ((cluster_of lab_site log_manager lab_source
        (reconcile_kind lab_site log_manager lab_source new_status lab_cluster)).deployments
      ≡ none)
    ⊎ IsPrepared lab_site log_manager lab_source (
        cluster_of lab_site log_manager lab_source
          (reconcile_kind lab_site log_manager lab_source new_status lab_cluster))
reconcile_kind_order_example =
    reconcile_kind_order lab_site log_manager lab_source lab-IsKept.config_maps
      lab-IsKept.role_bindings new_status lab_cluster

lab_desired :
    (d : Deployment) × (desired_deployment lab_site log_manager lab_source sink_url "{}" "{}"
      ≡ some d)
lab_desired =
    let (d, bytes, made, shown, config) =
      make_deployment_intervals unary_formats (λ i. i.period) (λ t. "application/json") (λ c. c)
        (λ t. some t) (λ parent suffix. suffix) lab_source sink_url
        (record { image = "adapter:1"; logging_config = "{}"; metrics_config = "{}" }) 300 10 refl
        unary_formats-IsFaithful (omega arith) (omega arith) (omega arith) in
    (d, made)

lab_never_stops :
    (e : Error) (d : Cluster lab_stores) → Cause lab_site log_manager lab_source e d → ⊥
lab_never_stops binding_error d h =
    slot_written (λ b. b.metadata.name) (λ b. b) _ "lab" _ with_binding_spec d.bindings h
lab_never_stops config_map_error d h =
    slot_made (λ b. b.metadata.name) (λ b. b) _ "lab" _ d.config_maps h
lab_never_stops account_error d h = h lab_account refl
lab_never_stops role_binding_error d h =
    slot_made (λ b. b.metadata.name) (λ b. b) _ "lab" _ d.role_bindings h
lab_never_stops sink_error d h = absurd cc
lab_never_stops config_error d (inl h) = absurd cc
lab_never_stops config_error d (inr h) = absurd cc
lab_never_stops deployment_error d h =
    let u : sink_url ≡ h.uri = cc in
    let l : "{}" ≡ h.logging = cc in
    let e : "{}" ≡ h.metrics = cc in
    let made : desired_deployment lab_site log_manager lab_source h.uri h.logging h.metrics
        ≡ some lab_desired.0 =
      subst
        (λ uri.
          desired_deployment lab_site log_manager lab_source uri h.logging h.metrics
          ≡ some lab_desired.0)
        u
        (subst
          (λ x.
            desired_deployment lab_site log_manager lab_source sink_url x h.metrics
            ≡ some lab_desired.0)
          l
          (subst
            (λ x.
              desired_deployment lab_site log_manager lab_source sink_url "{}" x
              ≡ some lab_desired.0)
            e lab_desired.1)) in
    slot_written (λ x. x.metadata.name) webhook _ "lab" lab_desired.0
      (with_spec lab_site log_manager) d.deployments
      (subst (Unmade lab_site log_manager lab_source h.uri d h.logging h.metrics) made h.unmade)

lab_goes :
    (p : Progress lab_site log_manager)
    → StopsFor lab_site log_manager lab_source p
    → (t : Status log_manager) × (d : Cluster lab_stores) × (p ≡ go t d)
lab_goes (go t d) h = (t, d, refl)
lab_goes (stop e t d) h = absurd (lab_never_stops e d h)

-- A first run from a cluster with nothing but the service account.
lab_run :
    (t : Status log_manager) × (d : Cluster lab_stores) × (reconcile_kind lab_site log_manager
        lab_source new_status lab_cluster
      ≡ go t d)
lab_run =
    lab_goes _ (reconcile_kind-StopsFor lab_site log_manager lab_source new_status lab_cluster)

reconcile_kind-Done_example :
    (uri : Url) × Done lab_site log_manager lab_admission lab_source uri lab_run.1
    × (lab_run.0.sink_uri ≡ some uri)
reconcile_kind-Done_example =
    reconcile_kind-Done lab_site log_manager lab_admission lab_source lab-IsKept new_status
      lab_run.0 lab_cluster lab_run.1 lab_run.2

lab_done :
    (uri : Url) × Done lab_site log_manager lab_admission lab_source uri lab_run.1
    × (lab_run.0.sink_uri ≡ some uri)
lab_done =
    reconcile_kind-Done lab_site log_manager lab_admission lab_source lab-IsKept new_status
      lab_run.0 lab_cluster lab_run.1 lab_run.2

reconcile_kind_settles_example :
    (t : Status log_manager) × (reconcile_kind lab_site log_manager lab_source lab_run.0 lab_run.1
      ≡ go t lab_run.1)
    × (t.sink_uri ≡ some lab_done.0)
reconcile_kind_settles_example =
    reconcile_kind_settles lab_site log_manager lab_admission lab_source
      (slot-IsStable (λ b. b.metadata.name) (λ b. b) with_binding_spec (λ b. refl))
      (slot-IsStable (λ d. d.metadata.name) webhook (with_spec lab_site log_manager) (λ d. refl))
      lab_done.0 lab_run.0 lab_run.1 lab_done.1
