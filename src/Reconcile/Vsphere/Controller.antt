-- ===== src/Reconcile/Vsphere/Controller.antt =====
-- The VSphereSource controller: `ReconcileKind` of pkg/reconciler/vspheresource/vsphere.go. Each step
-- goes on with the status and the cluster, or ends the run with an error.
-- `Site` holds the calls for each kind of object, the resolver of sinks and what the objects are
-- made with. A cluster has a store of its own for each kind.
pub mod Steps
pub mod BindingStep
pub mod ConfigMapStep
pub mod RoleBindingStep
pub mod Deploying
pub mod Settles
pub mod Order
pub mod Failing
mod Tests
use sources_for_knative.Base.{ℕ, String, Option, none, some, List, [], Text}
use sources_for_knative.Kube.{
  Url, ObjectMeta, Deployment, ServiceAccount, ConfigMap, RoleBinding, Lookup, found, not_found,
  get_failed, Calls,
}
use sources_for_knative.Vsphere.Checkpoint.{Formats}
use sources_for_knative.Sources.{Destination}
use sources_for_knative.Sources.Bindings.{VsphereBinding}
use sources_for_knative.Sources.VsphereSource.{VsphereSource}
use sources_for_knative.Reconcile.Conditions.{
  Manager, Status, propagate_auth_status, propagate_adapter_status,
}
use sources_for_knative.Reconcile.Vsphere.{
  AdapterArgs, account_name, make_config_map, make_role_binding, make_vsphere_binding,
  make_deployment,
}

-- One store for each kind of object.
pub record Stores : Type 1 where
  pub Bindings : Type 0
  pub ConfigMaps : Type 0
  pub Accounts : Type 0
  pub RoleBindings : Type 0
  pub Deployments : Type 0

pub record Cluster (k : Stores) : Type 0 where
  pub bindings : k.Bindings
  pub config_maps : k.ConfigMaps
  pub accounts : k.Accounts
  pub role_bindings : k.RoleBindings
  pub deployments : k.Deployments

pub record Site (k : Stores) : Type 1 where
  pub bindings : Calls k.Bindings VsphereBinding
  pub config_maps : Calls k.ConfigMaps ConfigMap
  pub accounts : Calls k.Accounts ServiceAccount
  pub role_bindings : Calls k.RoleBindings RoleBinding
  pub deployments : Calls k.Deployments Deployment
  pub resolve : Destination → Option Url
  pub adapter_image : String
  pub logging_config : Option String
  pub metrics_config : Option String
  pub formats : Formats
  pub text_of : formats.Bytes → String
  pub string_of : Text → String
  pub unicode_lower : ℕ → ℕ
  pub marshal : String → Option String
  pub child_name : String → String → String

pub data Error : Type 0 where
  binding_error config_map_error account_error role_binding_error sink_error config_error : Error
  deployment_error : Error

module _ {k : Stores} (site : Site k) (m : Manager) where
  -- What a step comes to.
  pub data Progress : Type 0 where
    go : Status m → Cluster k → Progress
    stop : Error → Status m → Cluster k → Progress

  -- `if err := …; err != nil { return err }`, and on.
  abbrev pub and_then : Progress → (Status m → Cluster k → Progress) → Progress
  and_then (go s c) next = next s c
  and_then (stop e s c) next = stop e s c

  -- The binding that was written, and its state in the status of the source.
  binding_written : Status m → Cluster k → Option (VsphereBinding × k.Bindings) → Progress
  binding_written s c none = stop binding_error s c
  binding_written s c (some (b, store)) =
      go (propagate_auth_status m b.ready s) (record c { bindings = store })

  binding_found : VsphereSource → Status m → Cluster k → Lookup VsphereBinding → Progress
  unfolding binding_written
  binding_found vms s c not_found = binding_written s c (
      site.bindings.create vms.namespace_name (make_vsphere_binding site.child_name vms) c.bindings)
  binding_found vms s c get_failed = stop binding_error s c
  binding_found vms s c (found b) =
      let desired = make_vsphere_binding site.child_name vms in
      binding_written s c (
        site.bindings.update vms.namespace_name
          (record b { subject = desired.subject; auth = desired.auth }) c.bindings)

  -- `reconcileVSphereBinding`
  pub reconcile_vsphere_binding : VsphereSource → Status m → Cluster k → Progress
  unfolding binding_found
  reconcile_vsphere_binding vms s c =
      binding_found vms s c (
        site.bindings.get vms.namespace_name (site.child_name vms.name "-vspherebinding")
          c.bindings)

  config_map_created : Status m → Cluster k → Option (ConfigMap × k.ConfigMaps) → Progress
  config_map_created s c none = stop config_map_error s c
  config_map_created s c (some (cm, store)) = go s (record c { config_maps = store })

  config_map_found : VsphereSource → Status m → Cluster k → Lookup ConfigMap → Progress
  unfolding config_map_created
  config_map_found vms s c not_found = config_map_created s c (
      site.config_maps.create vms.namespace_name (make_config_map site.child_name vms)
        c.config_maps)
  config_map_found vms s c get_failed = stop config_map_error s c
  config_map_found vms s c (found cm) = go s c

  -- `reconcileConfigMap`
  pub reconcile_config_map : VsphereSource → Status m → Cluster k → Progress
  unfolding config_map_found
  reconcile_config_map vms s c = config_map_found vms s c (
      site.config_maps.get vms.namespace_name (site.child_name vms.name "-configmap") c.config_maps)

  account_found : Status m → Cluster k → Lookup ServiceAccount → Progress
  account_found s c not_found = stop account_error s c
  account_found s c get_failed = stop account_error s c
  account_found s c (found sa) = go s c

  -- `reconcileServiceAccount`
  pub reconcile_service_account : VsphereSource → Status m → Cluster k → Progress
  unfolding account_found
  reconcile_service_account vms s c =
      account_found s c (site.accounts.get vms.namespace_name (account_name vms) c.accounts)

  role_binding_created : Status m → Cluster k → Option (RoleBinding × k.RoleBindings) → Progress
  role_binding_created s c none = stop role_binding_error s c
  role_binding_created s c (some (rb, store)) = go s (record c { role_bindings = store })

  role_binding_found : VsphereSource → Status m → Cluster k → Lookup RoleBinding → Progress
  unfolding role_binding_created
  role_binding_found vms s c not_found = role_binding_created s c (
      site.role_bindings.create vms.namespace_name (make_role_binding site.child_name vms)
        c.role_bindings)
  role_binding_found vms s c get_failed = stop role_binding_error s c
  role_binding_found vms s c (found rb) = go s c

  -- `reconcileRoleBinding`
  pub reconcile_role_binding : VsphereSource → Status m → Cluster k → Progress
  unfolding role_binding_found
  reconcile_role_binding vms s c = role_binding_found vms s c (
      site.role_bindings.get vms.namespace_name (site.child_name vms.name "-rolebinding")
        c.role_bindings)

  deployment_written : Status m → Cluster k → Option (Deployment × k.Deployments) → Progress
  deployment_written s c none = stop deployment_error s c
  deployment_written s c (some (d, store)) =
      go (propagate_adapter_status m d.conditions s) (record c { deployments = store })

  -- A deployment that is there keeps its metadata and its status and gets the desired spec.
  abbrev pub with_spec : Deployment → Deployment → Deployment
  with_spec d desired = record d {
    replicas = desired.replicas;
    selector = desired.selector;
    template_labels = desired.template_labels;
    pod = desired.pod;
    strategy = desired.strategy;
  }

  created_deployment : VsphereSource → Status m → Cluster k → Option Deployment → Progress
  unfolding deployment_written
  created_deployment vms s c none = stop deployment_error s c
  created_deployment vms s c (some desired) =
      deployment_written s c (site.deployments.create vms.namespace_name desired c.deployments)

  updated_deployment :
      VsphereSource → Status m → Cluster k → Deployment → Option Deployment → Progress
  unfolding deployment_written
  updated_deployment vms s c d none = stop deployment_error s c
  updated_deployment vms s c d (some desired) =
      deployment_written s c
        (site.deployments.update vms.namespace_name (with_spec d desired) c.deployments)

  deployment_found :
      VsphereSource → Status m → Cluster k → Option Deployment → Lookup Deployment → Progress
  unfolding created_deployment updated_deployment
  deployment_found vms s c desired not_found = created_deployment vms s c desired
  deployment_found vms s c desired get_failed = stop deployment_error s c
  deployment_found vms s c desired (found d) = updated_deployment vms s c d desired

  -- The text of a nil URL is empty.
  abbrev pub url_of : Option Url → Url
  url_of none = record { host = ""; text = "" }
  url_of (some uri) = uri

  abbrev pub desired_deployment : VsphereSource → Url → String → String → Option Deployment
  desired_deployment vms uri logging metrics =
      make_deployment site.formats site.text_of site.string_of site.unicode_lower site.marshal
        site.child_name vms uri
        (record { image = site.adapter_image; logging_config = logging; metrics_config = metrics })

  with_configs : VsphereSource → Status m → Cluster k → Option String → Option String → Progress
  unfolding deployment_found
  with_configs vms s c none metrics = stop config_error s c
  with_configs vms s c (some logging) none = stop config_error s c
  with_configs vms s c (some logging) (some metrics) =
      deployment_found vms s c (desired_deployment vms (url_of s.sink_uri) logging metrics) (
        site.deployments.get vms.namespace_name (site.child_name vms.name "-adapter") c.deployments)

  -- `reconcileDeployment`
  pub reconcile_deployment : VsphereSource → Status m → Cluster k → Progress
  unfolding with_configs
  reconcile_deployment vms s c = with_configs vms s c site.logging_config site.metrics_config

  set_sink : Status m → Cluster k → Option Url → Progress
  set_sink s c none = stop sink_error s c
  set_sink s c (some uri) = go (record s { sink_uri = some uri }) c

  -- The resolution of the sink, which the code has in `ReconcileKind` itself.
  pub resolve_sink : VsphereSource → Status m → Cluster k → Progress
  unfolding set_sink
  resolve_sink vms s c = set_sink s c (site.resolve vms.spec.sink)

  -- `ReconcileKind`
  pub reconcile_kind : VsphereSource → Status m → Cluster k → Progress
  reconcile_kind vms s c = and_then (reconcile_vsphere_binding vms s c) (λ s c.
      and_then (reconcile_config_map vms s c) (λ s c.
        and_then (reconcile_service_account vms s c) (λ s c.
          and_then (reconcile_role_binding vms s c)
            (λ s c. and_then (resolve_sink vms s c) (λ s c. reconcile_deployment vms s c)))))
