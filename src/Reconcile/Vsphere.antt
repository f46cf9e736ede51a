-- ===== src/Reconcile/Vsphere.antt =====
-- The objects that the VSphereSource controller makes: pkg/reconciler/vspheresource/resources.
-- A duration is an int64 number of nanoseconds, so the product with a second wraps around. The JSON
-- of the overrides, kmeta.ChildName and the strings of JSON bytes (`text_of`) and of runes (`string_of`)
-- are parameters.
pub mod Intervals
pub mod Controller
mod Tests
use sources_for_knative.Base.{
  ℕ, ◌-◌, ◌%◌, String, ℤ, pos, negsuc, scale, Option, none, some, List, [], ◌∷◌, Bool, ltb,
  if◌then◌else◌, Text, to_lower, ◌==◌, string_eq,
}
use sources_for_knative.Kube.{
  Url, EnvVar, field_ref, Container, PodSpec, Labels, ObjectMeta, Deployment, ServiceAccount,
  ConfigMap, RoleBinding,
}
use sources_for_knative.Vsphere.Checkpoint.{
  second, CheckpointConfig, Formats, Result, ok, err, marshal_json,
}
use sources_for_knative.Sources.Bindings.{VsphereBinding}
use sources_for_knative.Sources.VsphereSource.{VsphereSource, VCheckpointSpec}

-- 2 ^ 63 and 2 ^ 64
abbrev pub two_63 : ℕ
two_63 = 9_223_372_036_854_775_808

abbrev pub two_64 : ℕ
two_64 = 18_446_744_073_709_551_616

-- The int64 with the given bits, and the wrap-around of int64.
signed_64 : ℕ → ℤ
signed_64 m = if ltb m two_63 then pos m else negsuc (two_64 - 1 - m)

wrap_int64 : ℤ → ℤ
unfolding signed_64
wrap_int64 (pos n) = signed_64 (n % two_64)
wrap_int64 (negsuc n) = signed_64 (two_64 - 1 - n % two_64)

-- `time.Second * time.Duration(s)`
pub interval_of : ℤ → ℤ
unfolding wrap_int64 scale
interval_of s = wrap_int64 (scale second s)

-- The configuration of the checkpoints that `MakeDeployment` writes.
pub config_of : VCheckpointSpec → CheckpointConfig
unfolding interval_of
config_of c = record {
  max_age = interval_of c.max_age_seconds;
  period = interval_of c.period_seconds;
}

-- `AdapterArgs`
pub record AdapterArgs : Type 0 where
  pub image : String
  pub logging_config : String
  pub metrics_config : String

-- `names.ServiceAccount`
pub account_name : VsphereSource → String
account_name vms =
    if vms.spec.service_account_name == "" then "default" else vms.spec.service_account_name

var : String → String → EnvVar
var name value = record { name = name; value = value; value_from = none }

field_var : String → String → EnvVar
field_var name path = record { name = name; value = ""; value_from = some (field_ref path) }

-- The metadata of an object that the source controls.
owned_meta : VsphereSource → String → Labels → ObjectMeta
owned_meta vms name labels = record {
  namespace_name = vms.namespace_name;
  name = name;
  labels = labels;
  controller = some vms.uid;
}

-- `MakeServiceAccount`
make_service_account : VsphereSource → ServiceAccount
unfolding owned_meta
make_service_account vms = record { metadata = owned_meta vms (account_name vms) [] }

module _ (child_name : String → String → String) where
  -- `MakeConfigMap`
  pub make_config_map : VsphereSource → ConfigMap
  unfolding owned_meta
  make_config_map vms = record { metadata = owned_meta vms (child_name vms.name "-configmap") [] }

  -- `MakeRoleBinding`
  pub make_role_binding : VsphereSource → RoleBinding
  unfolding owned_meta
  make_role_binding vms = record {
    metadata = owned_meta vms (child_name vms.name "-rolebinding") [];
    role_name = "vsphere-receive-adapter-cm";
    subject_namespace = vms.namespace_name;
    subject_name = account_name vms;
  }

  -- `MakeVSphereBinding`
  pub make_vsphere_binding : VsphereSource → VsphereBinding
  unfolding owned_meta
  make_vsphere_binding vms = record {
    metadata = owned_meta vms (child_name vms.name "-vspherebinding") [];
    subject = record {
      api_version = "apps/v1";
      kind = "Deployment";
      namespace_name = vms.namespace_name;
      name = child_name vms.name "-adapter";
      selector = none;
    };
    auth = vms.spec.auth;
    ready = none;
  }

module _ (f : Formats) (text_of : f.Bytes → String) (string_of : Text → String)
    (unicode_lower : ℕ → ℕ) (marshal : String → Option String)
    (child_name : String → String → String) where
  -- Overrides that cannot be marshalled are logged and left out.
  marshalled : Option String → String
  marshalled none = ""
  marshalled (some text) = text

  overrides : Option String → String
  unfolding marshalled
  overrides none = ""
  overrides (some o) = marshalled (marshal o)

  -- The labels of the deployment.
  vsphere_labels : VsphereSource → Labels
  vsphere_labels vms = ("vspheresources.sources.tanzu.vmware.com/name", vms.name) ∷ []

  adapter_env : VsphereSource → Url → AdapterArgs → f.Bytes → List EnvVar
  unfolding var field_var overrides
  adapter_env vms sink_uri args bytes =
      field_var "NAMESPACE" "metadata.namespace"
      ∷ field_var "NAME" "metadata.name"
      ∷ var "K_METRICS_CONFIG" args.metrics_config
      ∷ var "K_LOGGING_CONFIG" args.logging_config
      ∷ var "VSPHERE_KVSTORE_CONFIGMAP" (child_name vms.name "-configmap")
      ∷ var "VSPHERE_CHECKPOINT_CONFIG" (text_of bytes)
      ∷ var "VSPHERE_PAYLOAD_ENCODING"
          (string_of (to_lower unicode_lower vms.spec.payload_encoding))
      ∷ var "K_CE_OVERRIDES" (overrides vms.spec.ce_overrides)
      ∷ var "K_SINK" sink_uri.text
      ∷ []

  deployment_with : VsphereSource → Url → AdapterArgs → f.Bytes → Deployment
  unfolding owned_meta vsphere_labels adapter_env
  deployment_with vms sink_uri args bytes = record {
    metadata = owned_meta vms (child_name vms.name "-adapter") (vsphere_labels vms);
    replicas = 1;
    selector = vsphere_labels vms;
    template_labels = vsphere_labels vms;
    pod = record {
      service_account_name = account_name vms;
      volumes = [];
      init_containers = [];
      containers =
          record {
            name = "adapter";
            image = args.image;
            env = adapter_env vms sink_uri args bytes;
            volume_mounts = [];
            rest = "";
          }
          ∷ [];
      rest = "";
    };
    strategy = "Recreate";
    conditions = [];
  }

  made : VsphereSource → Url → AdapterArgs → Result f.Bytes → Option Deployment
  unfolding deployment_with
  made vms sink_uri args (err e) = none
  made vms sink_uri args (ok bytes) = some (deployment_with vms sink_uri args bytes)

  -- `MakeDeployment`; `sink_uri` is that of the source's status.
  pub make_deployment : VsphereSource → Url → AdapterArgs → Option Deployment
  unfolding made config_of
  make_deployment vms sink_uri args =
      made vms sink_uri args (marshal_json f (config_of vms.spec.checkpoint_config))
