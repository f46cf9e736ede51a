-- ===== src/Reconcile/Resources.antt =====
-- The objects that the HorizonSource controller makes: pkg/reconciler/horizonsource/resources.
-- The JSON of the cloud event overrides and kmeta.ChildName are parameters.
use sources_for_knative.Base.{String, Option, none, some, List, [], ◌∷◌, true}
use sources_for_knative.Kube.{EnvVar, secret_volume, Container, Labels, Deployment, ServiceAccount}
use sources_for_knative.Binding.{print_bool}
use sources_for_knative.Sources.HorizonSource.{HorizonSource}

-- `DefaultSecretMountPath` of pkg/horizon/horizon.go
abbrev pub default_secret_mount_path : String
default_secret_mount_path = "/var/bindings/horizon"

-- `ReceiveAdapterArgs`
pub record ReceiveAdapterArgs : Type 0 where
  pub image : String
  pub labels : Labels
  pub source : HorizonSource
  pub sink_uri : String
  pub logging_config : String
  pub metrics_config : String

-- `Labels`
pub labels_of : String → Labels
labels_of name =
    ("knative-eventing-source", "horizon-source-controller")
    ∷ ("knative-eventing-source-name", name)
    ∷ []

-- `NewServiceAccount`
unfoldable pub new_service_account : HorizonSource → Labels → ServiceAccount
new_service_account src labels = record {
  metadata = record {
    namespace_name = src.namespace_name;
    name = src.spec.service_account_name;
    labels = labels;
    controller = some src.uid;
  };
}

env : String → String → EnvVar
env name value = record { name = name; value = value; value_from = none }

module _ (marshal : String → Option String) (child_name : String → String → String) where
  -- The text of the overrides, or none if they cannot be marshalled.
  overrides_text : Option String → Option String
  overrides_text none = some ""
  overrides_text (some o) = marshal o

  env_list : ReceiveAdapterArgs → String → List EnvVar
  unfolding env
  env_list args ce_overrides =
      env "HORIZON_URL" args.source.spec.auth.address.text
      ∷ env "HORIZON_INSECURE" (print_bool args.source.spec.auth.skip_tls_verify)
      ∷ env "METRICS_DOMAIN" "knative.dev/eventing"
      ∷ env "K_CE_OVERRIDES" ce_overrides
      ∷ env "SINK_URI" args.sink_uri
      ∷ env "K_SINK" args.sink_uri
      ∷ env "NAME" args.source.name
      ∷ env "NAMESPACE" args.source.namespace_name
      ∷ env "K_LOGGING_CONFIG" args.logging_config
      ∷ env "K_METRICS_CONFIG" args.metrics_config
      ∷ []

  -- `makeEnv`
  make_env : ReceiveAdapterArgs → Option (List EnvVar)
  unfolding overrides_text env_list
  make_env args = elim (overrides_text args.source.spec.ce_overrides) [
    | none ↦ none
    | some text ↦ some (env_list args text)
  ]

  adapter_container : ReceiveAdapterArgs → List EnvVar → Container
  adapter_container args vars = record {
    name = "adapter";
    image = args.image;
    env = vars;
    volume_mounts =
        record {
          name = args.source.spec.auth.secret_name;
          read_only = true;
          mount_path = default_secret_mount_path;
        }
        ∷ [];
    rest = "";
  }

  deployment_of : ReceiveAdapterArgs → List EnvVar → Deployment
  unfolding adapter_container
  deployment_of args vars = record {
    metadata = record {
      namespace_name = args.source.namespace_name;
      name = child_name args.source.name "-adapter";
      labels = args.labels;
      controller = some args.source.uid;
    };
    replicas = 1;
    selector = args.labels;
    template_labels = args.labels;
    pod = record {
      service_account_name = args.source.spec.service_account_name;
      volumes =
          record {
            name = args.source.spec.auth.secret_name;
            source = secret_volume args.source.spec.auth.secret_name;
          }
          ∷ [];
      init_containers = [];
      containers = adapter_container args vars ∷ [];
      rest = "";
    };
    strategy = "Recreate";
    conditions = [];
  }

  -- `NewReceiveAdapter`
  unfoldable pub new_receive_adapter : ReceiveAdapterArgs → Option Deployment
  unfolding make_env deployment_of
  new_receive_adapter args = elim (make_env args) [
    | none ↦ none
    | some vars ↦ some (deployment_of args vars)
  ]
