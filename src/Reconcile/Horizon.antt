-- ===== src/Reconcile/Horizon.antt =====
-- The HorizonSource controller: `ReconcileKind` of pkg/reconciler/horizonsource/horizonsource.go with
-- `ReconcileServiceAccount` and `ReconcileDeployment`. An early return is a clause that stops.
-- `Services` holds the cluster's calls, the resolver of sinks and what else is not of this program.
pub mod Deployments
pub mod Kind
mod Owned
mod Tests
use sources_for_knative.Base.{
  ℕ, String, Option, none, some, List, [], ◌∷◌, Bool, true, false, ◌≡◌, ◌==◌, Eq, string_eq,
  if◌then◌else◌,
}
use sources_for_knative.Kube.{
  Url, EnvVar, PodSpec, ObjectMeta, Deployment, ServiceAccount, Lookup, found, not_found,
  get_failed, Calls, Labels,
}
use sources_for_knative.Sources.{Destination, KReference}
use sources_for_knative.Sources.HorizonSource.{HorizonSource}
use sources_for_knative.Reconcile.Sync.{pod_spec_sync}
use sources_for_knative.Reconcile.Resources.{
  labels_of, new_service_account, ReceiveAdapterArgs, new_receive_adapter,
}
use sources_for_knative.Reconcile.Conditions.{
  Manager, Status, initialize_conditions, mark_sink, mark_no_sink,
  propagate_deployment_availability,
}

-- A reconciler event, by its reason, namespace and name, or another error.
pub data Event : Type 0 where
  normal_event : String → String → String → Event
  warning_event : String → String → String → Event
  other_error : String → Event

pub record Services (Cluster : Type 0) : Type 0 where
  pub sink_ok : Destination → Bool
  pub resolve : Destination → Option Url
  pub has_secret : String → String → Cluster → Bool
  pub accounts : Calls Cluster ServiceAccount
  pub deployments : Calls Cluster Deployment
  -- What the client returns beside the error of an update that fails.
  pub failed_update : Deployment
  -- The capacity that the decoded slice of containers has left.
  pub spare : Deployment → ℕ
  pub is_available : Deployment → Bool
  pub unavailable : String → String
  pub adapter_image : String
  pub logging_config : Option String
  pub metrics_config : Option String
  pub marshal : String → Option String
  pub child_name : String → String → String

-- The results of `ReconcileServiceAccount` and `ReconcileDeployment`, and the cluster after them.
pub record Made (Cluster A : Type 0) : Type 0 where
  pub object : Option A
  pub event : Option Event
  pub cluster : Cluster

-- metav1.IsControlledBy
pub is_controlled_by : Option String → String → Bool
is_controlled_by none uid = false
is_controlled_by (some c) uid = c == uid

module _ {Cluster : Type 0} (services : Services Cluster) where
  account_created :
      HorizonSource → Cluster → Option (ServiceAccount × Cluster) → Made Cluster ServiceAccount
  account_created src cluster none = record {
    object = none;
    event =
        some
          (warning_event "ServiceAccountFailed" src.namespace_name src.spec.service_account_name);
    cluster = cluster;
  }
  account_created src cluster (some (sa, after)) = record {
    object = some sa;
    event = some (normal_event "ServiceAccountCreated" sa.metadata.namespace_name sa.metadata.name);
    cluster = after;
  }

  account_found :
      HorizonSource → Labels → Cluster → Lookup ServiceAccount → Made Cluster ServiceAccount
  unfolding account_created
  account_found src labels cluster (found sa) = record {
    object = some sa;
    event = none;
    cluster = cluster;
  }
  account_found src labels cluster not_found =
      account_created src cluster
        (services.accounts.create src.namespace_name (new_service_account src labels) cluster)
  account_found src labels cluster get_failed = record {
    object = none;
    event = some (other_error "error getting service account");
    cluster = cluster;
  }

  -- `ReconcileServiceAccount`
  pub reconcile_service_account : HorizonSource → Labels → Cluster → Made Cluster ServiceAccount
  unfolding account_found
  reconcile_service_account src labels cluster =
      account_found src labels cluster
        (services.accounts.get src.namespace_name src.spec.service_account_name cluster)

  module _ (same_env : Eq (List EnvVar)) (same_pod : Eq PodSpec) where
    deployment_created :
        Deployment → Cluster → Option (Deployment × Cluster) → Made Cluster Deployment
    deployment_created expected cluster none = record {
      object = none;
      event = some (
          warning_event "DeploymentFailed" expected.metadata.namespace_name expected.metadata.name);
      cluster = cluster;
    }
    deployment_created expected cluster (some (ra, after)) = record {
      object = some ra;
      event = some (normal_event "DeploymentCreated" ra.metadata.namespace_name ra.metadata.name);
      cluster = after;
    }

    deployment_updated : Cluster → Option (Deployment × Cluster) → Made Cluster Deployment
    deployment_updated cluster none = record {
      object = some services.failed_update;
      event = some (other_error "update of the deployment");
      cluster = cluster;
    }
    deployment_updated cluster (some (ra, after)) = record {
      object = some ra;
      event = some (normal_event "DeploymentUpdated" ra.metadata.namespace_name ra.metadata.name);
      cluster = after;
    }

    -- What follows the check of the owner.
    owned_deployment : String → Deployment → Cluster → Deployment → Made Cluster Deployment
    unfolding deployment_updated
    owned_deployment ns expected cluster ra =
        if pod_spec_sync same_env same_pod (services.spare ra) expected.pod ra.pod
        then deployment_updated cluster
            (services.deployments.update ns (record ra { pod = expected.pod }) cluster)
        else record { object = some ra; event = none; cluster = cluster }

    deployment_found :
        HorizonSource → Deployment → Cluster → Lookup Deployment → Made Cluster Deployment
    unfolding deployment_created owned_deployment
    deployment_found owner expected cluster not_found =
        deployment_created expected cluster
          (services.deployments.create owner.namespace_name expected cluster)
    deployment_found owner expected cluster get_failed = record {
      object = none;
      event = some (other_error "error getting receive adapter");
      cluster = cluster;
    }
    deployment_found owner expected cluster (found ra) =
        if is_controlled_by ra.metadata.controller owner.uid
        then owned_deployment owner.namespace_name expected cluster ra
        else record {
          object = none;
          event = some (other_error "deployment is not owned");
          cluster = cluster;
        }

    -- `ReconcileDeployment`
    pub reconcile_deployment : HorizonSource → Deployment → Cluster → Made Cluster Deployment
    unfolding deployment_found
    reconcile_deployment owner expected cluster =
        deployment_found owner expected cluster
          (services.deployments.get owner.namespace_name expected.metadata.name cluster)

    module _ (m : Manager) where
      -- What a run of `ReconcileKind` leaves: the status, its result and the cluster.
      pub record Reconciled : Type 0 where
        pub status : Status m
        pub event : Option Event
        pub cluster : Cluster

      -- Normal events are not errors.
      ignore_normal : Option Event → Option Event
      ignore_normal none = none
      ignore_normal (some (normal_event reason ns name)) = none
      ignore_normal (some (warning_event reason ns name)) = some (warning_event reason ns name)
      ignore_normal (some (other_error t)) = some (other_error t)

      propagate : Option Deployment → Status m → Status m
      propagate none s = s
      propagate (some ra) s =
          propagate_deployment_availability m services.is_available services.unavailable ra s

      finish : Status m → Made Cluster Deployment → Reconciled
      unfolding ignore_normal propagate
      finish s made = record {
        status = propagate made.object s;
        event = ignore_normal made.event;
        cluster = made.cluster;
      }

      stop : Status m → Event → Cluster → Reconciled
      stop s e cluster = record { status = s; event = some e; cluster = cluster }

      -- From the adapter's deployment on.
      with_adapter : HorizonSource → Status m → Cluster → Option Deployment → Reconciled
      unfolding stop finish
      with_adapter src s cluster none =
          stop s (other_error "failed to marshal CloudEventOverrides") cluster
      with_adapter src s cluster (some adapter) =
          finish s (reconcile_deployment src adapter cluster)

      -- From the configurations on.
      with_configs :
          HorizonSource → Url → Status m → Cluster → Option String → Option String → Reconciled
      unfolding stop with_adapter
      with_configs src uri s cluster none metrics = stop s (other_error "logging config") cluster
      with_configs src uri s cluster (some logging) none =
          stop s (other_error "metrics config") cluster
      with_configs src uri s cluster (some logging) (some metrics) = with_adapter src s cluster (
          new_receive_adapter services.marshal services.child_name (record {
            image = services.adapter_image;
            labels = labels_of src.name;
            source = src;
            sink_uri = uri.text;
            logging_config = logging;
            metrics_config = metrics;
          }))

      -- From the service account on: any event of it is returned.
      with_account : HorizonSource → Url → Status m → Cluster → Option Event → Reconciled
      unfolding stop with_configs
      with_account src uri s cluster none =
          with_configs src uri s cluster services.logging_config services.metrics_config
      with_account src uri s cluster (some e) = stop s e cluster

      -- From the resolved sink on.
      with_sink : HorizonSource → Status m → Cluster → Option Url → Reconciled
      unfolding stop with_account
      with_sink src s cluster none =
          stop (mark_no_sink m "NotFound" s) (other_error "getting sink URI") cluster
      with_sink src s cluster (some uri) =
          if services.has_secret src.namespace_name src.spec.auth.secret_name cluster
          then (let made = reconcile_service_account src (labels_of src.name) cluster in
              with_account src uri (mark_sink m uri s) made.cluster made.event)
          else stop (mark_sink m uri s) (other_error "secret") cluster

      default_ref : String → Option KReference → Option KReference
      default_ref ns none = none
      default_ref ns (some r) =
          some
            (record r { namespace_name = if r.namespace_name == "" then ns else r.namespace_name })

      -- The sink with the namespace of the source where its reference names none.
      pub destination_of : HorizonSource → Destination
      unfolding default_ref
      destination_of src = record src.spec.sink {
        ref = default_ref src.namespace_name src.spec.sink.ref;
      }

      -- `ReconcileKind`
      pub reconcile_kind : HorizonSource → Status m → Cluster → Reconciled
      unfolding stop with_sink
      reconcile_kind src s cluster =
          if services.sink_ok src.spec.sink
          then with_sink src (initialize_conditions m s) cluster
              (services.resolve (destination_of src))
          else stop (mark_no_sink m "SinkMissing" (initialize_conditions m s))
              (other_error "spec.sink missing") cluster
