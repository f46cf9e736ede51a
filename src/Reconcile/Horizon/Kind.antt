-- ===== src/Reconcile/Horizon/Kind.antt =====
-- `ReconcileKind` of pkg/reconciler/horizonsource/horizonsource.go: what a run without an error has
-- done, and the run that creates the service account.
use sources_for_knative.Base.{
  String, Option, none, some, List, true, ◌≡◌, inl, inr, refl, ◌∙◌, subst, Eq, Bool-cases,
  Option-cases,
}
use sources_for_knative.Kube.{
  Url, EnvVar, PodSpec, Deployment, ServiceAccount, Lookup, found, not_found, get_failed,
}
use sources_for_knative.Sources.HorizonSource.{HorizonSource}
use sources_for_knative.Reconcile.Resources.{
  labels_of, new_service_account, ReceiveAdapterArgs, new_receive_adapter,
}
use sources_for_knative.Reconcile.Conditions.{
  Manager, Status, initialize_conditions, mark_sink, propagate_deployment_availability_sink,
  mark_sink_uri,
}
use sources_for_knative.Reconcile.Horizon.{
  Event, normal_event, warning_event, other_error, Services, account_created, account_found,
  reconcile_service_account, reconcile_deployment, Reconciled, ignore_normal, propagate, finish,
  stop, with_adapter, with_configs, with_account, with_sink, destination_of, reconcile_kind,
}
use sources_for_knative.Reconcile.Horizon.Deployments.{IsQuiet}

module _ {Cluster : Type 0} (services : Services Cluster) (same_env : Eq (List EnvVar))
    (same_pod : Eq PodSpec) (m : Manager) where
  abbrev Run : Type 0
  Run = Reconciled services same_env same_pod m

  abbrev pub args_of : HorizonSource → Url → String → String → ReceiveAdapterArgs
  args_of src uri logging metrics = record {
    image = services.adapter_image;
    labels = labels_of src.name;
    source = src;
    sink_uri = uri.text;
    logging_config = logging;
    metrics_config = metrics;
  }

  -- The adapter that the configurations give was reconciled without an error, and its cluster is the
  -- cluster of the run.
  pub record Deploys (src : HorizonSource) (uri : Url) (c : Cluster) (r : Run) : Type 0 where
    pub logging : String
    pub metrics : String
    pub adapter : Deployment
    pub made_adapter :
        new_receive_adapter services.marshal services.child_name (args_of src uri logging metrics)
        ≡ some adapter
    pub quiet : IsQuiet (reconcile_deployment services same_env same_pod src adapter c).event
    pub same_cluster :
        r.cluster ≡ (reconcile_deployment services same_env same_pod src adapter c).cluster
    pub reports_sink : r.status.sink_uri ≡ some uri

  ignore_normal-IsQuiet :
      (e : Option Event) → ignore_normal services same_env same_pod m e ≡ none → IsQuiet e
  unfolding ignore_normal
  ignore_normal-IsQuiet none h = inl refl
  ignore_normal-IsQuiet (some (normal_event r ns n)) h = inr (r, ns, n, refl)
  ignore_normal-IsQuiet (some (warning_event r ns n)) h = absurd cc
  ignore_normal-IsQuiet (some (other_error t)) h = absurd cc

  propagate_sink :
      (d : Option Deployment) (s : Status m)
      → (propagate services same_env same_pod m d s).sink_uri ≡ s.sink_uri
  unfolding propagate
  propagate_sink none s = refl
  propagate_sink (some ra) s =
      propagate_deployment_availability_sink m services.is_available services.unavailable ra s

  with_configs-Deploys :
      (src : HorizonSource) (uri : Url) (s : Status m) (c : Cluster) (l t : Option String)
      → (s.sink_uri ≡ some uri)
      → (with_configs services same_env same_pod m src uri s c l t).event ≡ none
      → Deploys src uri c (with_configs services same_env same_pod m src uri s c l t)
  unfolding with_configs with_adapter stop finish
  with_configs-Deploys src uri s c none t u h = absurd cc
  with_configs-Deploys src uri s c (some l) none u h = absurd cc
  with_configs-Deploys src uri s c (some l) (some t) u h =
      elim (Option-cases
        (new_receive_adapter services.marshal services.child_name (args_of src uri l t))) [
          | inl e ↦
              let h' : some (other_error "failed to marshal CloudEventOverrides") ≡ none =
                (rw e at h) in
              absurd cc
          | inr (adapter, e) ↦ rw e (record {
            logging = l;
            metrics = t;
            adapter = adapter;
            made_adapter = e;
            quiet = ignore_normal-IsQuiet _ (rw e at h);
            same_cluster = refl;
            reports_sink =
                propagate_sink
                  (reconcile_deployment services same_env same_pod src adapter c).object s
                ∙ u;
          })
        ]

  -- A run of `ReconcileKind` without an error: the sink was valid and resolved, the secret and the
  -- service account were there, and the deployment of the adapter was reconciled to that sink.
  pub record Succeeds (src : HorizonSource) (c : Cluster) (r : Run) : Type 0 where
    pub uri : Url
    pub sink_ok : services.sink_ok src.spec.sink ≡ true
    pub resolved : services.resolve (destination_of services same_env same_pod m src) ≡ some uri
    pub secret : services.has_secret src.namespace_name src.spec.auth.secret_name c ≡ true
    pub account :
        (sa : ServiceAccount) × (services.accounts.get src.namespace_name
            src.spec.service_account_name c
          ≡ found sa)
    pub deploys : Deploys src uri c r

  account_created_loud :
      (src : HorizonSource) (c : Cluster) (o : Option (ServiceAccount × Cluster))
      → (account_created services src c o).event ≡ none
      → ⊥
  unfolding account_created
  account_created_loud src c none h = absurd cc
  account_created_loud src c (some (sa, after)) h = absurd cc

  account_found_quiet :
      (src : HorizonSource) (c : Cluster) (l : Lookup ServiceAccount)
      → (account_found services src (labels_of src.name) c l).event ≡ none
      → ((sa : ServiceAccount) × (l ≡ found sa))
        × ((account_found services src (labels_of src.name) c l).cluster ≡ c)
  unfolding account_found
  account_found_quiet src c (found sa) h = ((sa, refl), refl)
  account_found_quiet src c not_found h = absurd (account_created_loud src c _ h)
  account_found_quiet src c get_failed h = absurd cc

  reconcile_service_account_quiet :
      (src : HorizonSource) (c : Cluster)
      → (reconcile_service_account services src (labels_of src.name) c).event ≡ none
      → ((sa : ServiceAccount) × (services.accounts.get src.namespace_name
              src.spec.service_account_name c
            ≡ found sa))
        × ((reconcile_service_account services src (labels_of src.name) c).cluster ≡ c)
  unfolding reconcile_service_account
  reconcile_service_account_quiet src c h =
      account_found_quiet src c
        (services.accounts.get src.namespace_name src.spec.service_account_name c) h

  with_account-Deploys :
      (src : HorizonSource) (uri : Url) (s : Status m) (c : Cluster) (o : Option Event)
      → s.sink_uri ≡ some uri
      → (with_account services same_env same_pod m src uri s c o).event ≡ none
      → (o ≡ none) × Deploys src uri c (with_account services same_env same_pod m src uri s c o)
  unfolding with_account stop
  with_account-Deploys src uri s c none u h =
      (refl, with_configs-Deploys src uri s c services.logging_config services.metrics_config u h)
  with_account-Deploys src uri s c (some e) u h = absurd cc

  with_sink-Succeeds :
      (src : HorizonSource) (s : Status m) (c : Cluster) (o : Option Url)
      → services.sink_ok src.spec.sink ≡ true
      → services.resolve (destination_of services same_env same_pod m src) ≡ o
      → (with_sink services same_env same_pod m src s c o).event ≡ none
      → Succeeds src c (with_sink services same_env same_pod m src s c o)
  unfolding with_sink stop
  with_sink-Succeeds src s c none ok res h = absurd cc
  with_sink-Succeeds src s c (some uri) ok res h =
      elim (Bool-cases (services.has_secret src.namespace_name src.spec.auth.secret_name c)) [
        | inl e ↦
            let made = reconcile_service_account services src (labels_of src.name) c in
            let (quiet, deploys) =
              with_account-Deploys src uri (mark_sink m uri s) made.cluster made.event
                (mark_sink_uri m uri s) (rw e at h) in
            let (account, same) = reconcile_service_account_quiet src c quiet in
            rw e (record {
              uri = uri;
              sink_ok = ok;
              resolved = res;
              secret = e;
              account = account;
              deploys =
                  subst
                    (λ d. Deploys src uri d (
                      with_account services same_env same_pod m src uri (mark_sink m uri s)
                        made.cluster made.event))
                    same deploys;
            })
        | inr e ↦ let h' : some (other_error "secret") ≡ none = (rw e at h) in absurd cc
      ]

  -- If `ReconcileKind` returns no error, then the sink was valid and resolved, the secret and the
  -- service account were there, the status reports the sink, and the adapter's deployment for that
  -- sink was reconciled without an error, with no other change to the cluster.
  pub reconcile_kind-Succeeds :
      (src : HorizonSource) (s : Status m) (c : Cluster)
      → (reconcile_kind services same_env same_pod m src s c).event ≡ none
      → Succeeds src c (reconcile_kind services same_env same_pod m src s c)
  unfolding reconcile_kind stop
  reconcile_kind-Succeeds src s c h = elim (Bool-cases (services.sink_ok src.spec.sink)) [
    | inl e ↦ rw e (
        with_sink-Succeeds src (initialize_conditions m s) c
          (services.resolve (destination_of services same_env same_pod m src)) e refl (rw e at h))
    | inr e ↦ let h' : some (other_error "spec.sink missing") ≡ none = (rw e at h) in absurd cc
  ]

  -- Where the service account is missing and can be created, a run whose sink is resolved and whose
  -- secret is there returns the event of the creation and stops: the cluster is as the creation left
  -- it, and no adapter is deployed in this run.
  reconcile_kind_creates_account :
      (src : HorizonSource) (s : Status m) (c after : Cluster) (uri : Url) (sa : ServiceAccount)
      → services.sink_ok src.spec.sink ≡ true
      → services.resolve (destination_of services same_env same_pod m src) ≡ some uri
      → services.has_secret src.namespace_name src.spec.auth.secret_name c ≡ true
      → services.accounts.get src.namespace_name src.spec.service_account_name c ≡ not_found
      → services.accounts.create src.namespace_name (new_service_account src (labels_of src.name)) c
        ≡ some (sa, after)
      → reconcile_kind services same_env same_pod m src s c ≡ record {
        status = mark_sink m uri (initialize_conditions m s);
        event =
            some (normal_event "ServiceAccountCreated" sa.metadata.namespace_name sa.metadata.name);
        cluster = after;
      }
  unfolding reconcile_kind with_sink with_account stop reconcile_service_account account_found
      account_created
  reconcile_kind_creates_account src s c after uri sa ok res sec miss made =
      rw (ok, res, sec, miss, made) refl
