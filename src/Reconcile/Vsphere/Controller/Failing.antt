-- ===== src/Reconcile/Vsphere/Controller/Failing.antt =====
-- Why a run of `ReconcileKind` ends with an error.
use sources_for_knative.Base.{
  String, Option, none, some, ◌≡◌, ◌≢◌, refl, sym, ◌∙◌, subst, ◌⊎◌, inl, inr,
}
use sources_for_knative.Kube.{
  Url, Deployment, ConfigMap, RoleBinding, ServiceAccount, Lookup, found, not_found, get_failed,
  Calls,
}
use sources_for_knative.Sources.Bindings.{VsphereBinding}
use sources_for_knative.Sources.VsphereSource.{VsphereSource}
use sources_for_knative.Reconcile.Conditions.{Manager, Status}
use sources_for_knative.Reconcile.Vsphere.{
  make_vsphere_binding, make_config_map, make_role_binding, account_name,
}
use sources_for_knative.Reconcile.Vsphere.Controller.{
  Stores, Cluster, Site, Error, binding_error, config_map_error, account_error, role_binding_error,
  sink_error, config_error, deployment_error, Progress, go, stop, and_then, binding_written,
  binding_found, reconcile_vsphere_binding, config_map_created, config_map_found,
  reconcile_config_map, account_found, reconcile_service_account, role_binding_created,
  role_binding_found, reconcile_role_binding, deployment_written, with_spec, created_deployment,
  updated_deployment, deployment_found, url_of, desired_deployment, with_configs,
  reconcile_deployment, set_sink, resolve_sink, reconcile_kind,
}
use sources_for_knative.Reconcile.Vsphere.Controller.Steps.{with_binding_spec, sink_go}

-- An object cannot be read, or there is none and the create call fails.
abbrev pub NotMade : {S A : Type 0} → Calls S A → String → String → A → S → Type 0
NotMade calls ns name made store =
    (calls.get ns name store ≡ get_failed)
    ⊎ ((calls.get ns name store ≡ not_found) × (calls.create ns made store ≡ none))

-- Nor can it be made, or it is found and the update with the desired spec fails.
abbrev pub NotWritten : {S A : Type 0} → Calls S A → String → String → A → (A → A → A) → S → Type 0
NotWritten {S} {A} calls ns name made over store =
    NotMade calls ns name made store
    ⊎ ((a : A) × (calls.get ns name store ≡ found a) × (calls.update ns (over a made) store ≡ none))

module _ {k : Stores} (site : Site k) (m : Manager) (vms : VsphereSource) where
  abbrev pub Unmade : Url → Cluster k → String → String → Option Deployment → Type 0
  Unmade uri d logging metrics none = Unit
  Unmade uri d logging metrics (some desired) =
      NotWritten site.deployments vms.namespace_name (site.child_name vms.name "-adapter") desired
        (with_spec site m) d.deployments

  -- The deployment cannot be made, or not be written, for a sink that resolved.
  pub record NotDeployed (d : Cluster k) : Type 0 where
    pub uri : Url
    pub logging : String
    pub metrics : String
    pub resolved : site.resolve vms.spec.sink ≡ some uri
    pub logs : site.logging_config ≡ some logging
    pub measures : site.metrics_config ≡ some metrics
    pub unmade : Unmade uri d logging metrics (desired_deployment site m vms uri logging metrics)

  -- What an error says of the cluster in which it is returned.
  abbrev pub Cause : Error → Cluster k → Type 0
  Cause binding_error d =
      NotWritten site.bindings vms.namespace_name (site.child_name vms.name "-vspherebinding")
        (make_vsphere_binding site.child_name vms) with_binding_spec d.bindings
  Cause config_map_error d =
      NotMade site.config_maps vms.namespace_name (site.child_name vms.name "-configmap")
        (make_config_map site.child_name vms) d.config_maps
  Cause account_error d =
      (sa : ServiceAccount)
      → site.accounts.get vms.namespace_name (account_name vms) d.accounts ≢ found sa
  Cause role_binding_error d =
      NotMade site.role_bindings vms.namespace_name (site.child_name vms.name "-rolebinding")
        (make_role_binding site.child_name vms) d.role_bindings
  Cause sink_error d = site.resolve vms.spec.sink ≡ none
  Cause config_error d = (site.logging_config ≡ none) ⊎ (site.metrics_config ≡ none)
  Cause deployment_error d = NotDeployed d

  -- A step that ends the run has a cause for it.
  abbrev pub StopsFor : Progress site m → Type 0
  StopsFor (go s c) = Unit
  StopsFor (stop e s c) = Cause e c

  and_then-StopsFor :
      (p : Progress site m) (next : Status m → Cluster k → Progress site m)
      → StopsFor p
      → ((t : Status m) (d : Cluster k) → p ≡ go t d → StopsFor (next t d))
      → StopsFor (and_then site m p next)
  and_then-StopsFor (go t d) next h rest = rest t d refl
  and_then-StopsFor (stop e t d) next h rest = h

  module _ (s : Status m) (c : Cluster k) where
    binding_written-StopsFor :
        (o : Option (VsphereBinding × k.Bindings))
        → (o ≡ none → Cause binding_error c)
        → StopsFor (binding_written site m s c o)
    unfolding binding_written
    binding_written-StopsFor none h = h refl
    binding_written-StopsFor (some (b, store)) h = tt

    binding_found-StopsFor :
        (l : Lookup VsphereBinding)
        → site.bindings.get vms.namespace_name
            (site.child_name vms.name "-vspherebinding")
            c.bindings
          ≡ l
        → StopsFor (binding_found site m vms s c l)
    unfolding binding_found
    binding_found-StopsFor not_found g = binding_written-StopsFor _ (λ e. inl (inr (g, e)))
    binding_found-StopsFor get_failed g = inl (inl g)
    binding_found-StopsFor (found b) g = binding_written-StopsFor _ (λ e. inr (b, g, e))

    binding-StopsFor : StopsFor (reconcile_vsphere_binding site m vms s c)
    unfolding reconcile_vsphere_binding
    binding-StopsFor = binding_found-StopsFor _ refl

    config_map_created-StopsFor :
        (o : Option (ConfigMap × k.ConfigMaps))
        → (o ≡ none → Cause config_map_error c)
        → StopsFor (config_map_created site m s c o)
    unfolding config_map_created
    config_map_created-StopsFor none h = h refl
    config_map_created-StopsFor (some (cm, store)) h = tt

    config_map_found-StopsFor :
        (l : Lookup ConfigMap)
        → site.config_maps.get vms.namespace_name
            (site.child_name vms.name "-configmap")
            c.config_maps
          ≡ l
        → StopsFor (config_map_found site m vms s c l)
    unfolding config_map_found
    config_map_found-StopsFor not_found g = config_map_created-StopsFor _ (λ e. inr (g, e))
    config_map_found-StopsFor get_failed g = inl g
    config_map_found-StopsFor (found cm) g = tt

    config_map-StopsFor : StopsFor (reconcile_config_map site m vms s c)
    unfolding reconcile_config_map
    config_map-StopsFor = config_map_found-StopsFor _ refl

    account_found-StopsFor :
        (l : Lookup ServiceAccount)
        → site.accounts.get vms.namespace_name (account_name vms) c.accounts ≡ l
        → StopsFor (account_found site m s c l)
    unfolding account_found
    account_found-StopsFor not_found g = λ sa e. let p = sym g ∙ e in absurd cc
    account_found-StopsFor get_failed g = λ sa e. let p = sym g ∙ e in absurd cc
    account_found-StopsFor (found sa) g = tt

    account-StopsFor : StopsFor (reconcile_service_account site m vms s c)
    unfolding reconcile_service_account
    account-StopsFor = account_found-StopsFor _ refl

    role_binding_created-StopsFor :
        (o : Option (RoleBinding × k.RoleBindings))
        → (o ≡ none → Cause role_binding_error c)
        → StopsFor (role_binding_created site m s c o)
    unfolding role_binding_created
    role_binding_created-StopsFor none h = h refl
    role_binding_created-StopsFor (some (rb, store)) h = tt

    role_binding_found-StopsFor :
        (l : Lookup RoleBinding)
        → site.role_bindings.get vms.namespace_name
            (site.child_name vms.name "-rolebinding")
            c.role_bindings
          ≡ l
        → StopsFor (role_binding_found site m vms s c l)
    unfolding role_binding_found
    role_binding_found-StopsFor not_found g = role_binding_created-StopsFor _ (λ e. inr (g, e))
    role_binding_found-StopsFor get_failed g = inl g
    role_binding_found-StopsFor (found rb) g = tt

    role_binding-StopsFor : StopsFor (reconcile_role_binding site m vms s c)
    unfolding reconcile_role_binding
    role_binding-StopsFor = role_binding_found-StopsFor _ refl

    set_sink-StopsFor :
        (o : Option Url) → site.resolve vms.spec.sink ≡ o → StopsFor (set_sink site m s c o)
    unfolding set_sink
    set_sink-StopsFor none g = g
    set_sink-StopsFor (some uri) g = tt

    sink-StopsFor : StopsFor (resolve_sink site m vms s c)
    unfolding resolve_sink
    sink-StopsFor = set_sink-StopsFor _ refl

    deployment_written-StopsFor :
        (o : Option (Deployment × k.Deployments))
        → (o ≡ none → Cause deployment_error c)
        → StopsFor (deployment_written site m s c o)
    unfolding deployment_written
    deployment_written-StopsFor none h = h refl
    deployment_written-StopsFor (some (d, store)) h = tt

    deployment_found-StopsFor :
        (uri : Url) (logging metrics : String) (o : Option Deployment)
        → (Unmade uri c logging metrics o → NotDeployed c)
        → (l : Lookup Deployment)
        → site.deployments.get vms.namespace_name
            (site.child_name vms.name "-adapter")
            c.deployments
          ≡ l
        → StopsFor (deployment_found site m vms s c o l)
    unfolding deployment_found created_deployment updated_deployment
    deployment_found-StopsFor uri logging metrics none h not_found g = h tt
    deployment_found-StopsFor uri logging metrics none h get_failed g = h tt
    deployment_found-StopsFor uri logging metrics none h (found d) g = h tt
    deployment_found-StopsFor uri logging metrics (some desired) h not_found g =
        deployment_written-StopsFor _ (λ e. h (inl (inr (g, e))))
    deployment_found-StopsFor uri logging metrics (some desired) h get_failed g = h (inl (inl g))
    deployment_found-StopsFor uri logging metrics (some desired) h (found d) g =
        deployment_written-StopsFor _ (λ e. h (inr (d, g, e)))

    with_configs-StopsFor :
        (uri : Url)
        → site.resolve vms.spec.sink ≡ some uri
        → s.sink_uri ≡ some uri
        → (logs measures : Option String) → site.logging_config ≡ logs
        → site.metrics_config ≡ measures
        → StopsFor (with_configs site m vms s c logs measures)
    unfolding with_configs
    with_configs-StopsFor uri r u none measures p q = inl p
    with_configs-StopsFor uri r u (some logging) none p q = inr q
    with_configs-StopsFor uri r u (some logging) (some metrics) p q =
        let seen =
          site.deployments.get vms.namespace_name (site.child_name vms.name "-adapter")
            c.deployments in
        subst
          (λ o. StopsFor (
            deployment_found site m vms s c
              (desired_deployment site m vms (url_of site m o) logging metrics) seen))
          (sym u)
          (deployment_found-StopsFor uri logging metrics
            (desired_deployment site m vms uri logging metrics)
            (λ h. record {
              uri = uri;
              logging = logging;
              metrics = metrics;
              resolved = r;
              logs = p;
              measures = q;
              unmade = h;
            })
            seen refl)

    deployment-StopsFor :
        (uri : Url)
        → site.resolve vms.spec.sink ≡ some uri
        → s.sink_uri ≡ some uri
        → StopsFor (reconcile_deployment site m vms s c)
    unfolding reconcile_deployment
    deployment-StopsFor uri r u = with_configs-StopsFor uri r u _ _ refl refl

  pub reconcile_kind-StopsFor :
      (s : Status m) (c : Cluster k) → StopsFor (reconcile_kind site m vms s c)
  unfolding reconcile_kind
  reconcile_kind-StopsFor s c =
      and_then-StopsFor (reconcile_vsphere_binding site m vms s c) _ (binding-StopsFor s c)
        (λ s1 c1 e1.
          and_then-StopsFor (reconcile_config_map site m vms s1 c1) _ (config_map-StopsFor s1 c1)
            (λ s2 c2 e2.
              and_then-StopsFor (reconcile_service_account site m vms s2 c2) _
                (account-StopsFor s2 c2)
                (λ s3 c3 e3.
                  and_then-StopsFor (reconcile_role_binding site m vms s3 c3) _
                    (role_binding-StopsFor s3 c3)
                    (λ s4 c4 e4.
                      and_then-StopsFor (resolve_sink site m vms s4 c4) _ (sink-StopsFor s4 c4)
                        (λ s5 c5 e5.
                          let (uri, resolved, u5, f5) = sink_go site m vms s4 s5 c4 c5 e5 in
                          deployment-StopsFor s5 c5 uri resolved u5)))))
