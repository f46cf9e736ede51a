-- ===== src/Reconcile/Vsphere/Controller/Settles.antt =====
-- A run of `ReconcileKind` that succeeds, and the run after it.
use sources_for_knative.Base.{some, ◌≡◌, ap, ◌∙◌, sym, subst}
use sources_for_knative.Kube.{Url}
use sources_for_knative.Binding.{VAuthSpec}
use sources_for_knative.Sources.Bindings.{VsphereBinding, Subject}
use sources_for_knative.Sources.VsphereSource.{VsphereSource}
use sources_for_knative.Reconcile.Conditions.{
  Manager, Status, propagate_auth_status, propagate_adapter_status, propagate_adapter_status_sink,
}
use sources_for_knative.Reconcile.Vsphere.Controller.{
  Stores, Cluster, Site, go, binding_written, binding_found, reconcile_vsphere_binding,
  config_map_found, reconcile_config_map, account_found, reconcile_service_account,
  role_binding_found, reconcile_role_binding, deployment_written, updated_deployment,
  deployment_found, url_of, with_spec, with_configs, reconcile_deployment, set_sink, resolve_sink,
  reconcile_kind,
}
use sources_for_knative.Reconcile.Vsphere.Controller.Steps.{
  Admission, StableBindings, StableDeployments, with_binding_spec, IsKept, and_then_go,
  BindingIsDesired, HasConfigMap, HasAccount, HasRoleBinding, DeploymentIsDesired, account_go,
  sink_go,
}
use sources_for_knative.Reconcile.Vsphere.Controller.BindingStep.{binding_go}
use sources_for_knative.Reconcile.Vsphere.Controller.ConfigMapStep.{config_map_go}
use sources_for_knative.Reconcile.Vsphere.Controller.RoleBindingStep.{role_binding_go}
use sources_for_knative.Reconcile.Vsphere.Controller.Deploying.{deployment_go}

module _ {k : Stores} (site : Site k) (m : Manager) (adm : Admission) (vms : VsphereSource) where
  -- What the source asks for is in the cluster, as the API server admits it, and its sink resolves to
  -- the URI.
  pub record Done (uri : Url) (c : Cluster k) : Type 0 where
    pub binding : BindingIsDesired site m adm vms c.bindings
    pub config_map : HasConfigMap site m vms c.config_maps
    pub account : HasAccount site m vms c.accounts
    pub role_binding : HasRoleBinding site m vms c.role_bindings
    pub resolved : site.resolve vms.spec.sink ≡ some uri
    pub deployment : DeploymentIsDesired site m adm vms uri c.deployments

  -- What the steps have found or written is still there at the end.
  still_there :
      (uri : Url) (s : Status m) (c1 c2 c3 c4 c5 d : Cluster k)
      → BindingIsDesired site m adm vms c1.bindings
      → HasConfigMap site m vms c2.config_maps × (record c1 { config_maps = c2.config_maps } ≡ c2)
      → HasAccount site m vms c3.accounts × (c2 ≡ c3)
      → HasRoleBinding site m vms c4.role_bindings
        × (record c3 { role_bindings = c4.role_bindings } ≡ c4)
      → (site.resolve vms.spec.sink ≡ some uri) × (s.sink_uri ≡ some uri) × (c4 ≡ c5)
      → DeploymentIsDesired site m adm vms (url_of site m s.sink_uri) d.deployments
        × (record c5 { deployments = d.deployments } ≡ d)
      → Done uri d
  still_there uri s c1 c2 c3 c4 c5 d binding (config_map, f2) (account, f3) (role_binding, f4)
        (resolved, u5, f5) (deployment, f6) =
      let roles : c4.role_bindings ≡ d.role_bindings =
        ap (λ (x : Cluster k). x.role_bindings) f5 ∙ ap (λ (x : Cluster k). x.role_bindings) f6 in
      let accounts : c3.accounts ≡ d.accounts =
        ap (λ (x : Cluster k). x.accounts) f4
        ∙ (ap (λ (x : Cluster k). x.accounts) f5 ∙ ap (λ (x : Cluster k). x.accounts) f6) in
      let maps : c2.config_maps ≡ d.config_maps =
        ap (λ (x : Cluster k). x.config_maps) f3
        ∙ (ap (λ (x : Cluster k). x.config_maps) f4
            ∙ (ap (λ (x : Cluster k). x.config_maps) f5
                ∙ ap (λ (x : Cluster k). x.config_maps) f6)) in
      let bindings : c1.bindings ≡ d.bindings =
        ap (λ (x : Cluster k). x.bindings) f2
        ∙ (ap (λ (x : Cluster k). x.bindings) f3
            ∙ (ap (λ (x : Cluster k). x.bindings) f4
                ∙ (ap (λ (x : Cluster k). x.bindings) f5
                    ∙ ap (λ (x : Cluster k). x.bindings) f6))) in
      record {
        binding = subst (BindingIsDesired site m adm vms) bindings binding;
        config_map = subst (HasConfigMap site m vms) maps config_map;
        account = subst (HasAccount site m vms) accounts account;
        role_binding = subst (HasRoleBinding site m vms) roles role_binding;
        resolved = resolved;
        deployment =
            subst (λ o. DeploymentIsDesired site m adm vms (url_of site m o) d.deployments) u5
              deployment;
      }

  -- Whatever the API server makes of what it is sent, if reads see its writes, a run that succeeds has
  -- brought the cluster to what the source asks for: the binding and the deployment that are found are
  -- what was admitted for ones with the desired spec, which has the URI that is set in the status.
  pub reconcile_kind-Done :
      IsKept site m adm
      → (s t : Status m) (c d : Cluster k) → reconcile_kind site m vms s c ≡ go t d
      → (uri : Url) × Done uri d × (t.sink_uri ≡ some uri)
  unfolding reconcile_kind
  reconcile_kind-Done kept s t c d h =
      let (s1, c1, e1, h1) =
        and_then_go site m (reconcile_vsphere_binding site m vms s c) _ t d h in
      let (s2, c2, e2, h2) = and_then_go site m (reconcile_config_map site m vms s1 c1) _ t d h1 in
      let (s3, c3, e3, h3) =
        and_then_go site m (reconcile_service_account site m vms s2 c2) _ t d h2 in
      let (s4, c4, e4, h4) =
        and_then_go site m (reconcile_role_binding site m vms s3 c3) _ t d h3 in
      let (s5, c5, e5, e6) = and_then_go site m (resolve_sink site m vms s4 c4) _ t d h4 in
      let (binding, f1, u1) = binding_go site m vms s s1 c c1 adm kept.bindings e1 in
      let (config_map, f2, u2) = config_map_go site m vms s1 s2 c1 c2 kept.config_maps e2 in
      let (account, f3, u3) = account_go site m vms s2 s3 c2 c3 e3 in
      let (role_binding, f4, u4) = role_binding_go site m vms s3 s4 c3 c4 kept.role_bindings e4 in
      let (uri, resolved, u5, f5) = sink_go site m vms s4 s5 c4 c5 e5 in
      let (deployment, f6, u6) = deployment_go site m adm vms s5 t c5 d kept.deployments e6 in
      (
        uri,
        still_there uri s5 c1 c2 c3 c4 c5 d binding (config_map, f2) (account, f3)
            (role_binding, f4) (resolved, u5, f5) (deployment, f6),
        u6 ∙ u5,
      )

  same_binding :
      (b sent : VsphereBinding) (subject : Subject) (auth : VAuthSpec)
      → sent.subject ≡ subject
      → sent.auth ≡ auth
      → record b { subject = subject; auth = auth } ≡ with_binding_spec b sent
  same_binding b sent subject auth p q =
      ap (λ x. record b { subject = x; auth = auth }) (sym p)
      ∙ ap (λ x. record b { subject = sent.subject; auth = x }) (sym q)

  module _ (s : Status m) (c : Cluster k) where
    binding_settles :
        StableBindings site m adm
        → (d : BindingIsDesired site m adm vms c.bindings)
        → reconcile_vsphere_binding site m vms s c
          ≡ go (propagate_auth_status m d.binding.ready s) c
    unfolding reconcile_vsphere_binding binding_found binding_written
    binding_settles keeping d =
        ap (binding_found site m vms s c) d.seen
        ∙ ap
            (λ b. binding_written site m s c (site.bindings.update vms.namespace_name b c.bindings))
            (same_binding d.binding d.sent _ _ d.subject d.auth)
        ∙ ap (binding_written site m s c) (
            keeping.again vms.namespace_name (site.child_name vms.name "-vspherebinding") d.sent
              d.binding c.bindings d.seen d.admitted)

    config_map_settles :
        HasConfigMap site m vms c.config_maps → reconcile_config_map site m vms s c ≡ go s c
    unfolding reconcile_config_map config_map_found
    config_map_settles (cm, seen) = ap (config_map_found site m vms s c) seen

    account_settles :
        HasAccount site m vms c.accounts → reconcile_service_account site m vms s c ≡ go s c
    unfolding reconcile_service_account account_found
    account_settles (sa, seen) = ap (account_found site m s c) seen

    role_binding_settles :
        HasRoleBinding site m vms c.role_bindings → reconcile_role_binding site m vms s c ≡ go s c
    unfolding reconcile_role_binding role_binding_found
    role_binding_settles (rb, seen) = ap (role_binding_found site m vms s c) seen

    sink_settles :
        (uri : Url)
        → site.resolve vms.spec.sink ≡ some uri
        → resolve_sink site m vms s c ≡ go (record s { sink_uri = some uri }) c
    unfolding resolve_sink set_sink
    sink_settles uri p = ap (set_sink site m s c) p

    deployment_settles :
        StableDeployments site m adm
        → (d : DeploymentIsDesired site m adm vms (url_of site m s.sink_uri) c.deployments)
        → reconcile_deployment site m vms s c
          ≡ go (propagate_adapter_status m d.deployment.conditions s) c
    unfolding reconcile_deployment with_configs deployment_found updated_deployment
        deployment_written
    deployment_settles keeping d =
        ap (λ o. with_configs site m vms s c o site.metrics_config) d.logs
        ∙ (ap (with_configs site m vms s c (some d.logging)) d.measures
            ∙ (ap (deployment_found site m vms s c _) d.seen
                ∙ (ap (updated_deployment site m vms s c d.deployment) d.made
                    ∙ (ap
                          (λ x.
                            deployment_written site m s c
                              (site.deployments.update vms.namespace_name x c.deployments))
                          (ap (with_spec site m d.deployment) d.has_spec)
                        ∙ ap (deployment_written site m s c) (
                            keeping.again vms.namespace_name (site.child_name vms.name "-adapter")
                              d.sent d.deployment c.deployments d.seen d.admitted)))))

  -- If the same spec, sent again over what the API server admitted for it, changes nothing, a run on a
  -- cluster that has what the source asks for succeeds, whatever the status, and changes nothing in
  -- the cluster; the status then has the URI of the sink.
  pub reconcile_kind_settles :
      StableBindings site m adm
      → StableDeployments site m adm
      → (uri : Url) (s : Status m) (c : Cluster k) → Done uri c
      → (t : Status m) × (reconcile_kind site m vms s c ≡ go t c) × (t.sink_uri ≡ some uri)
  unfolding reconcile_kind
  reconcile_kind_settles bindings deployments uri s c done =
      let s1 = propagate_auth_status m done.binding.binding.ready s in
      let s2 : Status m = record s1 { sink_uri = some uri } in
      (
        propagate_adapter_status m done.deployment.deployment.conditions s2,
        rw (binding_settles s c bindings done.binding) (
            rw (config_map_settles s1 c done.config_map) (
              rw (account_settles s1 c done.account) (
                rw (role_binding_settles s1 c done.role_binding) (
                  rw (sink_settles s1 c uri done.resolved)
                    (deployment_settles s2 c deployments done.deployment))))),
        propagate_adapter_status_sink m done.deployment.deployment.conditions s2,
      )
