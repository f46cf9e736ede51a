-- ===== src/Reconcile/Vsphere/Controller/Order.antt =====
-- What a run of `ReconcileKind` leaves behind, wherever it ends.
use sources_for_knative.Base.{String, Option, none, some, ◌≡◌, refl, ap, ◌∙◌, subst, ◌⊎◌, inl, inr}
use sources_for_knative.Kube.{
  Url, Deployment, ConfigMap, RoleBinding, ServiceAccount, Lookup, found, not_found, get_failed,
}
use sources_for_knative.Sources.Bindings.{VsphereBinding}
use sources_for_knative.Sources.VsphereSource.{VsphereSource}
use sources_for_knative.Reconcile.Conditions.{Manager, Status}
use sources_for_knative.Reconcile.Vsphere.Controller.{
  Stores, Cluster, Site, Progress, go, stop, and_then, binding_written, binding_found,
  reconcile_vsphere_binding, config_map_created, config_map_found, reconcile_config_map,
  account_found, reconcile_service_account, role_binding_created, role_binding_found,
  reconcile_role_binding, deployment_written, created_deployment, updated_deployment,
  deployment_found, with_configs, reconcile_deployment, set_sink, resolve_sink, reconcile_kind,
}
use sources_for_knative.Reconcile.Vsphere.Controller.Steps.{
  FindsConfigMaps, FindsRoleBindings, HasConfigMap, HasAccount, HasRoleBinding, account_go,
}
use sources_for_knative.Reconcile.Vsphere.Controller.ConfigMapStep.{config_map_go}
use sources_for_knative.Reconcile.Vsphere.Controller.RoleBindingStep.{role_binding_go}

module _ {k : Stores} (site : Site k) (m : Manager) (vms : VsphereSource) where
  -- The cluster at the end.
  pub cluster_of : Progress site m → Cluster k
  cluster_of (go s c) = c
  cluster_of (stop e s c) = c

  -- The deployment's store is as it was.
  abbrev Unchanged : Cluster k → Cluster k → Type 0
  Unchanged c d = d.deployments ≡ c.deployments

  -- What the deployment needs is there.
  abbrev pub IsPrepared : Cluster k → Type 0
  IsPrepared d =
      HasConfigMap site m vms d.config_maps
      × HasAccount site m vms d.accounts
      × HasRoleBinding site m vms d.role_bindings

  and_then_order :
      (p : Progress site m) (next : Status m → Cluster k → Progress site m) (c : Cluster k)
      → Unchanged c (cluster_of p)
      → ((t : Status m) (d : Cluster k)
          → p ≡ go t d
          → Unchanged c d
          → Unchanged c (cluster_of (next t d)) ⊎ IsPrepared (cluster_of (next t d)))
      → Unchanged c (cluster_of (and_then site m p next))
        ⊎ IsPrepared (cluster_of (and_then site m p next))
  unfolding cluster_of
  and_then_order (go t d) next c same rest = rest t d refl same
  and_then_order (stop e t d) next c same rest = inl same

  module _ (s : Status m) (c : Cluster k) where
    binding_written-Unchanged :
        (o : Option (VsphereBinding × k.Bindings))
        → Unchanged c (cluster_of (binding_written site m s c o))
    unfolding binding_written cluster_of
    binding_written-Unchanged none = refl
    binding_written-Unchanged (some (b, store)) = refl

    binding_found-Unchanged :
        (l : Lookup VsphereBinding) → Unchanged c (cluster_of (binding_found site m vms s c l))
    unfolding binding_found cluster_of
    binding_found-Unchanged not_found = binding_written-Unchanged _
    binding_found-Unchanged get_failed = refl
    binding_found-Unchanged (found b) = binding_written-Unchanged _

    binding-Unchanged : Unchanged c (cluster_of (reconcile_vsphere_binding site m vms s c))
    unfolding reconcile_vsphere_binding
    binding-Unchanged = binding_found-Unchanged _

    config_map_created-Unchanged :
        (o : Option (ConfigMap × k.ConfigMaps))
        → Unchanged c (cluster_of (config_map_created site m s c o))
    unfolding config_map_created cluster_of
    config_map_created-Unchanged none = refl
    config_map_created-Unchanged (some (cm, store)) = refl

    config_map_found-Unchanged :
        (l : Lookup ConfigMap) → Unchanged c (cluster_of (config_map_found site m vms s c l))
    unfolding config_map_found cluster_of
    config_map_found-Unchanged not_found = config_map_created-Unchanged _
    config_map_found-Unchanged get_failed = refl
    config_map_found-Unchanged (found cm) = refl

    config_map-Unchanged : Unchanged c (cluster_of (reconcile_config_map site m vms s c))
    unfolding reconcile_config_map
    config_map-Unchanged = config_map_found-Unchanged _

    account_found-Unchanged :
        (l : Lookup ServiceAccount) → Unchanged c (cluster_of (account_found site m s c l))
    unfolding account_found cluster_of
    account_found-Unchanged not_found = refl
    account_found-Unchanged get_failed = refl
    account_found-Unchanged (found sa) = refl

    account-Unchanged : Unchanged c (cluster_of (reconcile_service_account site m vms s c))
    unfolding reconcile_service_account
    account-Unchanged = account_found-Unchanged _

    role_binding_created-Unchanged :
        (o : Option (RoleBinding × k.RoleBindings))
        → Unchanged c (cluster_of (role_binding_created site m s c o))
    unfolding role_binding_created cluster_of
    role_binding_created-Unchanged none = refl
    role_binding_created-Unchanged (some (rb, store)) = refl

    role_binding_found-Unchanged :
        (l : Lookup RoleBinding) → Unchanged c (cluster_of (role_binding_found site m vms s c l))
    unfolding role_binding_found cluster_of
    role_binding_found-Unchanged not_found = role_binding_created-Unchanged _
    role_binding_found-Unchanged get_failed = refl
    role_binding_found-Unchanged (found rb) = refl

    role_binding-Unchanged : Unchanged c (cluster_of (reconcile_role_binding site m vms s c))
    unfolding reconcile_role_binding
    role_binding-Unchanged = role_binding_found-Unchanged _

    set_sink-Unchanged : (o : Option Url) → Unchanged c (cluster_of (set_sink site m s c o))
    unfolding set_sink cluster_of
    set_sink-Unchanged none = refl
    set_sink-Unchanged (some uri) = refl

    set_sink-go :
        (o : Option Url) (t : Status m) (d : Cluster k) → set_sink site m s c o ≡ go t d → c ≡ d
    unfolding set_sink
    set_sink-go none t d h = absurd cc
    set_sink-go (some uri) t d h = cc

    deployment_written-IsPrepared :
        (o : Option (Deployment × k.Deployments))
        → IsPrepared c
        → IsPrepared (cluster_of (deployment_written site m s c o))
    unfolding deployment_written cluster_of
    deployment_written-IsPrepared none h = h
    deployment_written-IsPrepared (some (d, store)) h = h

    created-IsPrepared :
        (o : Option Deployment)
        → IsPrepared c
        → IsPrepared (cluster_of (created_deployment site m vms s c o))
    unfolding created_deployment cluster_of
    created-IsPrepared none h = h
    created-IsPrepared (some d) h = deployment_written-IsPrepared _ h

    updated-IsPrepared :
        (old : Deployment) (o : Option Deployment)
        → IsPrepared c
        → IsPrepared (cluster_of (updated_deployment site m vms s c old o))
    unfolding updated_deployment cluster_of
    updated-IsPrepared old none h = h
    updated-IsPrepared old (some d) h = deployment_written-IsPrepared _ h

    deployment_found-IsPrepared :
        (o : Option Deployment) (l : Lookup Deployment)
        → IsPrepared c
        → IsPrepared (cluster_of (deployment_found site m vms s c o l))
    unfolding deployment_found cluster_of
    deployment_found-IsPrepared o not_found h = created-IsPrepared o h
    deployment_found-IsPrepared o get_failed h = h
    deployment_found-IsPrepared o (found old) h = updated-IsPrepared old o h

    with_configs-IsPrepared :
        (logs measures : Option String)
        → IsPrepared c
        → IsPrepared (cluster_of (with_configs site m vms s c logs measures))
    unfolding with_configs cluster_of
    with_configs-IsPrepared none measures h = h
    with_configs-IsPrepared (some logging) none h = h
    with_configs-IsPrepared (some logging) (some metrics) h = deployment_found-IsPrepared _ _ h

    deployment-IsPrepared :
        IsPrepared c → IsPrepared (cluster_of (reconcile_deployment site m vms s c))
    unfolding reconcile_deployment
    deployment-IsPrepared h = with_configs-IsPrepared _ _ h

  sink-Unchanged :
      (s : Status m) (c : Cluster k) → Unchanged c (cluster_of (resolve_sink site m vms s c))
  unfolding resolve_sink
  sink-Unchanged s c = set_sink-Unchanged s c _

  sink_same : (s t : Status m) (c d : Cluster k) → resolve_sink site m vms s c ≡ go t d → c ≡ d
  unfolding resolve_sink
  sink_same s t c d h = set_sink-go s c _ t d h

  prepared :
      FindsConfigMaps site m
      → FindsRoleBindings site m
      → (s1 s2 s3 s4 s5 : Status m) (c1 c2 c3 c4 c5 : Cluster k)
      → reconcile_config_map site m vms s1 c1 ≡ go s2 c2
      → reconcile_service_account site m vms s2 c2 ≡ go s3 c3
      → reconcile_role_binding site m vms s3 c3 ≡ go s4 c4
      → resolve_sink site m vms s4 c4 ≡ go s5 c5
      → IsPrepared c5
  prepared maps roles s1 s2 s3 s4 s5 c1 c2 c3 c4 c5 e2 e3 e4 e5 =
      let (config_map, f2, u2) = config_map_go site m vms s1 s2 c1 c2 maps e2 in
      let (account, f3, u3) = account_go site m vms s2 s3 c2 c3 e3 in
      let (role_binding, f4, u4) = role_binding_go site m vms s3 s4 c3 c4 roles e4 in
      subst IsPrepared (sink_same s4 s5 c4 c5 e5) (
        subst (HasConfigMap site m vms)
            (ap (λ (x : Cluster k). x.config_maps) f3 ∙ ap (λ (x : Cluster k). x.config_maps) f4)
            config_map,
        subst (HasAccount site m vms) (ap (λ (x : Cluster k). x.accounts) f4) account,
        role_binding,
      )

  -- If a config map and a role binding that were created are found under their names, wherever a run
  -- ends, an error included, either the deployments are as they were, or the config map, the service
  -- account and the role binding that the adapter needs are in the cluster.
  pub reconcile_kind_order :
      FindsConfigMaps site m
      → FindsRoleBindings site m
      → (s : Status m) (c : Cluster k)
      → ((cluster_of (reconcile_kind site m vms s c)).deployments ≡ c.deployments)
        ⊎ IsPrepared (cluster_of (reconcile_kind site m vms s c))
  unfolding reconcile_kind
  reconcile_kind_order maps roles s c =
      and_then_order (reconcile_vsphere_binding site m vms s c) _ c (binding-Unchanged s c)
        (λ s1 c1 e1 u1.
          and_then_order (reconcile_config_map site m vms s1 c1) _ c
            (config_map-Unchanged s1 c1 ∙ u1)
            (λ s2 c2 e2 u2.
              and_then_order (reconcile_service_account site m vms s2 c2) _ c
                (account-Unchanged s2 c2 ∙ u2)
                (λ s3 c3 e3 u3.
                  and_then_order (reconcile_role_binding site m vms s3 c3) _ c
                    (role_binding-Unchanged s3 c3 ∙ u3)
                    (λ s4 c4 e4 u4.
                      and_then_order (resolve_sink site m vms s4 c4) _ c (sink-Unchanged s4 c4 ∙ u4)
                        (λ s5 c5 e5 u5. inr (
                          deployment-IsPrepared s5 c5
                            (prepared maps roles s1 s2 s3 s4 s5 c1 c2 c3 c4 c5 e2 e3 e4 e5)))))))
