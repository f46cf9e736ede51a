-- ===== src/Reconcile/Vsphere/Controller/Deploying.antt =====
-- What `reconcileDeployment` has done when it goes on.
use sources_for_knative.Base.{String, Option, none, some, ◌≡◌, refl, ap, ◌∙◌, sym, subst, string_eq}
use sources_for_knative.Kube.{Url, Deployment, Lookup, found, not_found, get_failed}
use sources_for_knative.Vsphere.Checkpoint.{Result, ok, err}
use sources_for_knative.Sources.VsphereSource.{VsphereSource}
use sources_for_knative.Reconcile.Conditions.{
  Manager, Status, propagate_adapter_status, propagate_adapter_status_sink,
}
use sources_for_knative.Reconcile.Vsphere.{
  owned_meta, make_deployment, made, deployment_with, AdapterArgs,
}
use sources_for_knative.Reconcile.Vsphere.Controller.{
  Stores, Cluster, Site, go, deployment_written, with_spec, created_deployment, updated_deployment,
  deployment_found, url_of, desired_deployment, with_configs, reconcile_deployment,
}
use sources_for_knative.Reconcile.Vsphere.Controller.Steps.{
  Admission, KeepsDeployments, DeploymentIsDesired,
}

module _ {k : Stores} (site : Site k) (m : Manager) (adm : Admission) (vms : VsphereSource) where
  made_name :
      (uri : Url) (args : AdapterArgs) (r : Result site.formats.Bytes) (d : Deployment)
      → made site.formats site.text_of site.string_of site.unicode_lower site.marshal
          site.child_name vms uri args r
        ≡ some d
      → d.metadata.name ≡ site.child_name vms.name "-adapter"
  unfolding made deployment_with owned_meta
  made_name uri args (err e) d h = absurd cc
  made_name uri args (ok bytes) d h =
      let p : deployment_with site.formats site.text_of site.string_of site.unicode_lower
            site.marshal site.child_name vms uri args bytes
          ≡ d =
        cc in
      sym (ap (λ (x : Deployment). x.metadata.name) p)

  desired_name :
      (uri : Url) (logging metrics : String) (d : Deployment)
      → desired_deployment site m vms uri logging metrics ≡ some d
      → d.metadata.name ≡ site.child_name vms.name "-adapter"
  unfolding make_deployment
  desired_name uri logging metrics d h = made_name uri _ _ d h

  module _ (s t : Status m) (c d : Cluster k) where
    -- What was admitted for the deployment that was sent is found, and only its store has changed.
    abbrev Wrote : Deployment → Type 0
    Wrote sent =
        (stored : Deployment) × adm.deployment sent stored
        × (site.deployments.get vms.namespace_name sent.metadata.name d.deployments ≡ found stored)
        × (record c { deployments = d.deployments } ≡ d)
        × (t.sink_uri ≡ s.sink_uri)

    deployment_written_go :
        (sent : Deployment) (o : Option (Deployment × k.Deployments))
        → ((x : Deployment) (after : k.Deployments)
            → o ≡ some (x, after)
            → adm.deployment sent x
              × (site.deployments.get vms.namespace_name sent.metadata.name after ≡ found x))
        → deployment_written site m s c o ≡ go t d
        → Wrote sent
    unfolding deployment_written
    deployment_written_go sent none kept h = absurd cc
    deployment_written_go sent (some (x, store)) kept h =
        let p : record c { deployments = store } ≡ d = cc in
        let q : propagate_adapter_status m x.conditions s ≡ t = cc in
        let store_is : store ≡ d.deployments = ap (λ (y : Cluster k). y.deployments) p in
        (
          x,
          (kept x store refl).0,
          subst (λ y. site.deployments.get vms.namespace_name sent.metadata.name y ≡ found x)
              store_is (kept x store refl).1,
          subst (λ y. record c { deployments = y } ≡ d) store_is p,
          ap (λ (y : Status m). y.sink_uri) (sym q)
              ∙ propagate_adapter_status_sink m x.conditions s,
        )

    -- The deployment with the desired spec was written.
    abbrev Deployed : Option Deployment → Type 0
    Deployed o =
        (desired : Deployment) × (sent : Deployment) × (o ≡ some desired)
        × (sent.metadata.name ≡ site.child_name vms.name "-adapter")
        × (with_spec site m sent desired ≡ sent)
        × Wrote sent

    created_deployment_go :
        KeepsDeployments site m adm
        → (o : Option Deployment)
        → ((x : Deployment) → o ≡ some x → x.metadata.name ≡ site.child_name vms.name "-adapter")
        → created_deployment site m vms s c o ≡ go t d
        → Deployed o
    unfolding created_deployment
    created_deployment_go keeping none name h = absurd cc
    created_deployment_go keeping (some desired) name h = (
      desired,
      desired,
      refl,
      name desired refl,
      refl,
      deployment_written_go desired _
          (λ x after e. keeping.created vms.namespace_name desired x c.deployments after e) h,
    )

    updated_deployment_go :
        KeepsDeployments site m adm
        → (old : Deployment) (o : Option Deployment)
        → old.metadata.name ≡ site.child_name vms.name "-adapter"
        → updated_deployment site m vms s c old o ≡ go t d
        → Deployed o
    unfolding updated_deployment
    updated_deployment_go keeping old none name h = absurd cc
    updated_deployment_go keeping old (some desired) name h = (
      desired,
      with_spec site m old desired,
      refl,
      name,
      refl,
      deployment_written_go (with_spec site m old desired) _
          (λ x after e.
            keeping.updated vms.namespace_name (with_spec site m old desired) x c.deployments after
              e)
          h,
    )

    deployment_found_go :
        KeepsDeployments site m adm
        → (o : Option Deployment)
        → ((x : Deployment) → o ≡ some x → x.metadata.name ≡ site.child_name vms.name "-adapter")
        → (l : Lookup Deployment)
        → site.deployments.get vms.namespace_name
            (site.child_name vms.name "-adapter")
            c.deployments
          ≡ l
        → deployment_found site m vms s c o l ≡ go t d
        → Deployed o
    unfolding deployment_found
    deployment_found_go keeping o name get_failed g h = absurd cc
    deployment_found_go keeping o name not_found g h = created_deployment_go keeping o name h
    deployment_found_go keeping o name (found old) g h =
        updated_deployment_go keeping old o
          (keeping.named vms.namespace_name (site.child_name vms.name "-adapter") old c.deployments
            g)
          h

    with_configs_go :
        KeepsDeployments site m adm
        → (logs measures : Option String) → site.logging_config ≡ logs
        → site.metrics_config ≡ measures
        → with_configs site m vms s c logs measures ≡ go t d
        → DeploymentIsDesired site m adm vms (url_of site m s.sink_uri) d.deployments
          × (record c { deployments = d.deployments } ≡ d)
          × (t.sink_uri ≡ s.sink_uri)
    unfolding with_configs
    with_configs_go keeping none measures p q h = absurd cc
    with_configs_go keeping (some logging) none p q h = absurd cc
    with_configs_go keeping (some logging) (some metrics) p q h =
        let (desired, sent, made_it, name, spec, wrote) =
          deployment_found_go keeping
            (desired_deployment site m vms (url_of site m s.sink_uri) logging metrics)
            (desired_name (url_of site m s.sink_uri) logging metrics) _ refl h in
        let (stored, admitted, seen, frame, sink) = wrote in
        (
          record {
            logging = logging;
            metrics = metrics;
            logs = p;
            measures = q;
            desired = desired;
            made = made_it;
            deployment = stored;
            seen =
                subst (λ n. site.deployments.get vms.namespace_name n d.deployments ≡ found stored)
                  name seen;
            sent = sent;
            has_spec = spec;
            admitted = admitted;
          },
          frame,
          sink,
        )

    pub deployment_go :
        KeepsDeployments site m adm
        → reconcile_deployment site m vms s c ≡ go t d
        → DeploymentIsDesired site m adm vms (url_of site m s.sink_uri) d.deployments
          × (record c { deployments = d.deployments } ≡ d)
          × (t.sink_uri ≡ s.sink_uri)
    unfolding reconcile_deployment
    deployment_go keeping h = with_configs_go keeping _ _ refl refl h
