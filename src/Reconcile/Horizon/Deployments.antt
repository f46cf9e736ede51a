-- ===== src/Reconcile/Horizon/Deployments.antt =====
-- `ReconcileDeployment` of pkg/reconciler/horizonsource/deployment.go: two runs of it.
use sources_for_knative.Base.{
  ℕ, String, Option, none, some, List, [], ◌∷◌, true, false, ◌≡◌, ◌⊎◌, inl, inr, refl, sym, ap,
  subst, Eq, string_eq, test_refl, Bool-cases, Option-cases,
}
use sources_for_knative.Kube.{
  EnvVar, Container, PodSpec, Deployment, Lookup, found, not_found, get_failed,
}
use sources_for_knative.Sources.HorizonSource.{HorizonSource}
use sources_for_knative.Reconcile.Sync.{get_container, pod_spec_sync, sort_env}
use sources_for_knative.Reconcile.Sync.Single.{get_container_only, pod_spec_sync_single}
use sources_for_knative.Reconcile.Horizon.{
  Event, normal_event, warning_event, other_error, Services, Made, is_controlled_by,
  deployment_created, deployment_updated, owned_deployment, deployment_found, reconcile_deployment,
}

-- What is stored keeps the metadata and, of each container found by name, the image and the
-- variables; other fields may get defaults.
pub record Keeps (sent stored : Deployment) : Type 0 where
  pub same_metadata : stored.metadata ≡ sent.metadata
  pub same_container :
      (name : String) (n : ℕ) (ec : Container)
      → get_container name sent.pod.containers ≡ some (n, ec)
      → (nc : Container) × (get_container name stored.pod.containers ≡ some (n, nc))
        × (nc.image ≡ ec.image)
        × (nc.env ≡ ec.env)

-- A call that succeeds is seen by the next read.
pub record IsStoring {Cluster : Type 0} (services : Services Cluster) : Type 0 where
  pub named :
      (ns name : String) (c : Cluster) (d : Deployment)
      → services.deployments.get ns name c ≡ found d
      → d.metadata.name ≡ name
  pub created :
      (ns : String) (d stored : Deployment) (c after : Cluster)
      → services.deployments.create ns d c ≡ some (stored, after)
      → Keeps d stored × (services.deployments.get ns d.metadata.name after ≡ found stored)
  pub updated :
      (ns : String) (d stored : Deployment) (c after : Cluster)
      → services.deployments.update ns d c ≡ some (stored, after)
      → Keeps d stored × (services.deployments.get ns d.metadata.name after ≡ found stored)

-- Nothing happened, or what happened is a normal event.
abbrev pub IsQuiet : Option Event → Type 0
IsQuiet e =
    (e ≡ none)
    ⊎ ((reason : String) × (ns : String) × (name : String) × (e
          ≡ some (normal_event reason ns name)))

warning_not_quiet : (reason ns name : String) → IsQuiet (some (warning_event reason ns name)) → ⊥
warning_not_quiet reason ns name (inl h) = absurd cc
warning_not_quiet reason ns name (inr (r, n, m, h)) = absurd cc

error_not_quiet : (t : String) → IsQuiet (some (other_error t)) → ⊥
error_not_quiet t (inl h) = absurd cc
error_not_quiet t (inr (r, n, m, h)) = absurd cc

is_controlled_by_refl :
    (o : Option String) (uid : String) → o ≡ some uid → is_controlled_by o uid ≡ true
unfolding is_controlled_by
is_controlled_by_refl o uid h = rw (h, test_refl uid)

module _ {Cluster : Type 0} (services : Services Cluster) (same_env : Eq (List EnvVar))
    (same_pod : Eq PodSpec) where
  -- A deployment that keeps the pod spec needs no update.
  Keeps-in_sync :
      (spare : ℕ) (expected stored : Deployment) (ec : Container)
      → expected.pod.containers ≡ ec ∷ []
      → (n : ℕ) × (nc : Container) × (get_container ec.name stored.pod.containers ≡ some (n, nc))
        × (nc.image ≡ ec.image)
        × (nc.env ≡ ec.env)
      → pod_spec_sync same_env same_pod spare expected.pod stored.pod ≡ false
  Keeps-in_sync spare expected stored ec h (n, nc, g, image, env) =
      (pod_spec_sync_single same_env same_pod spare n expected.pod stored.pod ec nc h g).1
        (image, ap sort_env (sym env))

  reconcile_reuses :
      (src : HorizonSource) (expected ra : Deployment) (c : Cluster)
      → services.deployments.get src.namespace_name expected.metadata.name c ≡ found ra
      → is_controlled_by ra.metadata.controller src.uid ≡ true
      → pod_spec_sync same_env same_pod (services.spare ra) expected.pod ra.pod ≡ false
      → reconcile_deployment services same_env same_pod src expected c
        ≡ record { object = some ra; event = none; cluster = c }
  unfolding reconcile_deployment deployment_found owned_deployment
  reconcile_reuses src expected ra c g o s = rw (g, o, s) refl

  -- What is proved of each branch of the first run.
  abbrev Settles : HorizonSource → Deployment → Made Cluster Deployment → Type 0
  Settles src expected first =
      IsQuiet first.event
      → reconcile_deployment services same_env same_pod src expected first.cluster
        ≡ record { object = first.object; event = none; cluster = first.cluster }

  module _ (storing : IsStoring services) where
    stored-Settles :
        (src : HorizonSource) (expected sent stored : Deployment) (ec : Container) (after : Cluster)
        → expected.pod.containers ≡ ec ∷ []
        → sent.pod ≡ expected.pod
        → sent.metadata.name ≡ expected.metadata.name
        → is_controlled_by sent.metadata.controller src.uid ≡ true
        → Keeps sent stored
          × (services.deployments.get src.namespace_name sent.metadata.name after ≡ found stored)
        → reconcile_deployment services same_env same_pod src expected after
          ≡ record { object = some stored; event = none; cluster = after }
    stored-Settles src expected sent stored ec after one pod name owned (keeps, seen) =
        let there =
          subst (λ p. get_container ec.name p.containers ≡ some (0, ec)) (sym pod)
            (get_container_only expected.pod.containers ec one) in
        let (nc, g, image, env) = keeps.same_container ec.name 0 ec there in
        reconcile_reuses src expected stored after
          (subst (λ n. services.deployments.get src.namespace_name n after ≡ found stored) name
            seen)
          (subst (λ md. is_controlled_by md.controller src.uid ≡ true) (sym keeps.same_metadata)
            owned)
          (Keeps-in_sync (services.spare stored) expected stored ec one (0, nc, g, image, env))

    created-Settles :
        (src : HorizonSource) (expected : Deployment) (ec : Container) (c : Cluster)
        → expected.pod.containers ≡ ec ∷ []
        → expected.metadata.controller ≡ some src.uid
        → Settles src expected (
            deployment_created services same_env same_pod expected c
              (services.deployments.create src.namespace_name expected c))
    unfolding deployment_created
    created-Settles src expected ec c one owner quiet =
        elim (Option-cases (services.deployments.create src.namespace_name expected c)) [
          | inl e ↦ absurd (warning_not_quiet _ _ _ (rw e at quiet))
          | inr ((stored, after), e) ↦ rw e (
              stored-Settles src expected expected stored ec after one refl refl
                (is_controlled_by_refl expected.metadata.controller src.uid owner)
                (storing.created src.namespace_name expected stored c after e))
        ]

    updated-Settles :
        (src : HorizonSource) (expected ra : Deployment) (ec : Container) (c : Cluster)
        → expected.pod.containers ≡ ec ∷ []
        → ra.metadata.name ≡ expected.metadata.name
        → is_controlled_by ra.metadata.controller src.uid ≡ true
        → Settles src expected (
            deployment_updated services same_env same_pod c
              (services.deployments.update src.namespace_name (record ra { pod = expected.pod }) c))
    unfolding deployment_updated
    updated-Settles src expected ra ec c one name owned quiet =
        let sent : Deployment = record ra { pod = expected.pod } in
        elim (Option-cases (services.deployments.update src.namespace_name sent c)) [
          | inl e ↦ absurd (error_not_quiet _ (rw e at quiet))
          | inr ((stored, after), e) ↦ rw e (
              stored-Settles src expected sent stored ec after one refl name owned
                (storing.updated src.namespace_name sent stored c after e))
        ]

    owned-Settles :
        (src : HorizonSource) (expected ra : Deployment) (ec : Container) (c : Cluster)
        → expected.pod.containers ≡ ec ∷ []
        → services.deployments.get src.namespace_name expected.metadata.name c ≡ found ra
        → is_controlled_by ra.metadata.controller src.uid ≡ true
        → Settles src expected
            (owned_deployment services same_env same_pod src.namespace_name expected c ra)
    unfolding owned_deployment
    owned-Settles src expected ra ec c one g owned quiet =
        elim (Bool-cases
          (pod_spec_sync same_env same_pod (services.spare ra) expected.pod ra.pod)) [
            | inl s ↦ rw s (
                updated-Settles src expected ra ec c one
                  (storing.named src.namespace_name expected.metadata.name c ra g) owned
                  (rw s at quiet))
            | inr s ↦ rw s (reconcile_reuses src expected ra c g owned s)
          ]

    found-Settles :
        (src : HorizonSource) (expected : Deployment) (ec : Container) (c : Cluster)
        → expected.pod.containers ≡ ec ∷ []
        → expected.metadata.controller ≡ some src.uid
        → (l : Lookup Deployment)
        → services.deployments.get src.namespace_name expected.metadata.name c ≡ l
        → Settles src expected (deployment_found services same_env same_pod src expected c l)
    unfolding deployment_found
    found-Settles src expected ec c one owner get_failed g quiet = absurd (error_not_quiet _ quiet)
    found-Settles src expected ec c one owner not_found g quiet =
        created-Settles src expected ec c one owner quiet
    found-Settles src expected ec c one owner (found ra) g quiet =
        elim (Bool-cases (is_controlled_by ra.metadata.controller src.uid)) [
          | inl o ↦ rw o (owned-Settles src expected ra ec c one g o (rw o at quiet))
          | inr o ↦ absurd (error_not_quiet _ (rw o at quiet))
        ]

    reconcile_is :
        (src : HorizonSource) (expected : Deployment) (c : Cluster)
        → deployment_found services same_env same_pod src expected c
            (services.deployments.get src.namespace_name expected.metadata.name c)
          ≡ reconcile_deployment services same_env same_pod src expected c
    unfolding reconcile_deployment
    reconcile_is src expected c = refl

    -- A run of `ReconcileDeployment` that ends without an error leaves a cluster in which the next
    -- run, for the same deployment, changes nothing and reports nothing: for a deployment with one
    -- container that the source owns, where the API server shows what it stored.
    pub reconcile_deployment_settles :
        (src : HorizonSource) (expected : Deployment) (ec : Container) (c : Cluster)
        → expected.pod.containers ≡ ec ∷ []
        → expected.metadata.controller ≡ some src.uid
        → IsQuiet (reconcile_deployment services same_env same_pod src expected c).event
        → reconcile_deployment services same_env same_pod src expected
            (reconcile_deployment services same_env same_pod src expected c).cluster
          ≡ record (reconcile_deployment services same_env same_pod src expected c) { event = none }
    reconcile_deployment_settles src expected ec c one owner =
        subst (Settles src expected) (reconcile_is src expected c) (
          found-Settles src expected ec c one owner
            (services.deployments.get src.namespace_name expected.metadata.name c) refl)
