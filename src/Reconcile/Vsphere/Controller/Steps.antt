-- ===== src/Reconcile/Vsphere/Controller/Steps.antt =====
-- What each step of `ReconcileKind` has done when it goes on, and what a step leaves alone; the steps
-- that write objects are in modules of their own.
use sources_for_knative.Base.{String, Option, none, some, ◌≡◌, refl, ap, sym, subst}
use sources_for_knative.Kube.{
  Url, Deployment, ServiceAccount, ConfigMap, RoleBinding, Lookup, found, not_found, get_failed,
  Calls,
}
use sources_for_knative.Sources.Bindings.{VsphereBinding}
use sources_for_knative.Sources.VsphereSource.{VsphereSource}
use sources_for_knative.Reconcile.Conditions.{Manager, Status}
use sources_for_knative.Reconcile.Vsphere.{make_vsphere_binding, account_name}
use sources_for_knative.Reconcile.Vsphere.Controller.{
  Stores, Cluster, Site, Progress, go, stop, and_then, account_found, reconcile_service_account,
  with_spec, desired_deployment, set_sink, resolve_sink,
}

-- What the API server stores for an object that is sent: defaults, the webhooks' changes (those of
-- the VSphereBinding webhook to the adapter's deployment among them) and its own metadata make it
-- differ. `admitted sent stored` says that `stored` is such a result for `sent`.
pub record Admission : Type 1 where
  pub binding : VsphereBinding → VsphereBinding → Type 0
  pub deployment : Deployment → Deployment → Type 0

-- An object is found under its own name, and the next read sees what the API server made of one that
-- was sent.
pub record IsKeeping {S A : Type 0} (name_of : A → String) (admitted : A → A → Type 0)
    (calls : Calls S A) : Type 0 where
  pub named : (ns name : String) (a : A) (c : S) → calls.get ns name c ≡ found a → name_of a ≡ name
  pub created :
      (ns : String) (sent stored : A) (c after : S)
      → calls.create ns sent c ≡ some (stored, after)
      → admitted sent stored × (calls.get ns (name_of sent) after ≡ found stored)
  pub updated :
      (ns : String) (sent stored : A) (c after : S)
      → calls.update ns sent c ≡ some (stored, after)
      → admitted sent stored × (calls.get ns (name_of sent) after ≡ found stored)

-- Sent again over what was admitted for it, which keeps its metadata, the same spec changes nothing:
-- admission does the same each time.
pub record IsStable {S A : Type 0} (admitted : A → A → Type 0) (over : A → A → A)
    (calls : Calls S A) : Type 0 where
  pub again :
      (ns name : String) (sent stored : A) (c : S)
      → calls.get ns name c ≡ found stored
      → admitted sent stored
      → calls.update ns (over stored sent) c ≡ some (stored, c)

-- An object that was created is found under its name.
pub record IsFinding {S A : Type 0} (name_of : A → String) (calls : Calls S A) : Type 0 where
  pub created :
      (ns : String) (sent stored : A) (c after : S)
      → calls.create ns sent c ≡ some (stored, after)
      → calls.get ns (name_of sent) after ≡ found stored

-- What a write comes to, where the next read sees it.
abbrev pub SentTo :
    {S A : Type 0}
    → String
    → (A → String)
    → (A → A → Type 0)
    → Calls S A
    → A
    → Option (A × S)
    → Type 0
SentTo {S} {A} ns name_of admitted calls sent o =
    (stored : A) (after : S)
    → o ≡ some (stored, after)
    → admitted sent stored × (calls.get ns (name_of sent) after ≡ found stored)

abbrev pub FoundIn :
    {S A : Type 0} → String → (A → String) → Calls S A → A → Option (A × S) → Type 0
FoundIn {S} {A} ns name_of calls sent o =
    (stored : A) (after : S)
    → o ≡ some (stored, after)
    → calls.get ns (name_of sent) after ≡ found stored

-- The spec of one binding over the rest of another.
abbrev pub with_binding_spec : VsphereBinding → VsphereBinding → VsphereBinding
with_binding_spec b desired = record b { subject = desired.subject; auth = desired.auth }

module _ {k : Stores} (site : Site k) (m : Manager) where
  abbrev pub KeepsBindings : Admission → Type 0
  KeepsBindings adm = IsKeeping (λ (b : VsphereBinding). b.metadata.name) adm.binding site.bindings

  abbrev pub KeepsDeployments : Admission → Type 0
  KeepsDeployments adm =
      IsKeeping (λ (d : Deployment). d.metadata.name) adm.deployment site.deployments

  abbrev pub StableBindings : Admission → Type 0
  StableBindings adm = IsStable adm.binding with_binding_spec site.bindings

  abbrev pub StableDeployments : Admission → Type 0
  StableDeployments adm = IsStable adm.deployment (with_spec site m) site.deployments

  abbrev pub FindsConfigMaps : Type 0
  FindsConfigMaps = IsFinding (λ (cm : ConfigMap). cm.metadata.name) site.config_maps

  abbrev pub FindsRoleBindings : Type 0
  FindsRoleBindings = IsFinding (λ (rb : RoleBinding). rb.metadata.name) site.role_bindings

  -- What the calls of a site promise.
  pub record IsKept (adm : Admission) : Type 0 where
    pub bindings : KeepsBindings adm
    pub config_maps : FindsConfigMaps
    pub role_bindings : FindsRoleBindings
    pub deployments : KeepsDeployments adm

  pub and_then_go :
      (p : Progress site m) (next : Status m → Cluster k → Progress site m) (s : Status m)
      (c : Cluster k)
      → and_then site m p next ≡ go s c
      → (t : Status m) × (d : Cluster k) × (p ≡ go t d) × (next t d ≡ go s c)
  and_then_go (go t d) next s c h = (t, d, refl, h)
  and_then_go (stop e t d) next s c h = absurd cc

  -- The binding is found, as the API server admits one with the desired spec.
  pub record BindingIsDesired (adm : Admission) (vms : VsphereSource) (store : k.Bindings)
      : Type 0 where
    pub sent : VsphereBinding
    pub binding : VsphereBinding
    pub admitted : adm.binding sent binding
    pub seen :
        site.bindings.get vms.namespace_name (site.child_name vms.name "-vspherebinding") store
        ≡ found binding
    pub subject : sent.subject ≡ (make_vsphere_binding site.child_name vms).subject
    pub auth : sent.auth ≡ (make_vsphere_binding site.child_name vms).auth

  abbrev pub HasConfigMap : VsphereSource → k.ConfigMaps → Type 0
  HasConfigMap vms store =
      (cm : ConfigMap) × (site.config_maps.get vms.namespace_name
          (site.child_name vms.name "-configmap") store
        ≡ found cm)

  abbrev pub HasAccount : VsphereSource → k.Accounts → Type 0
  HasAccount vms store =
      (sa : ServiceAccount) × (site.accounts.get vms.namespace_name (account_name vms) store
        ≡ found sa)

  abbrev pub HasRoleBinding : VsphereSource → k.RoleBindings → Type 0
  HasRoleBinding vms store =
      (rb : RoleBinding) × (site.role_bindings.get vms.namespace_name
          (site.child_name vms.name "-rolebinding") store
        ≡ found rb)

  -- The deployment is found, as the API server admits one with the spec that the source and the sink
  -- ask for.
  pub record DeploymentIsDesired (adm : Admission) (vms : VsphereSource) (uri : Url)
      (store : k.Deployments) : Type 0 where
    pub logging : String
    pub metrics : String
    pub logs : site.logging_config ≡ some logging
    pub measures : site.metrics_config ≡ some metrics
    pub desired : Deployment
    pub made : desired_deployment site m vms uri logging metrics ≡ some desired
    pub deployment : Deployment
    pub seen :
        site.deployments.get vms.namespace_name (site.child_name vms.name "-adapter") store
        ≡ found deployment
    pub sent : Deployment
    pub has_spec : with_spec site m sent desired ≡ sent
    pub admitted : adm.deployment sent deployment

  -- Steps that go on have changed at most their own store.
  module _ (vms : VsphereSource) (s t : Status m) (c d : Cluster k) where
    account_found_go :
        (l : Lookup ServiceAccount)
        → site.accounts.get vms.namespace_name (account_name vms) c.accounts ≡ l
        → account_found site m s c l ≡ go t d
        → HasAccount vms d.accounts × (c ≡ d) × (t ≡ s)
    unfolding account_found
    account_found_go get_failed g h = absurd cc
    account_found_go not_found g h = absurd cc
    account_found_go (found sa) g h =
        let p : c ≡ d = cc in
        (
          (
            sa,
            subst
                (λ (x : Cluster k).
                  site.accounts.get vms.namespace_name (account_name vms) x.accounts ≡ found sa)
                p g,
          ),
          p,
          cc,
        )

    pub account_go :
        reconcile_service_account site m vms s c ≡ go t d
        → HasAccount vms d.accounts × (c ≡ d) × (t ≡ s)
    unfolding reconcile_service_account
    account_go h = account_found_go _ refl h

    set_sink_go :
        (o : Option Url)
        → set_sink site m s c o ≡ go t d
        → (uri : Url) × (o ≡ some uri) × (t.sink_uri ≡ some uri) × (c ≡ d)
    unfolding set_sink
    set_sink_go none h = absurd cc
    set_sink_go (some uri) h =
        let p : record s { sink_uri = some uri } ≡ t = cc in
        (uri, refl, ap (λ (x : Status m). x.sink_uri) (sym p), cc)

    pub sink_go :
        resolve_sink site m vms s c ≡ go t d
        → (uri : Url) × (site.resolve vms.spec.sink ≡ some uri) × (t.sink_uri ≡ some uri) × (c ≡ d)
    unfolding resolve_sink
    sink_go h = set_sink_go _ h
