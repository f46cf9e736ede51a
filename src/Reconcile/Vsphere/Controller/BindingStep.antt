-- ===== src/Reconcile/Vsphere/Controller/BindingStep.antt =====
-- What `reconcileVSphereBinding` has done when it goes on.
use sources_for_knative.Base.{String, Option, none, some, ◌≡◌, refl, ap, ◌∙◌, sym, subst, string_eq}
use sources_for_knative.Kube.{Lookup, found, not_found, get_failed}
use sources_for_knative.Sources.Bindings.{VsphereBinding}
use sources_for_knative.Sources.VsphereSource.{VsphereSource}
use sources_for_knative.Reconcile.Conditions.{
  Manager, Status, propagate_auth_status, propagate_auth_status_sink,
}
use sources_for_knative.Reconcile.Vsphere.{make_vsphere_binding, owned_meta}
use sources_for_knative.Reconcile.Vsphere.Controller.{
  Stores, Cluster, Site, go, binding_written, binding_found, reconcile_vsphere_binding,
}
use sources_for_knative.Reconcile.Vsphere.Controller.Steps.{
  Admission, KeepsBindings, SentTo, BindingIsDesired,
}

make_vsphere_binding_name :
    (child_name : String → String → String) (vms : VsphereSource)
    → (make_vsphere_binding child_name vms).metadata.name ≡ child_name vms.name "-vspherebinding"
unfolding make_vsphere_binding owned_meta
make_vsphere_binding_name child_name vms = refl

module _ {k : Stores} (site : Site k) (m : Manager) (vms : VsphereSource) (s t : Status m)
    (c d : Cluster k) (adm : Admission) where
  binding_written_go :
      (o : Option (VsphereBinding × k.Bindings))
      → binding_written site m s c o ≡ go t d
      → (b : VsphereBinding) × (store : k.Bindings) × (o ≡ some (b, store))
        × (record c { bindings = store } ≡ d)
        × (propagate_auth_status m b.ready s ≡ t)
  unfolding binding_written
  binding_written_go none h = absurd cc
  binding_written_go (some (b, store)) h = (b, store, refl, cc, cc)

  binding_written_desired :
      (sent : VsphereBinding) (o : Option (VsphereBinding × k.Bindings))
      → SentTo vms.namespace_name
          (λ (b : VsphereBinding). b.metadata.name)
          adm.binding
          site.bindings
          sent
          o
      → sent.metadata.name ≡ site.child_name vms.name "-vspherebinding"
      → sent.subject ≡ (make_vsphere_binding site.child_name vms).subject
      → sent.auth ≡ (make_vsphere_binding site.child_name vms).auth
      → binding_written site m s c o ≡ go t d
      → BindingIsDesired site m adm vms d.bindings
        × (record c { bindings = d.bindings } ≡ d)
        × (t.sink_uri ≡ s.sink_uri)
  binding_written_desired sent o kept name subject auth h =
      let (b, store, e, p, q) = binding_written_go o h in
      let store_is : store ≡ d.bindings = ap (λ (x : Cluster k). x.bindings) p in
      let seen =
        subst (λ n. site.bindings.get vms.namespace_name n store ≡ found b) name
          (kept b store e).1 in
      (
        record {
          sent = sent;
          binding = b;
          admitted = (kept b store e).0;
          seen =
              subst
                (λ x.
                  site.bindings.get vms.namespace_name (site.child_name vms.name "-vspherebinding")
                    x
                  ≡ found b)
                store_is seen;
          subject = subject;
          auth = auth;
        },
        subst (λ x. record c { bindings = x } ≡ d) store_is p,
        ap (λ (x : Status m). x.sink_uri) (sym q) ∙ propagate_auth_status_sink m b.ready s,
      )

  binding_found_go :
      KeepsBindings site m adm
      → (l : Lookup VsphereBinding)
      → site.bindings.get vms.namespace_name (site.child_name vms.name "-vspherebinding") c.bindings
        ≡ l
      → binding_found site m vms s c l ≡ go t d
      → BindingIsDesired site m adm vms d.bindings
        × (record c { bindings = d.bindings } ≡ d)
        × (t.sink_uri ≡ s.sink_uri)
  unfolding binding_found
  binding_found_go keeping get_failed g h = absurd cc
  binding_found_go keeping not_found g h =
      binding_written_desired (make_vsphere_binding site.child_name vms) _
        (λ b after e.
          keeping.created vms.namespace_name (make_vsphere_binding site.child_name vms) b c.bindings
            after e)
        (make_vsphere_binding_name site.child_name vms) refl refl h
  binding_found_go keeping (found b) g h =
      let desired = make_vsphere_binding site.child_name vms in
      let sent : VsphereBinding = record b { subject = desired.subject; auth = desired.auth } in
      binding_written_desired sent _
        (λ x after e. keeping.updated vms.namespace_name sent x c.bindings after e)
        (keeping.named vms.namespace_name (site.child_name vms.name "-vspherebinding") b c.bindings
          g)
        refl refl h

  pub binding_go :
      KeepsBindings site m adm
      → reconcile_vsphere_binding site m vms s c ≡ go t d
      → BindingIsDesired site m adm vms d.bindings
        × (record c { bindings = d.bindings } ≡ d)
        × (t.sink_uri ≡ s.sink_uri)
  unfolding reconcile_vsphere_binding
  binding_go keeping h = binding_found_go keeping _ refl h
