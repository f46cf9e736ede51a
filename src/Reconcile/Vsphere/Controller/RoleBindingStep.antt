-- ===== src/Reconcile/Vsphere/Controller/RoleBindingStep.antt =====
-- What `reconcileRoleBinding` has done when it goes on.
use sources_for_knative.Base.{String, Option, none, some, ◌≡◌, refl, ap, subst, string_eq}
use sources_for_knative.Kube.{RoleBinding, Lookup, found, not_found, get_failed}
use sources_for_knative.Sources.VsphereSource.{VsphereSource}
use sources_for_knative.Reconcile.Conditions.{Manager, Status}
use sources_for_knative.Reconcile.Vsphere.{make_role_binding, owned_meta}
use sources_for_knative.Reconcile.Vsphere.Controller.{
  Stores, Cluster, Site, go, role_binding_created, role_binding_found, reconcile_role_binding,
}
use sources_for_knative.Reconcile.Vsphere.Controller.Steps.{
  FindsRoleBindings, FoundIn, HasRoleBinding,
}

make_role_binding_name :
    (child_name : String → String → String) (vms : VsphereSource)
    → (make_role_binding child_name vms).metadata.name ≡ child_name vms.name "-rolebinding"
unfolding make_role_binding owned_meta
make_role_binding_name child_name vms = refl

module _ {k : Stores} (site : Site k) (m : Manager) (vms : VsphereSource) (s t : Status m)
    (c d : Cluster k) where
  role_binding_created_go :
      (o : Option (RoleBinding × k.RoleBindings))
      → FoundIn vms.namespace_name
          (λ (x : RoleBinding). x.metadata.name)
          site.role_bindings
          (make_role_binding site.child_name vms)
          o
      → role_binding_created site m s c o ≡ go t d
      → HasRoleBinding site m vms d.role_bindings
        × (record c { role_bindings = d.role_bindings } ≡ d)
        × (t ≡ s)
  unfolding role_binding_created
  role_binding_created_go none kept h = absurd cc
  role_binding_created_go (some (rb, store)) kept h =
      let p : record c { role_bindings = store } ≡ d = cc in
      let store_is : store ≡ d.role_bindings = ap (λ (x : Cluster k). x.role_bindings) p in
      let seen =
        subst (λ n. site.role_bindings.get vms.namespace_name n store ≡ found rb)
          (make_role_binding_name site.child_name vms) (kept rb store refl) in
      (
        (
          rb,
          subst
              (λ x.
                site.role_bindings.get vms.namespace_name (site.child_name vms.name "-rolebinding")
                  x
                ≡ found rb)
              store_is seen,
        ),
        subst (λ x. record c { role_bindings = x } ≡ d) store_is p,
        cc,
      )

  role_binding_found_go :
      FindsRoleBindings site m
      → (l : Lookup RoleBinding)
      → site.role_bindings.get vms.namespace_name
          (site.child_name vms.name "-rolebinding")
          c.role_bindings
        ≡ l
      → role_binding_found site m vms s c l ≡ go t d
      → HasRoleBinding site m vms d.role_bindings
        × (record c { role_bindings = d.role_bindings } ≡ d)
        × (t ≡ s)
  unfolding role_binding_found
  role_binding_found_go keeping get_failed g h = absurd cc
  role_binding_found_go keeping not_found g h =
      role_binding_created_go _
        (λ b after e.
          keeping.created vms.namespace_name (make_role_binding site.child_name vms) b
            c.role_bindings after e)
        h
  role_binding_found_go keeping (found rb) g h =
      let p : c ≡ d = cc in
      (
        (
          rb,
          subst
              (λ (x : Cluster k).
                site.role_bindings.get vms.namespace_name (site.child_name vms.name "-rolebinding")
                  x.role_bindings
                ≡ found rb)
              p g,
        ),
        subst (λ (x : Cluster k). record c { role_bindings = x.role_bindings } ≡ x) p refl,
        cc,
      )

  pub role_binding_go :
      FindsRoleBindings site m
      → reconcile_role_binding site m vms s c ≡ go t d
      → HasRoleBinding site m vms d.role_bindings
        × (record c { role_bindings = d.role_bindings } ≡ d)
        × (t ≡ s)
  unfolding reconcile_role_binding
  role_binding_go keeping h = role_binding_found_go keeping _ refl h
