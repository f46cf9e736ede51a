-- ===== src/Reconcile/Vsphere/Controller/ConfigMapStep.antt =====
-- What `reconcileConfigMap` has done when it goes on.
use sources_for_knative.Base.{String, Option, none, some, ◌≡◌, refl, ap, subst, string_eq}
use sources_for_knative.Kube.{ConfigMap, Lookup, found, not_found, get_failed}
use sources_for_knative.Sources.VsphereSource.{VsphereSource}
use sources_for_knative.Reconcile.Conditions.{Manager, Status}
use sources_for_knative.Reconcile.Vsphere.{make_config_map, owned_meta}
use sources_for_knative.Reconcile.Vsphere.Controller.{
  Stores, Cluster, Site, go, config_map_created, config_map_found, reconcile_config_map,
}
use sources_for_knative.Reconcile.Vsphere.Controller.Steps.{FindsConfigMaps, FoundIn, HasConfigMap}

make_config_map_name :
    (child_name : String → String → String) (vms : VsphereSource)
    → (make_config_map child_name vms).metadata.name ≡ child_name vms.name "-configmap"
unfolding make_config_map owned_meta
make_config_map_name child_name vms = refl

module _ {k : Stores} (site : Site k) (m : Manager) (vms : VsphereSource) (s t : Status m)
    (c d : Cluster k) where
  config_map_created_go :
      (o : Option (ConfigMap × k.ConfigMaps))
      → FoundIn vms.namespace_name
          (λ (x : ConfigMap). x.metadata.name)
          site.config_maps
          (make_config_map site.child_name vms)
          o
      → config_map_created site m s c o ≡ go t d
      → HasConfigMap site m vms d.config_maps
        × (record c { config_maps = d.config_maps } ≡ d)
        × (t ≡ s)
  unfolding config_map_created
  config_map_created_go none kept h = absurd cc
  config_map_created_go (some (cm, store)) kept h =
      let p : record c { config_maps = store } ≡ d = cc in
      let store_is : store ≡ d.config_maps = ap (λ (x : Cluster k). x.config_maps) p in
      let seen =
        subst (λ n. site.config_maps.get vms.namespace_name n store ≡ found cm)
          (make_config_map_name site.child_name vms) (kept cm store refl) in
      (
        (
          cm,
          subst
              (λ x.
                site.config_maps.get vms.namespace_name (site.child_name vms.name "-configmap") x
                ≡ found cm)
              store_is seen,
        ),
        subst (λ x. record c { config_maps = x } ≡ d) store_is p,
        cc,
      )

  config_map_found_go :
      FindsConfigMaps site m
      → (l : Lookup ConfigMap)
      → site.config_maps.get vms.namespace_name
          (site.child_name vms.name "-configmap")
          c.config_maps
        ≡ l
      → config_map_found site m vms s c l ≡ go t d
      → HasConfigMap site m vms d.config_maps
        × (record c { config_maps = d.config_maps } ≡ d)
        × (t ≡ s)
  unfolding config_map_found
  config_map_found_go keeping get_failed g h = absurd cc
  config_map_found_go keeping not_found g h =
      config_map_created_go _
        (λ b after e.
          keeping.created vms.namespace_name (make_config_map site.child_name vms) b c.config_maps
            after e)
        h
  config_map_found_go keeping (found cm) g h =
      let p : c ≡ d = cc in
      (
        (
          cm,
          subst
              (λ (x : Cluster k).
                site.config_maps.get vms.namespace_name (site.child_name vms.name "-configmap")
                  x.config_maps
                ≡ found cm)
              p g,
        ),
        subst (λ (x : Cluster k). record c { config_maps = x.config_maps } ≡ x) p refl,
        cc,
      )

  pub config_map_go :
      FindsConfigMaps site m
      → reconcile_config_map site m vms s c ≡ go t d
      → HasConfigMap site m vms d.config_maps
        × (record c { config_maps = d.config_maps } ≡ d)
        × (t ≡ s)
  unfolding reconcile_config_map
  config_map_go keeping h = config_map_found_go keeping _ refl h
