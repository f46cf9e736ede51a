-- ===== src/Reconcile/Sync/Tests.antt =====
-- Examples for `podSpecSync`.
use sources_for_knative.Base.{String, none, List, [], ◌∷◌, ◌≡◌, ◌↔◌, refl, false, string_eq}
use sources_for_knative.Kube.{EnvVar, Container, PodSpec}
use sources_for_knative.Kube.Equality.{eq_env, eq_pod_spec}
use sources_for_knative.Reconcile.Sync.{get_container, get_container_from, pod_spec_sync}
use sources_for_knative.Reconcile.Sync.Missing.{pod_spec_sync_misses}
use sources_for_knative.Reconcile.Sync.Single.{Agrees, pod_spec_sync_single}

abbrev var : String → EnvVar
var name = record { name = name; value = "x"; value_from = none }

abbrev container : String → List EnvVar → Container
container name vars = record {
  name = name;
  image = "adapter:1";
  env = vars;
  volume_mounts = [];
  rest = "";
}

abbrev pod : List Container → PodSpec
pod cs = record {
  service_account_name = "default";
  volumes = [];
  init_containers = [];
  containers = cs;
  rest = "";
}

abbrev expected_container : Container
expected_container = container "adapter" (var "A" ∷ (var "B" ∷ []))

abbrev reordered_container : Container
reordered_container = container "adapter" (var "B" ∷ (var "A" ∷ []))

pod_spec_sync_single_example :
    (pod_spec_sync eq_env eq_pod_spec 0
        (pod (expected_container ∷ []))
        (pod (container "proxy" [] ∷ (reordered_container ∷ [])))
      ≡ false)
    ↔ Agrees eq_env eq_pod_spec expected_container reordered_container
unfolding get_container get_container_from
pod_spec_sync_single_example =
    pod_spec_sync_single eq_env eq_pod_spec 0 1 (pod (expected_container ∷ []))
      (pod (container "proxy" [] ∷ (reordered_container ∷ []))) expected_container
      reordered_container refl refl

pod_spec_sync_misses_example :
    pod_spec_sync eq_env eq_pod_spec 2
      (pod (expected_container ∷ []))
      (pod (container "proxy" [] ∷ []))
    ≡ false
pod_spec_sync_misses_example =
    pod_spec_sync_misses eq_env eq_pod_spec 2 (pod (expected_container ∷ []))
      (pod (container "proxy" [] ∷ [])) ((refl, tt), tt)
