-- ===== src/Binding/Tests.antt =====
-- Examples for `Do` and `Undo`.
use sources_for_knative.Base.{none, Bool, [], ◌∷◌, ◌≡◌, refl, map, true, false, arith}
use sources_for_knative.Kube.{EnvVar, PodSpec, other_volume}
use sources_for_knative.Binding.{
  VAuthSpec, is_binding_env, is_binding_mount, is_binding_volume, undo, binding_env, do_binding,
}
use sources_for_knative.Binding.Laws.{
  IsClean, IsBoundOnce, undo-IsClean, undo-do_binding, do_binding-do_binding,
}
use sources_for_knative.Binding.Variables.{bound_env, other_env, do_binding_env}
use sources_for_knative.Base.{String, Option, some, ◌==◌, string_eq, refl}
use sources_for_knative.Binding.{print_bool, binding_mount}
use sources_for_knative.Vsphere.Client.{EnvConfig, mount_path_of}
use sources_for_knative.Binding.Reading.{lookup_env, IsProcessing, settings_of, do_binding_read}

abbrev lab : VAuthSpec
lab = record {
  address = record { host = "vcenter.lab"; text = "https://vcenter.lab" };
  skip_tls_verify = true;
  secret_name = "lab-credentials";
}

abbrev production : VAuthSpec
production = record {
  address = record { host = "vcenter"; text = "https://vcenter" };
  skip_tls_verify = false;
  secret_name = "credentials";
}

abbrev mode : EnvVar
mode = record { name = "MODE"; value = "fast"; value_from = none }

abbrev plain_pod : PodSpec
plain_pod = record {
  service_account_name = "default";
  volumes = record { name = "data"; source = other_volume "emptyDir" } ∷ [];
  init_containers = [];
  containers =
      record {
        name = "app";
        image = "app:1";
        env = mode ∷ [];
        volume_mounts = record { name = "data"; read_only = false; mount_path = "/data" } ∷ [];
        rest = "";
      }
      ∷ [];
  rest = "";
}

plain_pod-IsClean : IsClean plain_pod
unfolding is_binding_volume is_binding_mount is_binding_env
plain_pod-IsClean = record {
  no_volumes = refl;
  clean_init_containers = tt;
  clean_containers = (record { no_mounts = refl; no_env = refl }, tt);
}

plain_pod-IsBoundOnce : IsBoundOnce plain_pod
unfolding is_binding_volume is_binding_mount
plain_pod-IsBoundOnce = record {
  one_volume = omega arith;
  one_mount_in_init_containers = tt;
  one_mount_in_containers = (omega arith, tt);
}

undo-IsClean_example : IsClean (undo plain_pod)
undo-IsClean_example = undo-IsClean plain_pod plain_pod-IsBoundOnce

undo-do_binding_example : undo (do_binding lab plain_pod) ≡ plain_pod
undo-do_binding_example = undo-do_binding lab plain_pod plain_pod-IsClean

do_binding-do_binding_example :
    do_binding production (do_binding lab plain_pod) ≡ do_binding production plain_pod
do_binding-do_binding_example = do_binding-do_binding lab production plain_pod plain_pod-IsBoundOnce

do_binding_env_example :
    (bound_env (do_binding lab plain_pod).containers
      ≡ map (λ c. binding_env lab) plain_pod.containers)
    × (bound_env (do_binding lab plain_pod).init_containers
        ≡ map (λ c. binding_env lab) plain_pod.init_containers)
    × (other_env (do_binding lab plain_pod).containers ≡ other_env plain_pod.containers)
    × (other_env (do_binding lab plain_pod).init_containers ≡ other_env plain_pod.init_containers)
do_binding_env_example = do_binding_env lab plain_pod

-- The settings of the three variables, where the path is not set.
abbrev settings : Option String → Option String → Option String → Option EnvConfig
settings (some url) (some text) none =
    some (record { insecure = text == "true"; address = url; secret_path = "" })
settings none text path = none
settings (some url) none path = none
settings (some url) (some text) (some path) = none

abbrev lab_process : (String → Option String) → Option EnvConfig
lab_process lookup = settings (lookup "VC_URL") (lookup "VC_INSECURE") (lookup "VC_SECRET_PATH")

print_bool_true : (b : Bool) → (print_bool b == "true") ≡ b
print_bool_true true = refl
print_bool_true false = refl

lab_process-IsProcessing : IsProcessing lab_process
lab_process-IsProcessing = record {
  reads = λ lookup address insecure p q r. rw (p, q, r, print_bool_true insecure);
}

do_binding_read_example :
    (map (λ c. lab_process (λ name. lookup_env name c.env)) (do_binding lab plain_pod).containers
      ≡ some (settings_of lab_process lab_process-IsProcessing lab) ∷ [])
    × (mount_path_of (settings_of lab_process lab_process-IsProcessing lab)
        ≡ binding_mount.mount_path)
do_binding_read_example =
    do_binding_read lab_process lab_process-IsProcessing lab plain_pod (refl, tt)
