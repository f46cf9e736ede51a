-- ===== src/Binding.antt =====
-- pkg/apis/sources/v1alpha1/vspherebinding_lifecycle.go: `Do` injects the vSphere credentials into
-- a pod spec, and `Undo` takes them out again.
pub mod Laws
pub mod Variables
pub mod Reading
mod Status
mod Tests
use sources_for_knative.Base.{
  String, Option, none, some, List, [], ◌∷◌, ◌++◌, map, Bool, true, false, not, ◌||◌, ◌==◌,
  string_eq, keep, length, nat_eq, if◌then◌else◌,
}
use sources_for_knative.Kube.{
  Url, EnvSource, secret_key_ref, EnvVar, VolumeMount, VolumeSource, secret_volume, Volume,
  Container, PodSpec,
}

-- `VAuthSpec`: the address, whether to skip TLS verification, and the secret's name.
pub record VAuthSpec : Type 0 where
  pub address : Url
  pub skip_tls_verify : Bool
  pub secret_name : String

-- pkg/vsphere/client.go
abbrev pub volume_name : String
volume_name = "vsphere-binding"

abbrev pub default_mount_path : String
default_mount_path = "/var/bindings/vsphere"

-- The loop that removes the first element of a kind and breaks.
erase_first {ℓ} : {A : Type ℓ} → (A → Bool) → List A → List A
erase_first p [] = []
erase_first p (x ∷ xs) = let rest = erase_first p xs in if p x then xs else x ∷ rest

-- The `switch` on the variable's name.
pub is_binding_env : EnvVar → Bool
is_binding_env v =
    v.name == "VC_URL"
    || v.name == "VC_INSECURE"
    || v.name == "VC_USERNAME"
    || v.name == "VC_PASSWORD"

pub is_binding_mount : VolumeMount → Bool
is_binding_mount m = m.name == volume_name

pub is_binding_volume : Volume → Bool
is_binding_volume v = v.name == volume_name

pub undo_env : List EnvVar → List EnvVar
undo_env env = if length env == 0 then env else keep (λ v. not (is_binding_env v)) env

-- The body of the loops of `Undo` over the init containers and over the containers.
undo_container : Container → Container
unfolding undo_env
undo_container c = record c {
  volume_mounts = erase_first is_binding_mount c.volume_mounts;
  env = undo_env c.env;
}

pub undo : PodSpec → PodSpec
unfolding undo_container erase_first
undo ps = record ps {
  volumes = erase_first is_binding_volume ps.volumes;
  init_containers = map undo_container ps.init_containers;
  containers = map undo_container ps.containers;
}

-- `fmt.Sprintf("%v", b)`
abbrev pub print_bool : Bool → String
print_bool true = "true"
print_bool false = "false"

pub binding_volume : VAuthSpec → Volume
binding_volume b = record { name = volume_name; source = secret_volume b.secret_name }

pub binding_mount : VolumeMount
binding_mount = record { name = volume_name; read_only = true; mount_path = default_mount_path }

pub binding_env : VAuthSpec → List EnvVar
binding_env b =
    record { name = "VC_URL"; value = b.address.text; value_from = none }
    ∷ (record { name = "VC_INSECURE"; value = print_bool b.skip_tls_verify; value_from = none }
        ∷ (record {
          name = "VC_USERNAME";
          value = "";
          value_from = some (secret_key_ref b.secret_name "username");
        }
            ∷ (record {
              name = "VC_PASSWORD";
              value = "";
              value_from = some (secret_key_ref b.secret_name "password");
            }
                ∷ [])))

-- The body of the loops of `Do`.
bind_container : VAuthSpec → Container → Container
bind_container b c = record c {
  volume_mounts = c.volume_mounts ++ binding_mount ∷ [];
  env = c.env ++ binding_env b;
}

-- `Do` after its call of `Undo`.
bind : VAuthSpec → PodSpec → PodSpec
unfolding bind_container
bind b ps = record ps {
  volumes = ps.volumes ++ binding_volume b ∷ [];
  init_containers = map (bind_container b) ps.init_containers;
  containers = map (bind_container b) ps.containers;
}

pub do_binding : VAuthSpec → PodSpec → PodSpec
do_binding b ps = bind b (undo ps)
