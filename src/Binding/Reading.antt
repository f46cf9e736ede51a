-- ===== src/Binding/Reading.antt =====
-- What a client for vCenter reads in a container that `Do` has bound.
use sources_for_knative.Base.{
  String, Option, none, some, ◌≡◌, refl, ap, ◌∙◌, List, [], ◌∷◌, ◌++◌, map, Bool, true, not, ◌==◌,
  string_eq, keep, All, if◌then◌else◌, Bool-cases, inl, inr, test_eq,
}
use sources_for_knative.Kube.{EnvVar, Container, PodSpec}
use sources_for_knative.Binding.{
  VAuthSpec, is_binding_env, undo_env, undo_container, undo, binding_env, bind_container, bind,
  do_binding, print_bool, binding_mount,
}
use sources_for_knative.Binding.Laws.{undo_env-keep}
use sources_for_knative.Vsphere.Client.{EnvConfig, mount_path_of}

-- The value of the first variable with the name.
abbrev pub lookup_env : String → List EnvVar → Option String
lookup_env name [] = none
lookup_env name (v ∷ vars) =
    let rest = lookup_env name vars in if v.name == name then some v.value else rest

-- `envconfig.Process` on what `lookup` finds, for the variables that a binding sets.
pub record IsProcessing (process : (String → Option String) → Option EnvConfig) : Type 0 where
  pub reads :
      (lookup : String → Option String) (address : String) (insecure : Bool)
      → lookup "VC_URL" ≡ some address
      → lookup "VC_INSECURE" ≡ some (print_bool insecure)
      → lookup "VC_SECRET_PATH" ≡ none
      → process lookup ≡ some (record { insecure = insecure; address = address; secret_path = "" })

-- A variable of the binding is found behind those that `Undo` has left.
lookup_binding :
    (name : String) (env more : List EnvVar)
    → ((v : EnvVar) → v.name ≡ name → is_binding_env v ≡ true)
    → lookup_env name (keep (λ v. not (is_binding_env v)) env ++ more) ≡ lookup_env name more
lookup_binding name [] more is_one = refl
lookup_binding name (v ∷ env) more is_one = elim (Bool-cases (is_binding_env v)) [
  | inl p ↦ rw p (lookup_binding name env more is_one)
  | inr p ↦ elim (Bool-cases (v.name == name)) [
    | inl q ↦ let one = is_one v (test_eq v.name name q) in absurd cc
    | inr q ↦ rw (p, q) (lookup_binding name env more is_one)
  ]
]

-- Another variable that is not set is not set by the binding.
lookup_other :
    (name : String) (env more : List EnvVar)
    → lookup_env name env ≡ none
    → lookup_env name more ≡ none
    → lookup_env name (keep (λ v. not (is_binding_env v)) env ++ more) ≡ none
lookup_other name [] more h k = k
lookup_other name (v ∷ env) more h k = elim (Bool-cases (v.name == name)) [
  | inl q ↦ let some_one : some v.value ≡ none = (rw q at h) in absurd cc
  | inr q ↦
      let rest = lookup_other name env more (rw q at h) k in
      elim (Bool-cases (is_binding_env v)) [ inl p ↦ rw p rest | inr p ↦ rw (p, q) rest ]
]

url_is_binding : (v : EnvVar) → v.name ≡ "VC_URL" → is_binding_env v ≡ true
unfolding is_binding_env
url_is_binding v h = rw h

insecure_is_binding : (v : EnvVar) → v.name ≡ "VC_INSECURE" → is_binding_env v ≡ true
unfolding is_binding_env
insecure_is_binding v h = rw h

module _ (process : (String → Option String) → Option EnvConfig)
    (processing : IsProcessing process) where
  -- The settings that name the binding's vCenter, and leave the secret where it is mounted.
  abbrev pub settings_of : VAuthSpec → EnvConfig
  settings_of b = record {
    insecure = b.skip_tls_verify;
    address = b.address.text;
    secret_path = "";
  }

  container_reads :
      (b : VAuthSpec) (c : Container)
      → lookup_env "VC_SECRET_PATH" c.env ≡ none
      → process (λ name. lookup_env name (bind_container b (undo_container c)).env)
        ≡ some (settings_of b)
  unfolding bind_container undo_container binding_env
  container_reads b c h =
      let env = undo_env c.env ++ binding_env b in
      let kept : env ≡ keep (λ v. not (is_binding_env v)) c.env ++ binding_env b =
        ap (λ l. l ++ binding_env b) (undo_env-keep c.env) in
      processing.reads (λ name. lookup_env name env) b.address.text b.skip_tls_verify
        (ap (lookup_env "VC_URL") kept
          ∙ lookup_binding "VC_URL" c.env (binding_env b) url_is_binding)
        (ap (lookup_env "VC_INSECURE") kept
          ∙ lookup_binding "VC_INSECURE" c.env (binding_env b) insecure_is_binding)
        (ap (lookup_env "VC_SECRET_PATH") kept
          ∙ lookup_other "VC_SECRET_PATH" c.env (binding_env b) h refl)

  containers_read :
      (b : VAuthSpec) (cs : List Container)
      → All (λ c. lookup_env "VC_SECRET_PATH" c.env ≡ none) cs
      → map
          (λ c. process (λ name. lookup_env name c.env))
          (map (bind_container b) (map undo_container cs))
        ≡ map (λ c. some (settings_of b)) cs
  containers_read b [] h = refl
  containers_read b (c ∷ cs) h = cc (container_reads b c h.0, containers_read b cs h.1)

  -- In every container that `Do` has bound and that sets no path of its own for the secret, a client
  -- for vCenter reads the address of the binding and whether to skip the verification of certificates,
  -- and looks for the credentials where `Do` mounts them.
  pub do_binding_read :
      (b : VAuthSpec) (ps : PodSpec)
      → All (λ c. lookup_env "VC_SECRET_PATH" c.env ≡ none) ps.containers
      → (map (λ c. process (λ name. lookup_env name c.env)) (do_binding b ps).containers
          ≡ map (λ c. some (settings_of b)) ps.containers)
        × (mount_path_of (settings_of b) ≡ binding_mount.mount_path)
  unfolding do_binding bind undo binding_mount
  do_binding_read b ps h = (containers_read b ps.containers h, refl)
