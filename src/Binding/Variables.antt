-- ===== src/Binding/Variables.antt =====
-- The variables of the containers after `Do`.
use mathlib.Core.List.{append-nil}
use sources_for_knative.Base.{
  ◌≡◌, refl, List, [], ◌∷◌, ◌++◌, map, Bool, not, string_eq, keep, nat_eq, arith,
}
use sources_for_knative.Kube.{EnvVar, Container, PodSpec}
use sources_for_knative.Binding.{
  VAuthSpec, is_binding_env, undo_env, undo_container, undo, binding_env, bind_container, bind,
  do_binding,
}
use sources_for_knative.Binding.Laws.{keep-append, undo_env-keep, keep-binding_env}

keep-keep_none : (p : EnvVar → Bool) (xs : List EnvVar) → keep p (keep (λ v. not (p v)) xs) ≡ []
keep-keep_none p [] = refl
keep-keep_none p (x ∷ xs) = ground (arith, keep-keep_none p xs)

keep-keep_same :
    (p : EnvVar → Bool) (xs : List EnvVar)
    → keep (λ v. not (p v)) (keep (λ v. not (p v)) xs) ≡ keep (λ v. not (p v)) xs
keep-keep_same p [] = refl
keep-keep_same p (x ∷ xs) = ground (arith, keep-keep_same p xs)

keep_binding-binding_env : (b : VAuthSpec) → keep is_binding_env (binding_env b) ≡ binding_env b
unfolding binding_env is_binding_env
keep_binding-binding_env b = refl

-- The variables of the binding in each container, and the others.
abbrev pub bound_env : List Container → List (List EnvVar)
bound_env = map (λ c. keep is_binding_env c.env)

abbrev pub other_env : List Container → List (List EnvVar)
other_env = map (λ c. keep (λ v. not (is_binding_env v)) c.env)

bound_env_lem :
    (b : VAuthSpec) (cs : List Container)
    → bound_env (map (bind_container b) (map undo_container cs)) ≡ map (λ c. binding_env b) cs
unfolding bind_container undo_container
bound_env_lem b [] = refl
bound_env_lem b (c ∷ cs) =
    let old = keep (λ v. not (is_binding_env v)) c.env in
    let here : keep is_binding_env (undo_env c.env ++ binding_env b) ≡ binding_env b = rw (
      undo_env-keep c.env,
      keep-append is_binding_env old (binding_env b),
      keep-keep_none is_binding_env c.env,
      keep_binding-binding_env b,
    ) in
    cc (here, bound_env_lem b cs)

other_env_lem :
    (b : VAuthSpec) (cs : List Container)
    → other_env (map (bind_container b) (map undo_container cs)) ≡ other_env cs
unfolding bind_container undo_container
other_env_lem b [] = refl
other_env_lem b (c ∷ cs) =
    let old = keep (λ v. not (is_binding_env v)) c.env in
    let here : keep (λ v. not (is_binding_env v)) (undo_env c.env ++ binding_env b) ≡ old = rw (
      undo_env-keep c.env,
      keep-append (λ v. not (is_binding_env v)) old (binding_env b),
      keep-binding_env b,
      append-nil (keep (λ v. not (is_binding_env v)) old),
      keep-keep_same is_binding_env c.env,
    ) in
    cc (here, other_env_lem b cs)

-- After `Do`, in every container and init container, the variables with the binding's four names
-- are exactly those of this binding, once each, and all other variables are as before, in order.
pub do_binding_env :
    (b : VAuthSpec) (ps : PodSpec)
    → (bound_env (do_binding b ps).containers ≡ map (λ c. binding_env b) ps.containers)
      × (bound_env (do_binding b ps).init_containers ≡ map (λ c. binding_env b) ps.init_containers)
      × (other_env (do_binding b ps).containers ≡ other_env ps.containers)
      × (other_env (do_binding b ps).init_containers ≡ other_env ps.init_containers)
unfolding do_binding bind undo
do_binding_env b ps = (
  bound_env_lem b ps.containers,
  bound_env_lem b ps.init_containers,
  other_env_lem b ps.containers,
  other_env_lem b ps.init_containers,
)
