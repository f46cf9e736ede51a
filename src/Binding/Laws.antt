-- ===== src/Binding/Laws.antt =====
-- `Undo` takes out what `Do` put in, a second `Do` replaces the first, and `Do` sets each variable
-- of the binding exactly once.
use mathlib.Core.List.{append-nil}
use sources_for_knative.Base.{
  ℕ, suc, ◌≤◌, ◌≡◌, refl, ap, List, [], ◌∷◌, ◌++◌, map, Bool, true, not, string_eq, keep, All,
  nat_eq, if◌then◌else◌, Bool-cases, inl, inr, arith,
}
use sources_for_knative.Kube.{EnvVar, Container, PodSpec}
use sources_for_knative.Binding.{
  VAuthSpec, erase_first, is_binding_env, is_binding_mount, is_binding_volume, undo_env,
  undo_container, undo, binding_volume, binding_mount, binding_env, bind_container, bind,
  do_binding,
}

module _ {ℓ} {A : Type ℓ} where
  -- How many elements pass a test.
  abbrev pub count_if : (A → Bool) → List A → ℕ
  count_if p [] = 0
  count_if p (x ∷ xs) = let rest = count_if p xs in if p x then suc rest else rest

  erase_first_none : (p : A → Bool) (xs : List A) → count_if p xs ≡ 0 → erase_first p xs ≡ xs
  unfolding erase_first
  erase_first_none p [] h = refl
  erase_first_none p (x ∷ xs) h = elim (Bool-cases (p x)) [
    | inl e ↦ absurd (ground arith)
    | inr e ↦ rw e (ap (λ t. x ∷ t) (erase_first_none p xs (ground arith)))
  ]

  erase_first_snoc :
      (p : A → Bool) (xs : List A) (x : A)
      → count_if p xs ≡ 0
      → p x ≡ true
      → erase_first p (xs ++ x ∷ []) ≡ xs
  unfolding erase_first
  erase_first_snoc p [] x h k = rw k
  erase_first_snoc p (y ∷ xs) x h k = elim (Bool-cases (p y)) [
    | inl e ↦ absurd (ground arith)
    | inr e ↦ rw e (ap (λ t. y ∷ t) (erase_first_snoc p xs x (ground arith) k))
  ]

  count_if-erase_first :
      (p : A → Bool) (xs : List A) → count_if p xs ≤ 1 → count_if p (erase_first p xs) ≡ 0
  unfolding erase_first
  count_if-erase_first p [] h = refl
  count_if-erase_first p (x ∷ xs) h = elim (Bool-cases (p x)) [
    | inl e ↦ rw e (ground arith)
    | inr e ↦ rw (e, e) (count_if-erase_first p xs (ground arith))
  ]

  pub keep-append : (p : A → Bool) (xs ys : List A) → keep p (xs ++ ys) ≡ keep p xs ++ keep p ys
  keep-append p [] ys = refl
  keep-append p (x ∷ xs) ys = ground (arith, keep-append p xs ys)

  keep_all : (p : A → Bool) (xs : List A) → count_if p xs ≡ 0 → keep (λ x. not (p x)) xs ≡ xs
  keep_all p [] h = refl
  keep_all p (x ∷ xs) h = ground (arith, keep_all p xs)

  count_if-keep : (p : A → Bool) (xs : List A) → count_if p (keep (λ x. not (p x)) xs) ≡ 0
  count_if-keep p [] = refl
  count_if-keep p (x ∷ xs) = ground (arith, count_if-keep p xs)

pub undo_env-keep : (env : List EnvVar) → undo_env env ≡ keep (λ v. not (is_binding_env v)) env
unfolding undo_env
undo_env-keep [] = refl
undo_env-keep (v ∷ env) = ground arith

-- Nothing of a binding is in the container, or in the pod spec.
pub record IsCleanContainer (c : Container) : Type 0 where
  pub no_mounts : count_if is_binding_mount c.volume_mounts ≡ 0
  pub no_env : count_if is_binding_env c.env ≡ 0

pub record IsClean (ps : PodSpec) : Type 0 where
  pub no_volumes : count_if is_binding_volume ps.volumes ≡ 0
  pub clean_init_containers : All IsCleanContainer ps.init_containers
  pub clean_containers : All IsCleanContainer ps.containers

-- The binding's volume and mounts occur at most once, as Kubernetes demands of names.
pub record IsBoundOnce (ps : PodSpec) : Type 0 where
  pub one_volume : count_if is_binding_volume ps.volumes ≤ 1
  pub one_mount_in_init_containers :
      All (λ c. count_if is_binding_mount c.volume_mounts ≤ 1) ps.init_containers
  pub one_mount_in_containers :
      All (λ c. count_if is_binding_mount c.volume_mounts ≤ 1) ps.containers

pub keep-binding_env : (b : VAuthSpec) → keep (λ v. not (is_binding_env v)) (binding_env b) ≡ []
unfolding binding_env is_binding_env
keep-binding_env b = refl

undo_container-bind_container :
    (b : VAuthSpec) (c : Container) → IsCleanContainer c → undo_container (bind_container b c) ≡ c
unfolding undo_container bind_container
undo_container-bind_container b c h = rw (
  erase_first_snoc is_binding_mount c.volume_mounts binding_mount h.no_mounts
      (unfold is_binding_mount binding_mount in refl),
  undo_env-keep (c.env ++ binding_env b),
  keep-append (λ v. not (is_binding_env v)) c.env (binding_env b),
  keep-binding_env b,
  append-nil (keep (λ v. not (is_binding_env v)) c.env),
  keep_all is_binding_env c.env h.no_env,
)

undo_containers-bind :
    (b : VAuthSpec) (cs : List Container)
    → All IsCleanContainer cs
    → map undo_container (map (bind_container b) cs) ≡ cs
undo_containers-bind b [] h = refl
undo_containers-bind b (c ∷ cs) h =
    cc (undo_container-bind_container b c h.0, undo_containers-bind b cs h.1)

undo-bind : (b : VAuthSpec) (ps : PodSpec) → IsClean ps → undo (bind b ps) ≡ ps
unfolding undo bind
undo-bind b ps h = rw (
  erase_first_snoc is_binding_volume ps.volumes (binding_volume b) h.no_volumes
      (unfold is_binding_volume binding_volume in refl),
  undo_containers-bind b ps.init_containers h.clean_init_containers,
  undo_containers-bind b ps.containers h.clean_containers,
)

undo_container_clean : (c : Container) → IsCleanContainer c → undo_container c ≡ c
unfolding undo_container
undo_container_clean c h = rw (
  erase_first_none is_binding_mount c.volume_mounts h.no_mounts,
  undo_env-keep c.env,
  keep_all is_binding_env c.env h.no_env,
)

undo_containers_clean : (cs : List Container) → All IsCleanContainer cs → map undo_container cs ≡ cs
undo_containers_clean [] h = refl
undo_containers_clean (c ∷ cs) h = cc (undo_container_clean c h.0, undo_containers_clean cs h.1)

undo_clean : (ps : PodSpec) → IsClean ps → undo ps ≡ ps
unfolding undo
undo_clean ps h = rw (
  erase_first_none is_binding_volume ps.volumes h.no_volumes,
  undo_containers_clean ps.init_containers h.clean_init_containers,
  undo_containers_clean ps.containers h.clean_containers,
)

undo_containers-IsClean :
    (cs : List Container)
    → All (λ c. count_if is_binding_mount c.volume_mounts ≤ 1) cs
    → All IsCleanContainer (map undo_container cs)
unfolding undo_container
undo_containers-IsClean [] h = tt
undo_containers-IsClean (c ∷ cs) h = (
  record {
    no_mounts = count_if-erase_first is_binding_mount c.volume_mounts h.0;
    no_env = rw (undo_env-keep c.env) (count_if-keep is_binding_env c.env);
  },
  undo_containers-IsClean cs h.1,
)

-- `Undo` of a pod spec that is bound at most once leaves nothing of a binding.
pub undo-IsClean : (ps : PodSpec) → IsBoundOnce ps → IsClean (undo ps)
unfolding undo
undo-IsClean ps h = record {
  no_volumes = count_if-erase_first is_binding_volume ps.volumes h.one_volume;
  clean_init_containers = undo_containers-IsClean ps.init_containers h.one_mount_in_init_containers;
  clean_containers = undo_containers-IsClean ps.containers h.one_mount_in_containers;
}

-- On a pod spec without anything of a binding, `Undo` after `Do` gives the pod spec back.
pub undo-do_binding : (b : VAuthSpec) (ps : PodSpec) → IsClean ps → undo (do_binding b ps) ≡ ps
unfolding do_binding
undo-do_binding b ps h = rw (undo_clean ps h) (undo-bind b ps h)

-- On a pod spec that is bound at most once, a second `Do` replaces the first: the result is that
-- of the second alone. With the same binding twice, `Do` is idempotent.
pub do_binding-do_binding :
    (b b' : VAuthSpec) (ps : PodSpec)
    → IsBoundOnce ps
    → do_binding b' (do_binding b ps) ≡ do_binding b' ps
unfolding do_binding
do_binding-do_binding b b' ps h = rw (undo-bind b (undo ps) (undo-IsClean ps h))
