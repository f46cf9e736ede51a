-- ===== src/Reconcile/Sync/Single.antt =====
-- With the one container that the receive adapter has, `podSpecSync` compares the image and the
-- variables up to their order.
use sources_for_knative.Base.{
  ℕ, zero, suc, ◌+◌, ◌<◌, ◌≡◌, ◌↔◌, refl, sym, ap, ◌∙◌, subst, String, Option, some, List, [], ◌∷◌,
  true, false, length, set, get_elem?, get_elem?-set_self, Eq, ◌==◌, string_eq, test_refl, test_eq,
  Bool-cases, inl, inr, arith,
}
use sources_for_knative.Kube.{EnvVar, Container, PodSpec}
use sources_for_knative.Reconcile.Sync.{
  sort_env, get_container_from, get_container, write, updated, sync_found, sync_containers,
  now_after, pod_spec_sync,
}

get_container_from_at :
    (i : ℕ) (name : String) (cs : List Container) (n : ℕ) (c : Container)
    → get_container_from i name cs ≡ some (n, c)
    → (k : ℕ) × (n ≡ k + i) × (get_elem? cs k ≡ some c) × (k < length cs)
unfolding get_container_from
get_container_from_at i name [] n c h = absurd cc
get_container_from_at i name (d ∷ cs) n c h = elim (Bool-cases (d.name == name)) [
  | inl e ↦
      let h' : ◌≡◌ {A = Option (ℕ × Container)} (some (i, d)) (some (n, c)) = rw e at h in
      let p : i ≡ n = cc in let q : d ≡ c = cc in (0, omega arith, ap some q, omega arith)
  | inr e ↦
      let (k, p, q, l) = get_container_from_at (suc i) name cs n c (rw e at h) in
      (suc k, omega arith, q, omega arith)
]

pub get_container_only :
    (cs : List Container) (ec : Container) → cs ≡ ec ∷ [] → get_container ec.name cs ≡ some (0, ec)
unfolding get_container get_container_from
get_container_only cs ec h = rw (h, test_refl ec.name)

set_same : (cs : List Container) (k : ℕ) (c : Container) → get_elem? cs k ≡ some c → set cs k c ≡ cs
set_same [] k c h = refl
set_same (d ∷ cs) zero c h = let p : d ≡ c = cc in ap (λ t. t ∷ cs) (sym p)
set_same (d ∷ cs) (suc k) c h = ap (λ t. d ∷ t) (set_same cs k c h)

set_same_only :
    (cs : List Container) (k : ℕ) (c d : Container)
    → k < length cs
    → get_elem? cs k ≡ some c
    → set cs k d ≡ cs
    → d ≡ c
set_same_only cs k c d l h p =
    let q : get_elem? cs k ≡ some d =
      subst (λ t. get_elem? t k ≡ some d) p (get_elem?-set_self cs k d l) in
    cc

module _ (same_env : Eq (List EnvVar)) (same_pod : Eq PodSpec) where
  -- The container is as it should be: the image is equal, and so are the sorted variables.
  abbrev pub Agrees : Container → Container → Type 0
  Agrees ec nc = (nc.image ≡ ec.image) × (sort_env ec.env ≡ sort_env nc.env)

  updated_same : (ec nc : Container) → Agrees ec nc → updated same_env ec nc ≡ nc
  unfolding updated
  updated_same ec nc h =
      rw (h.0, h.1, test_refl ec.image, test_refl ⦃e = same_env⦄ (sort_env nc.env))

  updated_same_only : (ec nc : Container) → updated same_env ec nc ≡ nc → Agrees ec nc
  unfolding updated
  updated_same_only ec nc h = (image, vars)
    where
      image : nc.image ≡ ec.image
      image = elim (Bool-cases (nc.image == ec.image)) [
        | inl e ↦ test_eq nc.image ec.image e
        | inr e ↦ let p : ec.image ≡ nc.image = (rw e at (ap (λ c. c.image) h)) in sym p
      ]

      vars : sort_env ec.env ≡ sort_env nc.env
      vars = elim (Bool-cases (same_env.test (sort_env ec.env) (sort_env nc.env))) [
        | inl e ↦ test_eq ⦃e = same_env⦄ (sort_env ec.env) (sort_env nc.env) e
        | inr e ↦ let p : ec.env ≡ nc.env = (rw e at (ap (λ c. c.env) h)) in ap sort_env p
      ]

  now_after_single :
      (spare n : ℕ) (expected now : PodSpec) (ec nc : Container)
      → expected.containers ≡ ec ∷ []
      → get_container ec.name now.containers ≡ some (n, nc)
      → now_after same_env spare expected now
        ≡ record now { containers = set now.containers n (updated same_env ec nc) }
  unfolding now_after sync_containers sync_found write
  now_after_single spare n expected now ec nc h k = rw (h, k)

  pod_spec_sync-false :
      (spare : ℕ) (expected now : PodSpec)
      → now_after same_env spare expected now ≡ now
      → pod_spec_sync same_env same_pod spare expected now ≡ false
  unfolding pod_spec_sync
  pod_spec_sync-false spare expected now h = rw (h, test_refl ⦃e = same_pod⦄ now)

  pod_spec_sync-false_only :
      (spare : ℕ) (expected now : PodSpec)
      → pod_spec_sync same_env same_pod spare expected now ≡ false
      → now_after same_env spare expected now ≡ now
  unfolding pod_spec_sync
  pod_spec_sync-false_only spare expected now h =
      elim (Bool-cases (same_pod.test now (now_after same_env spare expected now))) [
        | inl e ↦ sym (test_eq ⦃e = same_pod⦄ now (now_after same_env spare expected now) e)
        | inr e ↦ let p : true ≡ false = (rw e at h) in absurd cc
      ]

  -- With one expected container, of which the existing pod spec has the first of that name, no
  -- update is needed exactly if the images are equal and the variables are equal once sorted by
  -- name; whatever else differs is not looked at.
  pub pod_spec_sync_single :
      (spare n : ℕ) (expected now : PodSpec) (ec nc : Container)
      → expected.containers ≡ ec ∷ []
      → get_container ec.name now.containers ≡ some (n, nc)
      → (pod_spec_sync same_env same_pod spare expected now ≡ false) ↔ Agrees ec nc
  unfolding get_container
  pod_spec_sync_single spare n expected now ec nc h k =
      let (i, p, q, l) = get_container_from_at 0 ec.name now.containers n nc k in
      let at : get_elem? now.containers n ≡ some nc =
        subst (λ j. get_elem? now.containers j ≡ some nc) (omega arith) q in
      let inside : n < length now.containers = omega arith in
      (
        λ same.
            let r = pod_spec_sync-false_only spare expected now same in
            let s = sym (now_after_single spare n expected now ec nc h k) ∙ r in
            updated_same_only ec nc (
              set_same_only now.containers n nc (updated same_env ec nc) inside at
                (ap (λ ps. ps.containers) s)),
        λ agrees. pod_spec_sync-false spare expected now (
            now_after_single spare n expected now ec nc h k
            ∙ rw (updated_same ec nc agrees) (rw (set_same now.containers n nc at))),
      )
