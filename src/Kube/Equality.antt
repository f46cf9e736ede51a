-- ===== src/Kube/Equality.antt =====
-- An equality test for pod specs, as equality.Semantic.DeepEqual gives one, built from those of texts.
use sources_for_knative.Base.{
  String, Option, none, some, List, [], ◌∷◌, Bool, true, false, ◌&&◌, ◌≡◌, ◌↔◌, refl, sym, ap, ◌∙◌,
  Eq, string_eq, arith,
}
use sources_for_knative.Kube.{
  EnvSource, field_ref, secret_key_ref, other_source, EnvVar, VolumeMount, VolumeSource,
  secret_volume, other_volume, Volume, Container, PodSpec,
}

pub eq_by {ℓ κ} :
    {A : Type ℓ} {B : Type κ} (f : A → B) (g : B → A) → ((a : A) → g (f a) ≡ a) → Eq B → Eq A
eq_by f g r e = record {
  test = λ a b. e.test (f a) (f b);
  test_iff = λ a b. (
    λ h. sym (r a) ∙ (ap g ((e.test_iff (f a) (f b)).0 h) ∙ r b),
    λ h. (e.test_iff (f a) (f b)).1 (ap f h),
  );
}

module _ {ℓ} {A : Type ℓ} (e : Eq A) where
  list_test : List A → List A → Bool
  list_test [] [] = true
  list_test [] (y ∷ ys) = false
  list_test (x ∷ xs) [] = false
  list_test (x ∷ xs) (y ∷ ys) = e.test x y && list_test xs ys

  list_test_iff : (xs ys : List A) → (list_test xs ys ≡ true) ↔ (xs ≡ ys)
  unfolding list_test
  list_test_iff [] [] = (λ h. refl, λ h. refl)
  list_test_iff [] (y ∷ ys) = (λ h. absurd cc, λ h. absurd cc)
  list_test_iff (x ∷ xs) [] = (λ h. absurd cc, λ h. absurd cc)
  list_test_iff (x ∷ xs) (y ∷ ys) = (
    λ h. ground (arith, list_test_iff xs ys, e.test_iff x y),
    λ h. ground (arith, list_test_iff xs ys, e.test_iff x y),
  )

  pub eq_list : Eq (List A)
  eq_list = record { test = list_test; test_iff = list_test_iff }

  option_test : Option A → Option A → Bool
  option_test none none = true
  option_test none (some y) = false
  option_test (some x) none = false
  option_test (some x) (some y) = e.test x y

  option_test_iff : (x y : Option A) → (option_test x y ≡ true) ↔ (x ≡ y)
  unfolding option_test
  option_test_iff none none = (λ h. refl, λ h. refl)
  option_test_iff none (some y) = (λ h. absurd cc, λ h. absurd cc)
  option_test_iff (some x) none = (λ h. absurd cc, λ h. absurd cc)
  option_test_iff (some x) (some y) =
      (λ h. ground (arith, e.test_iff x y), λ h. ground (arith, e.test_iff x y))

  pub eq_option : Eq (Option A)
  eq_option = record { test = option_test; test_iff = option_test_iff }

pub eq_pair {ℓ κ} : {A : Type ℓ} {B : Type κ} → Eq A → Eq B → Eq (A × B)
eq_pair d e = record {
  test = λ a b. d.test a.0 b.0 && e.test a.1 b.1;
  test_iff = λ a b. (
    λ h. ground (arith, d.test_iff a.0 b.0, e.test_iff a.1 b.1),
    λ h. ground (arith, d.test_iff a.0 b.0, e.test_iff a.1 b.1),
  );
}

bool_test : Bool → Bool → Bool
bool_test true b = b
bool_test false true = false
bool_test false false = true

bool_test_iff : (a b : Bool) → (bool_test a b ≡ true) ↔ (a ≡ b)
unfolding bool_test
bool_test_iff true true = (λ h. refl, λ h. refl)
bool_test_iff true false = (λ h. absurd cc, λ h. absurd cc)
bool_test_iff false true = (λ h. absurd cc, λ h. absurd cc)
bool_test_iff false false = (λ h. refl, λ h. refl)

pub eq_bool : Eq Bool
eq_bool = record { test = bool_test; test_iff = bool_test_iff }

-- A sum of texts, by a tag and two texts.
source_parts : EnvSource → List String
source_parts (field_ref p) = p ∷ []
source_parts (secret_key_ref n k) = n ∷ (k ∷ [])
source_parts (other_source t) = t ∷ (t ∷ (t ∷ []))

source_of : List String → EnvSource
source_of (p ∷ []) = field_ref p
source_of (n ∷ (k ∷ [])) = secret_key_ref n k
source_of (t ∷ (u ∷ (v ∷ rest))) = other_source t
source_of [] = other_source ""

source_of-source_parts : (s : EnvSource) → source_of (source_parts s) ≡ s
unfolding source_of source_parts
source_of-source_parts (field_ref p) = refl
source_of-source_parts (secret_key_ref n k) = refl
source_of-source_parts (other_source t) = refl

eq_env_var : Eq EnvVar
eq_env_var =
    eq_by (λ v. (v.name, (v.value, v.value_from)))
      (λ p. record { name = p.0; value = p.1.0; value_from = p.1.1 }) (λ v. refl)
      (eq_pair string_eq (
        eq_pair string_eq
          (eq_option (eq_by source_parts source_of source_of-source_parts (eq_list string_eq)))))

eq_mount : Eq VolumeMount
eq_mount =
    eq_by (λ v. (v.name, (v.read_only, v.mount_path)))
      (λ p. record { name = p.0; read_only = p.1.0; mount_path = p.1.1 }) (λ v. refl)
      (eq_pair string_eq (eq_pair eq_bool string_eq))

volume_parts : VolumeSource → List String
volume_parts (secret_volume s) = s ∷ []
volume_parts (other_volume t) = t ∷ (t ∷ [])

volume_of : List String → VolumeSource
volume_of (s ∷ []) = secret_volume s
volume_of (t ∷ (u ∷ rest)) = other_volume t
volume_of [] = other_volume ""

volume_of-volume_parts : (s : VolumeSource) → volume_of (volume_parts s) ≡ s
unfolding volume_of volume_parts
volume_of-volume_parts (secret_volume s) = refl
volume_of-volume_parts (other_volume t) = refl

eq_volume : Eq Volume
eq_volume =
    eq_by (λ v. (v.name, v.source)) (λ p. record { name = p.0; source = p.1 }) (λ v. refl)
      (eq_pair string_eq (eq_by volume_parts volume_of volume_of-volume_parts (eq_list string_eq)))

pub eq_env : Eq (List EnvVar)
eq_env = eq_list eq_env_var

eq_container : Eq Container
eq_container =
    eq_by (λ c. (c.name, (c.image, (c.env, (c.volume_mounts, c.rest)))))
      (λ p. record {
        name = p.0;
        image = p.1.0;
        env = p.1.1.0;
        volume_mounts = p.1.1.1.0;
        rest = p.1.1.1.1;
      })
      (λ c. refl)
      (eq_pair string_eq
        (eq_pair string_eq (eq_pair eq_env (eq_pair (eq_list eq_mount) string_eq))))

pub eq_pod_spec : Eq PodSpec
eq_pod_spec =
    eq_by (λ p. (p.service_account_name, (p.volumes, (p.init_containers, (p.containers, p.rest)))))
      (λ q. record {
        service_account_name = q.0;
        volumes = q.1.0;
        init_containers = q.1.1.0;
        containers = q.1.1.1.0;
        rest = q.1.1.1.1;
      })
      (λ p. refl)
      (eq_pair string_eq (
        eq_pair (eq_list eq_volume)
          (eq_pair (eq_list eq_container) (eq_pair (eq_list eq_container) string_eq))))
