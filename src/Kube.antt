-- ===== src/Kube.antt =====
-- The fields of the Kubernetes and Knative objects that the program reads or writes. What it only
-- copies stands in one text, `rest`.
pub mod Equality
use sources_for_knative.Base.{ℕ, String, Option, List, Bool, ◌≡◌, ◌⊎◌, inl, inr, refl}

-- A URL: its host, and what its `String` method prints.
pub record Url : Type 0 where
  pub host : String
  pub text : String

pub data EnvSource : Type 0 where
  field_ref : String → EnvSource
  secret_key_ref : String → String → EnvSource
  other_source : String → EnvSource

pub record EnvVar : Type 0 where
  pub name : String
  pub value : String
  pub value_from : Option EnvSource

pub record VolumeMount : Type 0 where
  pub name : String
  pub read_only : Bool
  pub mount_path : String

pub data VolumeSource : Type 0 where
  secret_volume : String → VolumeSource
  other_volume : String → VolumeSource

pub record Volume : Type 0 where
  pub name : String
  pub source : VolumeSource

pub record Container : Type 0 where
  pub name : String
  pub image : String
  pub env : List EnvVar
  pub volume_mounts : List VolumeMount
  pub rest : String

pub record PodSpec : Type 0 where
  pub service_account_name : String
  pub volumes : List Volume
  pub init_containers : List Container
  pub containers : List Container
  pub rest : String

abbrev pub Labels : Type 0
Labels = List (String × String)

-- A condition of a status: its type, its status and why.
pub data ConditionStatus : Type 0 where
  condition_true condition_false condition_unknown : ConditionStatus
  other_status : String → ConditionStatus

pub record Condition : Type 0 where
  pub condition_type : String
  pub status : ConditionStatus
  pub reason : String
  pub message : String

-- `controller` is the UID in the controller's owner reference.
pub record ObjectMeta : Type 0 where
  pub namespace_name : String
  pub name : String
  pub labels : Labels
  pub controller : Option String

pub record Deployment : Type 0 where
  pub metadata : ObjectMeta
  pub replicas : ℕ
  pub selector : Labels
  pub template_labels : Labels
  pub pod : PodSpec
  pub strategy : String
  pub conditions : List Condition

pub record ServiceAccount : Type 0 where
  pub metadata : ObjectMeta

pub record ConfigMap : Type 0 where
  pub metadata : ObjectMeta

pub record RoleBinding : Type 0 where
  pub metadata : ObjectMeta
  pub role_name : String
  pub subject_namespace : String
  pub subject_name : String

-- What a read of the API server, or of a lister's cache, comes to.
pub data Lookup {ℓ} (A : Type ℓ) : Type ℓ where
  found : A → Lookup A
  not_found : Lookup A
  get_failed : Lookup A

pub Lookup-cases {ℓ} :
    {A : Type ℓ} (l : Lookup A) → ((a : A) × (l ≡ found a)) ⊎ ((l ≡ not_found) ⊎ (l ≡ get_failed))
Lookup-cases (found a) = inl (a, refl)
Lookup-cases not_found = inr (inl refl)
Lookup-cases get_failed = inr (inr refl)

-- The calls for one kind of object, by namespace: a failed write leaves the cluster as it was.
pub record Calls (Cluster A : Type 0) : Type 0 where
  pub get : String → String → Cluster → Lookup A
  pub create : String → A → Cluster → Option (A × Cluster)
  pub update : String → A → Cluster → Option (A × Cluster)
