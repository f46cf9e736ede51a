-- ===== src/Sources.antt =====
-- The custom resources of pkg/apis/sources/v1alpha1: their types, defaults and validation.
-- `Knative` holds what they take from knative.dev/pkg: field errors and the sink's own methods.
pub mod HorizonSource
pub mod VsphereSource
pub mod Bindings
pub mod Tests
use sources_for_knative.Base.{String, ℤ, Option, Bool, ◌≡◌, ◌≢◌, ◌↔◌, Text}
use sources_for_knative.Kube.{Url}
use sources_for_knative.Binding.{VAuthSpec}

-- A reference of a sink, and the sink.
pub record KReference : Type 0 where
  pub kind : String
  pub namespace_name : String
  pub name : String
  pub api_version : String

pub record Destination : Type 0 where
  pub ref : Option KReference
  pub uri : Option String

-- apis.FieldError: `nil`, `Also`, `ViaField` and the errors that are raised; the methods of
-- duckv1.Destination and of the binding's subject.
pub record Knative : Type 1 where
  pub Errors : Type 0
  pub no_error : Errors
  pub also : Errors → Errors → Errors
  pub via_field : String → Errors → Errors
  pub missing_field : String → Errors
  pub invalid_text : Text → String → Errors
  pub invalid_number : ℤ → String → Errors
  pub changed_fields : String → Errors
  pub diff_failed : Errors
  pub validate_sink : Destination → Errors
  pub default_sink : String → Destination → Destination

-- There is an error in a combination exactly if there is one in a part.
pub record IsCombining (k : Knative) : Type 0 where
  pub also_iff :
      (a b : k.Errors) → (k.also a b ≡ k.no_error) ↔ ((a ≡ k.no_error) × (b ≡ k.no_error))
  pub via_field_iff :
      (f : String) (a : k.Errors) → (k.via_field f a ≡ k.no_error) ↔ (a ≡ k.no_error)
  pub missing_ne : (f : String) → k.missing_field f ≢ k.no_error
  pub invalid_text_ne : (t : Text) (f : String) → k.invalid_text t f ≢ k.no_error
  pub invalid_number_ne : (n : ℤ) (f : String) → k.invalid_number n f ≢ k.no_error
  pub changed_ne : (d : String) → k.changed_fields d ≢ k.no_error
  pub diff_failed_ne : k.diff_failed ≢ k.no_error
