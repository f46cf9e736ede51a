-- ===== src/Sources/VsphereSource.antt =====
-- VSphereSource: vspheresource_types.go, vspheresource_defaults.go, vspheresource_validation.go.
pub mod Validation
pub mod Defaults
use sources_for_knative.Base.{
  ℕ, String, ℤ, pos, negsuc, zero, suc, ltb_ℤ, ◌≤ℤ◌, Option, [], ◌∷◌, map, Bool, true, false, not,
  ◌&&◌, ◌≡◌, ◌≢◌, ◌↔◌, ◌⊎◌, refl, int_eq, string_eq, if◌then◌else◌, Bool-cases, inl, inr, Text,
  codes, to_lower, lower_rune, nat_beq, arith,
}
use sources_for_knative.Binding.{VAuthSpec}
use sources_for_knative.Sources.{Destination, Knative, IsCombining}
use sources_for_knative.Sources.Bindings.{validate_auth, validate_auth_iff}

pub record VCheckpointSpec : Type 0 where
  pub max_age_seconds : ℤ
  pub period_seconds : ℤ

pub record VsphereSourceSpec : Type 0 where
  pub sink : Destination
  pub ce_overrides : Option String
  pub auth : VAuthSpec
  pub checkpoint_config : VCheckpointSpec
  pub payload_encoding : Text
  pub service_account_name : String

pub record VsphereSource : Type 0 where
  pub namespace_name : String
  pub name : String
  pub uid : String
  pub spec : VsphereSourceSpec

abbrev pub application_xml : Text
application_xml = codes "application/xml"

abbrev pub application_json : Text
application_json = codes "application/json"

-- Whether a text is another one, as Go's `==` has it.
unfoldable pub text_beq : Text → Text → Bool
text_beq [] [] = true
text_beq [] (d ∷ t) = false
text_beq (c ∷ s) [] = false
text_beq (c ∷ s) (d ∷ t) = nat_beq c d && text_beq s t

default_period : ℤ → ℤ
default_period (pos zero) = pos 10
default_period (pos (suc n)) = pos (suc n)
default_period (negsuc n) = negsuc n

module _ (k : Knative) (unicode_lower : ℕ → ℕ) where
  default_encoding : Text → Text
  default_encoding [] = application_xml
  default_encoding (c ∷ s) = to_lower unicode_lower (c ∷ s)

  -- `SetDefaults`; the default period of 10 seconds is that of the package vsphere.
  pub set_defaults : VsphereSource → VsphereSource
  unfolding default_encoding
  set_defaults vs = record vs {
    spec = record vs.spec {
      sink = k.default_sink vs.namespace_name vs.spec.sink;
      checkpoint_config = record vs.spec.checkpoint_config {
        period_seconds = default_period vs.spec.checkpoint_config.period_seconds;
      };
      payload_encoding = default_encoding vs.spec.payload_encoding;
    };
  }

  require_not_negative : ℤ → String → k.Errors → k.Errors
  require_not_negative n field e =
      if ltb_ℤ n (pos 0) then k.also e (k.invalid_number n field) else e

  -- `VCheckpointSpec.Validate`
  pub validate_checkpoint : VCheckpointSpec → k.Errors
  unfolding require_not_negative
  validate_checkpoint c =
      require_not_negative c.max_age_seconds "checkpointConfig.maxAgeSeconds"
        (require_not_negative c.period_seconds "checkpointConfig.periodSeconds" k.no_error)

  -- The last check of `VSphereSourceSpec.Validate`, on the encoding in lower case.
  check_encoding : Text → k.Errors → k.Errors
  check_encoding encoding errs =
      if not (text_beq encoding application_json) && not (text_beq encoding application_xml)
      then k.also errs (k.invalid_text encoding "payloadEncoding")
      else errs

  -- `VSphereSourceSpec.Validate`
  pub validate_spec : VsphereSourceSpec → k.Errors
  validate_spec spec = check_encoding (to_lower unicode_lower spec.payload_encoding) (
      k.also (k.also (k.via_field "sink" (k.validate_sink spec.sink)) (validate_auth k spec.auth))
        (validate_checkpoint spec.checkpoint_config))

  -- `VSphereSource.Validate`
  unfoldable pub validate : VsphereSource → k.Errors
  validate vs = k.via_field "spec" (validate_spec vs.spec)
