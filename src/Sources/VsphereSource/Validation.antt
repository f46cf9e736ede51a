-- ===== src/Sources/VsphereSource/Validation.antt =====
-- What validation accepts of a VSphereSource.
use sources_for_knative.Base.{
  ℕ, String, ℤ, pos, ltb_ℤ, ◌≤ℤ◌, [], ◌∷◌, true, ◌≡◌, ◌≢◌, ◌↔◌, ◌⊎◌, refl, int_eq, string_eq,
  Bool-cases, inl, inr, Text, to_lower, arith,
}
use sources_for_knative.Sources.{Knative, IsCombining}
use sources_for_knative.Sources.Bindings.{validate_auth, validate_auth_iff}
use sources_for_knative.Sources.VsphereSource.{
  VCheckpointSpec, VsphereSourceSpec, application_xml, application_json, text_beq,
  require_not_negative, validate_checkpoint, check_encoding, validate_spec,
}

pub text_beq_iff : (s t : Text) → (text_beq s t ≡ true) ↔ (s ≡ t)
unfolding text_beq
text_beq_iff [] [] = (λ h. refl, λ h. refl)
text_beq_iff [] (d ∷ t) = (λ h. absurd cc, λ h. absurd cc)
text_beq_iff (c ∷ s) [] = (λ h. absurd cc, λ h. absurd cc)
text_beq_iff (c ∷ s) (d ∷ t) =
    (λ h. ground (arith, text_beq_iff s t), λ h. ground (arith, text_beq_iff s t))

module _ (k : Knative) (unicode_lower : ℕ → ℕ) where
  module _ (combining : IsCombining k) where
    require_not_negative_iff :
        (n : ℤ) (field : String) (e : k.Errors)
        → (require_not_negative k unicode_lower n field e ≡ k.no_error)
          ↔ ((e ≡ k.no_error) × (pos 0 ≤ℤ n))
    unfolding require_not_negative
    require_not_negative_iff n field e = elim (Bool-cases (ltb_ℤ n (pos 0))) [
      | inl p ↦ rw p (
        λ h. absurd (
            combining.invalid_number_ne n field
              ((combining.also_iff e (k.invalid_number n field)).0 h).1),
        λ h. absurd (ground arith),
      )
      | inr p ↦ rw p (λ h. (h, ground arith), λ h. h.0)
    ]

    -- A checkpoint configuration is accepted exactly if neither of its numbers is negative.
    validate_checkpoint_iff :
        (c : VCheckpointSpec)
        → (validate_checkpoint k unicode_lower c ≡ k.no_error)
          ↔ ((pos 0 ≤ℤ c.max_age_seconds) × (pos 0 ≤ℤ c.period_seconds))
    unfolding validate_checkpoint
    validate_checkpoint_iff c =
        let inner =
          require_not_negative_iff c.period_seconds "checkpointConfig.periodSeconds" k.no_error in
        let outer = require_not_negative_iff c.max_age_seconds "checkpointConfig.maxAgeSeconds" (
          require_not_negative k unicode_lower c.period_seconds "checkpointConfig.periodSeconds"
            k.no_error) in
        (λ h. ((outer.0 h).1, (inner.0 (outer.0 h).0).1), λ h. outer.1 (inner.1 (refl, h.1), h.0))

    check_encoding_iff :
        (encoding : Text) (errs : k.Errors)
        → (check_encoding k unicode_lower encoding errs ≡ k.no_error)
          ↔ ((errs ≡ k.no_error) × ((encoding ≡ application_json) ⊎ (encoding ≡ application_xml)))
    unfolding check_encoding
    check_encoding_iff encoding errs = elim (Bool-cases (text_beq encoding application_json)) [
      | inl p ↦ rw p (λ h. (h, inl ((text_beq_iff encoding application_json).0 p)), λ h. h.0)
      | inr p ↦ elim (Bool-cases (text_beq encoding application_xml)) [
        | inl q ↦ rw (p, q) (λ h. (h, inr ((text_beq_iff encoding application_xml).0 q)), λ h. h.0)
        | inr q ↦
            rw (p, q)
              (
                λ h. absurd (
                    combining.invalid_text_ne encoding "payloadEncoding"
                      ((combining.also_iff errs (k.invalid_text encoding "payloadEncoding")).0
                        h).1),
                λ h. elim h.1 [
                  | inl e ↦ let t = (text_beq_iff encoding application_json).1 e in absurd cc
                  | inr e ↦ let t = (text_beq_iff encoding application_xml).1 e in absurd cc
                ],
              )
      ]
    ]

    -- The payload encoding in lower case is one of the two that are supported.
    abbrev pub IsSupported : Text → Type 0
    IsSupported t =
        (to_lower unicode_lower t ≡ application_json) ⊎ (to_lower unicode_lower t ≡ application_xml)

    -- A spec is accepted exactly if the sink is, the host and the secret are named, no number of the
    -- checkpoint configuration is negative and the encoding is JSON or XML in any case.
    pub validate_spec_iff :
        (spec : VsphereSourceSpec)
        → (validate_spec k unicode_lower spec ≡ k.no_error) ↔ (
            (k.validate_sink spec.sink ≡ k.no_error)
            × (spec.auth.address.host ≢ "")
            × (spec.auth.secret_name ≢ "")
            × (pos 0 ≤ℤ spec.checkpoint_config.max_age_seconds)
            × (pos 0 ≤ℤ spec.checkpoint_config.period_seconds)
            × IsSupported spec.payload_encoding)
    unfolding validate_spec
    validate_spec_iff spec =
        let sink_part = k.via_field "sink" (k.validate_sink spec.sink) in
        let auth_part = validate_auth k spec.auth in
        let checkpoint_part = validate_checkpoint k unicode_lower spec.checkpoint_config in
        let a =
          check_encoding_iff (to_lower unicode_lower spec.payload_encoding)
            (k.also (k.also sink_part auth_part) checkpoint_part) in
        let b = combining.also_iff (k.also sink_part auth_part) checkpoint_part in
        let c = combining.also_iff sink_part auth_part in
        let d = combining.via_field_iff "sink" (k.validate_sink spec.sink) in
        let f = validate_auth_iff k combining spec.auth in
        let g = validate_checkpoint_iff spec.checkpoint_config in
        (
          λ h.
              let outer = b.0 (a.0 h).0 in
              let inner = c.0 outer.0 in
              (
                d.0 inner.0,
                (f.0 inner.1).0,
                (f.0 inner.1).1,
                (g.0 outer.1).0,
                (g.0 outer.1).1,
                (a.0 h).1,
              ),
          λ h. a.1 (b.1 (c.1 (d.1 h.0, f.1 (h.1, h.2)), g.1 (h.3, h.4)), h.5),
        )
