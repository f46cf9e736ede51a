-- ===== src/Plugin/Sources/Accepting.antt =====
-- What the webhook makes of a source that `source create` sends, and what its adapter reads.
use sources_for_knative.Base.{
  String, pos, ◌≤ℤ◌, none, ◌++◌, Bool, true, false, not, ◌||◌, ◌≡◌, ◌≢◌, ◌↔◌, ◌⊎◌, inl, inr, refl,
  ◌==◌, string_eq, ne_of_test, Text, codes, to_lower, ap,
}
use sources_for_knative.Kube.{Url}
use sources_for_knative.Sources.{Destination, Knative, IsCombining}
use sources_for_knative.Sources.VsphereSource.{text_beq, validate, validate_spec}
use sources_for_knative.Sources.VsphereSource.Validation.{
  validate_spec_iff, text_beq_iff, IsSupported,
}
use sources_for_knative.Plugin.Outcomes.{guard_passed}
use sources_for_knative.Plugin.Sources.{
  SourceTools, SourceOptions, lacks_sink, is_valid_encoding, check_source, new_source,
}

or_true : (a b : Bool) → (a || b) ≡ true → (a ≡ true) ⊎ (b ≡ true)
or_true true b h = inl refl
or_true false b h = inr h

not-false : (b : Bool) → not b ≡ false → b ≡ true
not-false true h = refl
not-false false h = absurd cc

valid_encoding : (t : Text) → is_valid_encoding t ≡ true → (t ≡ codes "xml") ⊎ (t ≡ codes "json")
unfolding is_valid_encoding
valid_encoding t h = elim (or_true (text_beq t (codes "xml")) (text_beq t (codes "json")) h) [
  | inl p ↦ inl ((text_beq_iff t (codes "xml")).0 p)
  | inr p ↦ inr ((text_beq_iff t (codes "json")).0 p)
]

module _ {S : Type 0} (tools : SourceTools S) (o : SourceOptions) where
  -- What the checks have made sure of.
  checked :
      check_source tools o ≡ none
      → (o.generic.name ≢ "")
        × (o.vc_address ≢ "")
        × (o.secret_ref ≢ "")
        × (lacks_sink o ≡ false)
        × ((to_lower tools.unicode_lower o.payload_encoding ≡ codes "xml")
            ⊎ (to_lower tools.unicode_lower o.payload_encoding ≡ codes "json"))
  unfolding check_source
  checked h =
      let (name, h1) = guard_passed (o.generic.name == "") _ _ h in
      let (address, h2) = guard_passed (o.vc_address == "") _ _ h1 in
      let (secret, h3) = guard_passed (o.secret_ref == "") _ _ h2 in
      let (sink, h4) = guard_passed (lacks_sink o) _ _ h3 in
      let (encoding, h5) =
        guard_passed (not (is_valid_encoding (to_lower tools.unicode_lower o.payload_encoding))) _ _
          h4 in
      (
        ne_of_test o.generic.name "" name,
        ne_of_test o.vc_address "" address,
        ne_of_test o.secret_ref "" secret,
        sink,
        valid_encoding _ (not-false _ encoding),
      )

  supported :
      (k : Knative) (combining : IsCombining k) (t : Text)
      → (t ≡ codes "xml") ⊎ (t ≡ codes "json")
      → IsSupported k tools.unicode_lower combining (codes "application/" ++ t)
  unfolding to_lower
  supported k combining t (inl p) =
      inr (ap (λ x. to_lower tools.unicode_lower (codes "application/" ++ x)) p)
  supported k combining t (inr p) =
      inl (ap (λ x. to_lower tools.unicode_lower (codes "application/" ++ x)) p)

  -- The webhook accepts a source that passed the checks of `source create` exactly if it accepts the
  -- sink, the address has a host and neither duration is negative in whole seconds.
  pub new_source_accepted_iff :
      (k : Knative)
      → IsCombining k
      → (ns : String) (sink : Destination) (address : Url) → check_source tools o ≡ none
      → (validate k tools.unicode_lower (new_source tools ns sink address o) ≡ k.no_error) ↔ (
          (k.validate_sink sink ≡ k.no_error)
          × (address.host ≢ "")
          × (pos 0 ≤ℤ tools.seconds_of o.checkpoint_max_age)
          × (pos 0 ≤ℤ tools.seconds_of o.checkpoint_period))
  unfolding new_source validate
  new_source_accepted_iff k combining ns sink address passed =
      let spec = (new_source tools ns sink address o).spec in
      let whole = combining.via_field_iff "spec" (validate_spec k tools.unicode_lower spec) in
      let parts = validate_spec_iff k tools.unicode_lower combining spec in
      let facts = checked passed in
      (
        λ h. let (a, b, c, d, e, f) = parts.0 (whole.0 h) in (a, b, d, e),
        λ h. whole.1 (parts.1 (h.0, h.1, facts.2, h.2, h.3, supported k combining _ facts.4)),
      )
