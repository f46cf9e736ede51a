-- ===== src/Sources/HorizonSource.antt =====
-- HorizonSource: horizonsource_types.go, horizonsource_defaults.go, horizonsource_validation.go.
use sources_for_knative.Base.{
  String, Option, none, some, not, ◌≡◌, ◌≢◌, ◌↔◌, refl, ap, ◌==◌, string_eq, test_eq, ne_of_test,
  if◌then◌else◌, Bool-cases, inl, inr,
}
use sources_for_knative.Binding.{VAuthSpec}
use sources_for_knative.Sources.{Destination, Knative, IsCombining}
use sources_for_knative.Sources.Bindings.{
  require_text, require_text_iff, validate_auth, validate_auth_iff,
}

-- `HorizonSourceSpec`; `ce_overrides` stands for the cloud event overrides, if there are any.
pub record HorizonSourceSpec : Type 0 where
  pub sink : Destination
  pub ce_overrides : Option String
  pub service_account_name : String
  pub auth : VAuthSpec

-- The metadata that the program reads, and the spec.
pub record HorizonSource : Type 0 where
  pub namespace_name : String
  pub name : String
  pub uid : String
  pub spec : HorizonSourceSpec

-- The result of `kmp.ShortDiff`.
pub data Diff : Type 0 where
  diff_text : String → Diff
  diff_error : Diff

module _ (k : Knative) where
  -- `SetDefaults`
  pub set_defaults : HorizonSource → HorizonSource
  set_defaults hs = record hs {
    spec = record hs.spec {
      service_account_name =
          if hs.spec.service_account_name == "" then "default" else hs.spec.service_account_name;
      sink = k.default_sink hs.namespace_name hs.spec.sink;
    };
  }

  -- `HorizonSourceSpec.Validate`
  pub validate_spec : HorizonSourceSpec → k.Errors
  validate_spec spec =
      require_text k spec.service_account_name "serviceAccountName"
        (k.also (k.via_field "sink" (k.validate_sink spec.sink)) (validate_auth k spec.auth))

  -- What an update adds: all fields are immutable.
  check_update : Diff → HorizonSource → k.Errors
  check_update diff_error src = k.diff_failed
  check_update (diff_text d) src =
      if not (d == "")
      then k.changed_fields d
      else k.also k.no_error (k.via_field "spec" (validate_spec src.spec))

  -- `Validate`, with the original spec where the context is that of an update.
  pub validate :
      (HorizonSourceSpec → HorizonSourceSpec → Diff)
      → Option HorizonSourceSpec
      → HorizonSource
      → k.Errors
  unfolding check_update
  validate short_diff none src = k.also k.no_error (k.via_field "spec" (validate_spec src.spec))
  validate short_diff (some original) src = check_update (short_diff original src.spec) src

  module _ (combining : IsCombining k) where
    -- A spec is accepted exactly if the sink is, and the service account, the host of the address
    -- and the secret are named.
    horizon_spec_iff :
        (spec : HorizonSourceSpec)
        → (validate_spec spec ≡ k.no_error) ↔ (
            (k.validate_sink spec.sink ≡ k.no_error)
            × (spec.auth.address.host ≢ "")
            × (spec.auth.secret_name ≢ "")
            × (spec.service_account_name ≢ ""))
    unfolding validate_spec
    horizon_spec_iff spec =
        let sink_part = k.via_field "sink" (k.validate_sink spec.sink) in
        let auth_part = validate_auth k spec.auth in
        let a =
          require_text_iff k combining spec.service_account_name "serviceAccountName"
            (k.also sink_part auth_part) in
        let b = combining.also_iff sink_part auth_part in
        let c = combining.via_field_iff "sink" (k.validate_sink spec.sink) in
        let d = validate_auth_iff k combining spec.auth in
        (
          λ h.
              let parts = b.0 (a.0 h).0 in
              (c.0 parts.0, (d.0 parts.1).0, (d.0 parts.1).1, (a.0 h).1),
          λ h. a.1 (b.1 (c.1 h.0, d.1 (h.1, h.2)), h.3),
        )

    check_update_same :
        (d : Diff) (src : HorizonSource)
        → check_update d src ≡ k.no_error
        → (d ≡ diff_text "") × (validate_spec src.spec ≡ k.no_error)
    unfolding check_update
    check_update_same diff_error src h = absurd (combining.diff_failed_ne h)
    check_update_same (diff_text d) src h = elim (Bool-cases (d == "")) [
      | inl e ↦
          let h' : k.also k.no_error (k.via_field "spec" (validate_spec src.spec)) ≡ k.no_error =
            (rw e at h) in
          (
            ap diff_text (test_eq d "" e),
            (combining.via_field_iff "spec" (validate_spec src.spec)).0
                ((combining.also_iff k.no_error (k.via_field "spec" (validate_spec src.spec))).0
                  h').1,
          )
      | inr e ↦ absurd (combining.changed_ne d (rw e at h))
    ]

    check_update_empty :
        (d : Diff) (src : HorizonSource)
        → d ≡ diff_text ""
        → validate_spec src.spec ≡ k.no_error
        → check_update d src ≡ k.no_error
    unfolding check_update
    check_update_empty d src h v = rw h (
        (combining.also_iff k.no_error (k.via_field "spec" (validate_spec src.spec))).1
          (refl, (combining.via_field_iff "spec" (validate_spec src.spec)).1 v))

    -- An update is accepted exactly if the spec is unchanged and valid, where `ShortDiff` is empty
    -- exactly between equal specs.
    validate_update_iff :
        (short_diff : HorizonSourceSpec → HorizonSourceSpec → Diff) (original : HorizonSourceSpec)
        (src : HorizonSource)
        → ((a b : HorizonSourceSpec) → (short_diff a b ≡ diff_text "") ↔ (a ≡ b))
        → (validate short_diff (some original) src ≡ k.no_error)
          ↔ ((original ≡ src.spec) × (validate_spec src.spec ≡ k.no_error))
    unfolding validate
    validate_update_iff short_diff original src faithful = (
      λ h.
          let r = check_update_same (short_diff original src.spec) src h in
          ((faithful original src.spec).0 r.0, r.1),
      λ h.
          check_update_empty (short_diff original src.spec) src ((faithful original src.spec).1 h.0)
            h.1,
    )

    -- After the defaults a source never lacks its service account, and the defaults can be applied
    -- again without effect, if those of the sink can.
    horizon_defaults_settle :
        (hs : HorizonSource)
        → ((ns : String) (d : Destination)
            → k.default_sink ns (k.default_sink ns d) ≡ k.default_sink ns d)
        → ((set_defaults hs).spec.service_account_name ≢ "")
          × (set_defaults (set_defaults hs) ≡ set_defaults hs)
    unfolding set_defaults
    horizon_defaults_settle hs idem = elim (Bool-cases (hs.spec.service_account_name == "")) [
      | inl e ↦ (rw e (ne_of_test "default" "" refl), rw (e, idem))
      | inr e ↦ (rw e (ne_of_test hs.spec.service_account_name "" e), rw (e, e, idem))
    ]
