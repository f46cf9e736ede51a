-- ===== src/Sources/Tests.antt =====
-- Examples for defaults and validation, with field errors that are only counted.
use sources_for_knative.Base.{
  [], Eq, ℕ, ◌+◌, String, pos, ◌≤ℤ◌, none, some, ◌≡◌, ◌≢◌, ◌↔◌, inl, inr, refl, arith, true, false,
  Bool-cases, string_eq, ne_of_test, codes, lower_rune, if◌then◌else◌,
}
use sources_for_knative.Kube.Equality.{eq_by, eq_pair, eq_option, eq_bool}
use sources_for_knative.Binding.{VAuthSpec}
use sources_for_knative.Sources.{KReference, Destination, Knative, IsCombining}
use sources_for_knative.Sources.Bindings.{VsphereBinding, validate_auth, validate_auth_iff}
use sources_for_knative.Sources.HorizonSource.{HorizonSourceSpec, HorizonSource, Diff, diff_text}
use sources_for_knative.Sources.VsphereSource as V
use sources_for_knative.Sources.VsphereSource.{VCheckpointSpec, VsphereSourceSpec, VsphereSource}
use sources_for_knative.Sources.VsphereSource.Validation.{IsSupported, validate_spec_iff}

abbrev pub counted : Knative
counted = record {
  Errors = ℕ;
  no_error = 0;
  also = λ a b. a + b;
  via_field = λ f a. a;
  missing_field = λ f. 1;
  invalid_text = λ t f. 1;
  invalid_number = λ n f. 1;
  changed_fields = λ d. 1;
  diff_failed = 1;
  validate_sink = λ d. 0;
  default_sink = λ ns d. d;
}

pub counted-IsCombining : IsCombining counted
counted-IsCombining = record {
  also_iff = λ a b. (λ h. (omega arith, omega arith), λ h. omega arith);
  via_field_iff = λ f a. (λ h. h, λ h. h);
  missing_ne = λ f h. omega arith;
  invalid_text_ne = λ t f h. omega arith;
  invalid_number_ne = λ n f h. omega arith;
  changed_ne = λ d h. omega arith;
  diff_failed_ne = λ h. omega arith;
}

abbrev lab_auth : VAuthSpec
lab_auth = record {
  address = record { host = "lab"; text = "https://lab" };
  skip_tls_verify = false;
  secret_name = "credentials";
}

lab_auth_accepted : validate_auth counted lab_auth ≡ 0
lab_auth_accepted =
    (validate_auth_iff counted counted-IsCombining lab_auth).1
      (ne_of_test "lab" "" refl, ne_of_test "credentials" "" refl)

abbrev sink : Destination
sink = record { ref = none; uri = some "http://sink" }

abbrev lab_binding : VsphereBinding
lab_binding = record {
  metadata = record { namespace_name = "lab"; name = "app"; labels = []; controller = none };
  subject = record {
    api_version = "apps/v1";
    kind = "Deployment";
    namespace_name = "";
    name = "app";
    selector = none;
  };
  auth = lab_auth;
  ready = none;
}

abbrev horizon_spec : HorizonSourceSpec
horizon_spec = record {
  sink = sink;
  ce_overrides = none;
  service_account_name = "";
  auth = lab_auth;
}

abbrev horizon_source : HorizonSource
horizon_source = record { namespace_name = "lab"; name = "src"; uid = "uid-1"; spec = horizon_spec }

eq_reference : Eq KReference
eq_reference =
    eq_by (λ r. (r.kind, (r.namespace_name, (r.name, r.api_version))))
      (λ p. record { kind = p.0; namespace_name = p.1.0; name = p.1.1.0; api_version = p.1.1.1 })
      (λ r. refl) (eq_pair string_eq (eq_pair string_eq (eq_pair string_eq string_eq)))

eq_destination : Eq Destination
eq_destination =
    eq_by (λ d. (d.ref, d.uri)) (λ p. record { ref = p.0; uri = p.1 }) (λ d. refl)
      (eq_pair (eq_option eq_reference) (eq_option string_eq))

eq_auth : Eq VAuthSpec
eq_auth =
    eq_by (λ a. (a.address.host, (a.address.text, (a.skip_tls_verify, a.secret_name))))
      (λ p. record {
        address = record { host = p.0; text = p.1.0 };
        skip_tls_verify = p.1.1.0;
        secret_name = p.1.1.1;
      })
      (λ a. refl) (eq_pair string_eq (eq_pair string_eq (eq_pair eq_bool string_eq)))

eq_horizon_spec : Eq HorizonSourceSpec
eq_horizon_spec =
    eq_by (λ s. (s.sink, (s.ce_overrides, (s.service_account_name, s.auth))))
      (λ p. record {
        sink = p.0;
        ce_overrides = p.1.0;
        service_account_name = p.1.1.0;
        auth = p.1.1.1;
      })
      (λ s. refl)
      (eq_pair eq_destination (eq_pair (eq_option string_eq) (eq_pair string_eq eq_auth)))

-- A difference is either empty or not.
short_diff : HorizonSourceSpec → HorizonSourceSpec → Diff
short_diff a b = if eq_horizon_spec.test a b then diff_text "" else diff_text "differs"

text_of : {s t : String} → diff_text s ≡ diff_text t → s ≡ t
text_of h = cc

short_diff_empty_iff : (a b : HorizonSourceSpec) → (short_diff a b ≡ diff_text "") ↔ (a ≡ b)
unfolding short_diff
short_diff_empty_iff a b = elim (Bool-cases (eq_horizon_spec.test a b)) [
  | inl e ↦ rw e (λ h. (eq_horizon_spec.test_iff a b).0 e, λ h. refl)
  | inr e ↦ rw e (
    λ p. absurd (ne_of_test {A = String} "differs" "" refl (text_of p)),
    λ p. let q : eq_horizon_spec.test a b ≡ true = (eq_horizon_spec.test_iff a b).1 p in absurd cc,
  )
]

abbrev valid_source : HorizonSource
valid_source = record horizon_source {
  spec = record horizon_spec { service_account_name = "horizon" };
}

abbrev vsphere_spec : VsphereSourceSpec
vsphere_spec = record {
  sink = sink;
  ce_overrides = none;
  auth = lab_auth;
  checkpoint_config = record { max_age_seconds = pos 0; period_seconds = pos 0 };
  payload_encoding = codes "Application/JSON";
  service_account_name = "";
}

abbrev vsphere_source : VsphereSource
vsphere_source = record { namespace_name = "lab"; name = "src"; uid = "uid-2"; spec = vsphere_spec }

validate_spec_iff_example : (V.validate_spec counted (λ c. c) vsphere_spec ≡ 0) ↔ (
    (◌≡◌ {A = ℕ} 0 0)
    × (vsphere_spec.auth.address.host ≢ "")
    × (vsphere_spec.auth.secret_name ≢ "")
    × (pos 0 ≤ℤ vsphere_spec.checkpoint_config.max_age_seconds)
    × (pos 0 ≤ℤ vsphere_spec.checkpoint_config.period_seconds)
    × IsSupported counted (λ c. c) counted-IsCombining vsphere_spec.payload_encoding)
validate_spec_iff_example = validate_spec_iff counted (λ c. c) counted-IsCombining vsphere_spec

lower_rune_idem : (c : ℕ) → lower_rune (λ d. d) (lower_rune (λ d. d) c) ≡ lower_rune (λ d. d) c
unfolding lower_rune
lower_rune_idem c = ground arith
