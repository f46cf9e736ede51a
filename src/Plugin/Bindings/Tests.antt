-- ===== src/Plugin/Bindings/Tests.antt =====
-- Examples for `binding create`.
use sources_for_knative.Base.{
  ℕ, String, Option, none, some, false, ◌≡◌, ◌≢◌, ◌↔◌, refl, ◌==◌, string_eq, if◌then◌else◌,
  test_eq, Bool-cases, inl, inr,
}
use sources_for_knative.Kube.{Url}
use sources_for_knative.Sources.Bindings.{Subject, validate_binding}
use sources_for_knative.Sources.Tests.{counted, counted-IsCombining}
use sources_for_knative.Plugin.Flags.{
  mutually_exclusive_string_flags, rest_exclusive, increment_if_non_empty,
}
use sources_for_knative.Plugin.Bindings.{BindingOptions, check_binding, new_binding}
use sources_for_knative.Plugin.Bindings.Accepting.{IsTracking, new_binding_accepted_iff}

abbrev lab_url : Url
lab_url = record { host = "vcenter.lab"; text = "https://vcenter.lab" }

abbrev lab_options : BindingOptions
lab_options = record {
  generic = record { namespace_name = "lab"; name = "vc-binding"; all_namespaces = false };
  vc_address = "https://vcenter.lab";
  skip_tls_verify = false;
  secret_ref = "credentials";
  subject_api_version = "apps/v1";
  subject_kind = "Deployment";
  subject_name = "app";
  subject_selector = "";
}

-- One error for a subject with both a selector and a name.
abbrev one_error : Option String → String → counted.Errors
one_error none name = 0
one_error (some selector) name = if name == "" then 0 else 1

abbrev validate_subject : Subject → counted.Errors
validate_subject s = one_error s.selector s.name

lab-IsTracking : IsTracking counted validate_subject
lab-IsTracking = record {
  one_of = λ s selector h named e. elim (Bool-cases (s.name == "")) [
    | inl p ↦ named (test_eq s.name "" p)
    | inr p ↦ let q : ◌≡◌ {A = ℕ} 1 0 = (rw (h, p) at e) in absurd cc
  ];
}

lab_checked : check_binding lab_options ≡ none
unfolding check_binding mutually_exclusive_string_flags rest_exclusive increment_if_non_empty
lab_checked = refl

new_binding_accepted_iff_example :
    (validate_binding counted validate_subject (new_binding "lab" lab_url "" lab_options) ≡ 0) ↔ (
      (lab_options.subject_name ≡ "")
      × (validate_subject (new_binding "lab" lab_url "" lab_options).subject ≡ 0)
      × (lab_url.host ≢ ""))
new_binding_accepted_iff_example =
    new_binding_accepted_iff counted counted-IsCombining validate_subject lab-IsTracking "lab"
      lab_url "" lab_options lab_checked
