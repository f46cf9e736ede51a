-- ===== src/Plugin/Bindings.antt =====
-- plugins/vsphere/pkg/command/binding: `create`.
pub mod Accepting
mod Tests
use sources_for_knative.Base.{
  String, Option, none, some, [], Bool, not, ◌&&◌, ◌==◌, string_eq, if◌then◌else◌,
}
use sources_for_knative.Kube.{Url}
use sources_for_knative.Sources.Bindings.{VsphereBinding}
use sources_for_knative.Plugin.{
  GenericOptions, Api, Failure, no_name, no_address, no_secret, no_api_version, no_kind, no_subject,
  two_subjects, no_namespace, bad_address, bad_selector, Outcome, get_explicit_or_default_namespace,
  executed, with_value, reported,
}
use sources_for_knative.Plugin.Flags.{mutually_exclusive_string_flags}

-- `Options`
pub record BindingOptions : Type 0 where
  pub generic : GenericOptions
  pub vc_address : String
  pub skip_tls_verify : Bool
  pub secret_ref : String
  pub subject_api_version : String
  pub subject_kind : String
  pub subject_name : String
  pub subject_selector : String

-- The calls of `create`; `parse_selector` is `metav1.ParseToLabelSelector`, which returns a selector
-- or an error, and never a nil selector without one.
pub record BindingTools (S : Type 0) : Type 0 where
  pub configured : Option String
  pub parse_url : String → Option Url
  pub parse_selector : String → Option String
  pub bindings : Api S VsphereBinding

-- The `PreRunE` of `create`
pub check_binding : BindingOptions → Option Failure
check_binding o =
    if o.generic.name == ""
    then some no_name
    else if o.vc_address == ""
    then some no_address
    else if o.secret_ref == ""
    then some no_secret
    else if o.subject_api_version == ""
    then some no_api_version
    else if o.subject_kind == ""
    then some no_kind
    else if o.subject_name == "" && o.subject_selector == ""
    then some no_subject
    else if not (mutually_exclusive_string_flags o.subject_name o.subject_selector [])
    then some two_subjects
    else none

-- `newBinding`
pub new_binding : String → Url → String → BindingOptions → VsphereBinding
new_binding ns address selector o = record {
  metadata = record { namespace_name = ns; name = o.generic.name; labels = []; controller = none };
  subject = record {
    api_version = o.subject_api_version;
    kind = o.subject_kind;
    namespace_name = ns;
    name = o.subject_name;
    selector = some selector;
  };
  auth = record {
    address = address;
    skip_tls_verify = o.skip_tls_verify;
    secret_name = o.secret_ref;
  };
  ready = none;
}

module _ {S : Type 0} (tools : BindingTools S) where
  -- The `RunE` of `create`
  run_create_binding : BindingOptions → S → Outcome S
  run_create_binding o s =
      with_value (get_explicit_or_default_namespace tools.configured o.generic.namespace_name)
        no_namespace s
        (λ ns. with_value (tools.parse_url o.vc_address) bad_address s (λ address.
          with_value (tools.parse_selector o.subject_selector) bad_selector s (λ selector.
            reported "Created binding" s
              (tools.bindings.create ns (new_binding ns address selector o) s))))

  -- `kn vsphere binding create`
  create_binding : BindingOptions → S → Outcome S
  create_binding o s = executed (check_binding o) (run_create_binding o s) s
