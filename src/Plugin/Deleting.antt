-- ===== src/Plugin/Deleting.antt =====
-- The `delete` commands of plugins/vsphere/pkg/command: they check the name and delete one object.
use sources_for_knative.Base.{String, Option, none, some, ◌==◌, string_eq, if◌then◌else◌}
use sources_for_knative.Sources.VsphereSource.{VsphereSource}
use sources_for_knative.Sources.Bindings.{VsphereBinding}
use sources_for_knative.Plugin.{
  GenericOptions, Api, Failure, no_name, no_namespace, Outcome, get_explicit_or_default_namespace,
  executed, with_value, reported,
}
use sources_for_knative.Plugin.Auth.{Secret}

-- The `PreRunE` of each `delete`
check_delete : GenericOptions → Option Failure
check_delete o = if o.name == "" then some no_name else none

module _ {S : Type 0} (configured : Option String) where
  -- `kn vsphere source delete`
  delete_source : Api S VsphereSource → GenericOptions → S → Outcome S
  delete_source sources o s =
      executed (check_delete o)
        (with_value (get_explicit_or_default_namespace configured o.namespace_name) no_namespace s
          (λ ns. reported "Deleted source" s (sources.delete ns o.name s)))
        s

  -- `kn vsphere binding delete`
  delete_binding : Api S VsphereBinding → GenericOptions → S → Outcome S
  delete_binding bindings o s =
      executed (check_delete o)
        (with_value (get_explicit_or_default_namespace configured o.namespace_name) no_namespace s
          (λ ns. reported "Deleted binding" s (bindings.delete ns o.name s)))
        s

  -- `kn vsphere auth delete`; `message` formats the text with the secret's name.
  delete_auth : (String → String) → Api S Secret → GenericOptions → S → Outcome S
  delete_auth message secrets o s =
      executed (check_delete o)
        (with_value (get_explicit_or_default_namespace configured o.namespace_name) no_namespace s
          (λ ns. reported (message o.name) s (secrets.delete ns o.name s)))
        s
