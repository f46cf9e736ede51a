-- ===== src/Plugin/Listing.antt =====
-- The `list` commands of plugins/vsphere/pkg/command: list.go of source and of binding.
pub mod Rows
use sources_for_knative.Base.{
  ℕ, String, ℤ, Option, none, some, List, [], ◌∷◌, ◌++◌, map, Bool, true, false, not, ◌&&◌, ◌||◌,
  ◌==◌, string_eq, if◌then◌else◌, length, ◌≡◌, ◌≢◌, ◌↔◌, ◌+◌, refl,
}
use sources_for_knative.Kube.{Url, Condition}
use sources_for_knative.Sources.VsphereSource.{VsphereSource}
use sources_for_knative.Sources.Bindings.{VsphereBinding}
use sources_for_knative.Plugin.{
  GenericOptions, Failure, two_namespaces, no_namespace, call_failed, kind_failed, print_failed,
  with_value, executed, Outcome, printed, failed, get_explicit_or_default_namespace,
}

-- A cell of a row.
pub data Cell : Type 0 where
  text : String → Cell
  address : Url → Cell
  flag : Bool → Cell

-- An object of a list, with the time of its creation and the conditions of its status.
pub record Listed (A : Type 0) : Type 0 where
  pub object : A
  pub created : ℤ
  pub conditions : List Condition

-- The functions of kn's package commands that make cells: `TranslateTimestampSince`,
-- `ConditionsValue`, `ReadyCondition` and `NonReadyConditionReason`.
pub record Columns : Type 0 where
  pub age : ℤ → String
  pub conditions_value : List Condition → String
  pub ready : List Condition → String
  pub reason : List Condition → String

-- The names of the columns that `ListHandlers` defines; kn leaves out those of priority 0, the first
-- one, unless namespaces are shown.
pub column_definitions : List (String × ℕ)
column_definitions =
    ("Namespace", 0)
    ∷ ("Name", 1)
    ∷ ("VCenter", 1)
    ∷ ("Insecure", 1)
    ∷ ("Credentials", 1)
    ∷ ("Age", 1)
    ∷ ("Conditions", 1)
    ∷ ("Ready", 1)
    ∷ ("Reason", 1)
    ∷ []

module _ (columns : Columns) where
  -- `printSource`: the cells of its one row.
  pub print_source : Bool → Listed VsphereSource → List Cell
  print_source all_namespaces s =
      let cells =
        text s.object.name
        ∷ address s.object.spec.auth.address
        ∷ flag s.object.spec.auth.skip_tls_verify
        ∷ text s.object.spec.auth.secret_name
        ∷ text (columns.age s.created)
        ∷ text (columns.conditions_value s.conditions)
        ∷ text (columns.ready s.conditions)
        ∷ text (columns.reason s.conditions)
        ∷ [] in
      if all_namespaces then text s.object.namespace_name ∷ cells else cells

  -- `printSourceList`
  pub print_source_list : Bool → List (Listed VsphereSource) → List (List Cell)
  print_source_list all_namespaces [] = []
  print_source_list all_namespaces (s ∷ rest) =
      print_source all_namespaces s ∷ print_source_list all_namespaces rest

  -- `printBinding`
  pub print_binding : Bool → Listed VsphereBinding → List Cell
  print_binding all_namespaces b =
      let cells =
        text b.object.metadata.name
        ∷ address b.object.auth.address
        ∷ flag b.object.auth.skip_tls_verify
        ∷ text b.object.auth.secret_name
        ∷ text (columns.age b.created)
        ∷ text (columns.conditions_value b.conditions)
        ∷ text (columns.ready b.conditions)
        ∷ text (columns.reason b.conditions)
        ∷ [] in
      if all_namespaces then text b.object.metadata.namespace_name ∷ cells else cells

  -- `printBindingList`
  pub print_binding_list : Bool → List (Listed VsphereBinding) → List (List Cell)
  print_binding_list all_namespaces [] = []
  print_binding_list all_namespaces (b ∷ rest) =
      print_binding all_namespaces b ∷ print_binding_list all_namespaces rest

-- The `PreRunE` of each `list`
check_list : GenericOptions → Option Failure
check_list o =
    if not (o.namespace_name == "") && o.all_namespaces then some two_namespaces else none

-- The namespace that is listed; all of them is the empty text.
listed_namespace : Option String → GenericOptions → Option String
listed_namespace configured o =
    if not o.all_namespaces
    then get_explicit_or_default_namespace configured o.namespace_name
    else some ""

abbrev pub is_empty : {A : Type 0} → List A → Bool
is_empty [] = true
is_empty (a ∷ rest) = false

-- What the `list` commands call: the client, whether an output format was given, the update of the
-- kinds of the objects, and kn's printing with or without namespaces.
pub record ListTools (S A : Type 0) : Type 0 where
  pub configured : Option String
  pub output_specified : Bool
  pub list : String → S → Option (List (Listed A))
  pub update_kinds : List (Listed A) → Option (List (Listed A))
  pub print : Bool → List (Listed A) → Option String

module _ {S A : Type 0} (tools : ListTools S A) (nothing : String) where
  list_found : GenericOptions → S → String → List (Listed A) → Outcome S
  list_found o s ns items =
      if not tools.output_specified && is_empty items
      then printed nothing s
      else with_value (tools.update_kinds items) kind_failed s
          (λ copy. with_value (tools.print (ns == "") copy) print_failed s (λ out. printed out s))

  run_list : GenericOptions → S → Outcome S
  unfolding list_found
  run_list o s =
      with_value (listed_namespace tools.configured o) no_namespace s
        (λ ns. with_value (tools.list ns s) call_failed s (λ items. list_found o s ns items))

-- `kn vsphere source list`
list_sources : {S : Type 0} → ListTools S VsphereSource → GenericOptions → S → Outcome S
list_sources tools o s = executed (check_list o) (run_list tools "No sources found.\n" o s) s

-- `kn vsphere binding list`
list_bindings : {S : Type 0} → ListTools S VsphereBinding → GenericOptions → S → Outcome S
list_bindings tools o s = executed (check_list o) (run_list tools "No bindings found.\n" o s) s
