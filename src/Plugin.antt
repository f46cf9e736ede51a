-- ===== src/Plugin.antt =====
-- The vSphere plugin of kn, plugins/vsphere: what its commands have in common. A command is its
-- checks before it runs, as a failure or none, and its run, which cobra starts if there is none.
-- `Api` holds the calls of one kind of object; a failed call leaves the store as it was.
pub mod Flags
pub mod Sources
pub mod Bindings
pub mod Auth
pub mod Listing
pub mod Deleting
pub mod Outcomes
use sources_for_knative.Base.{
  String, Option, none, some, List, Bool, ◌==◌, string_eq, if◌then◌else◌,
}

-- `GenericOptions`
pub record GenericOptions : Type 0 where
  pub namespace_name : String
  pub name : String
  pub all_namespaces : Bool

pub record Api (S A : Type 0) : Type 0 where
  pub create : String → A → S → Option S
  pub delete : String → String → S → Option S
  pub list : String → S → Option (List A)

-- Why a command ends with an error.
pub data Failure : Type 0 where
  no_name no_address no_secret no_sink bad_encoding no_api_version no_kind no_subject : Failure
  two_subjects no_username no_password two_passwords two_namespaces no_namespace : Failure
  bad_address bad_sink bad_selector password_unread not_verified call_failed kind_failed : Failure
  print_failed : Failure

-- What a command comes to: the text it prints, or the failure; and the store.
pub data Outcome (S : Type 0) : Type 0 where
  printed : String → S → Outcome S
  failed : Failure → S → Outcome S

-- `GetExplicitOrDefaultNamespace`; `configured` is the namespace of the client's configuration.
pub get_explicit_or_default_namespace : Option String → String → Option String
get_explicit_or_default_namespace configured ns = if ns == "" then configured else some ns

module _ {S : Type 0} where
  -- `RunE` runs if `PreRunE` returns no error.
  abbrev pub executed : Option Failure → Outcome S → S → Outcome S
  executed none run s = run
  executed (some e) run s = failed e s

  -- `if err != nil { return … }`, and on.
  abbrev pub with_value : {A : Type 0} → Option A → Failure → S → (A → Outcome S) → Outcome S
  with_value none e s next = failed e s
  with_value (some a) e s next = next a

  -- The last call of a command, and the text that it prints.
  abbrev pub reported : String → S → Option S → Outcome S
  reported out s none = failed call_failed s
  reported out s (some t) = printed out t
