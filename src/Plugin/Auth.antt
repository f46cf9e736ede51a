-- ===== src/Plugin/Auth.antt =====
-- plugins/vsphere/pkg/command/auth: `create`, which makes a secret with the credentials.
pub mod Verifying
mod Tests
use sources_for_knative.Base.{
  String, Option, none, some, Bool, true, false, not, ◌&&◌, ◌==◌, string_eq, if◌then◌else◌,
}
use sources_for_knative.Kube.{Url}
use sources_for_knative.Plugin.{
  GenericOptions, Api, Failure, no_name, no_username, no_password, two_passwords, no_namespace,
  password_unread, bad_address, not_verified, Outcome, failed, get_explicit_or_default_namespace,
  executed, with_value, reported,
}

-- `Options`
pub record AuthOptions : Type 0 where
  pub generic : GenericOptions
  pub username : String
  pub password : String
  pub password_std_in : Bool
  pub verify_url : String
  pub insecure : Bool

-- A secret of the type for basic authentication, with its two texts.
pub record Secret : Type 0 where
  pub namespace_name : String
  pub name : String
  pub username : String
  pub password : String

-- What `create` reads and calls: the standard input, a terminal or not, with what each way to read it
-- returns; `soap.ParseURL`; and the login of govmomi's client with a user and a password.
pub record AuthTools (S : Type 0) : Type 0 where
  pub configured : Option String
  pub is_terminal : Bool
  pub prompted : Option String
  pub piped : Option String
  pub parse_soap_url : String → Option Url
  pub login : Url → String → String → Bool → Bool
  pub secrets : Api S Secret

-- The `PreRunE` of `create`
pub check_auth : AuthOptions → Option Failure
check_auth o =
    if o.username == ""
    then some no_username
    else if o.password == "" && not o.password_std_in
    then some no_password
    else if not (o.password == "") && o.password_std_in
    then some two_passwords
    else if o.generic.name == ""
    then some no_name
    else none

-- `newSecret`, with the password that was read.
pub new_secret : String → String → AuthOptions → Secret
new_secret ns password o = record {
  namespace_name = ns;
  name = o.generic.name;
  username = o.username;
  password = password;
}

module _ {S : Type 0} (tools : AuthTools S) where
  -- `readPassword`
  pub read_password : AuthOptions → Option String
  read_password o =
      if not o.password_std_in
      then some o.password
      else if tools.is_terminal
      then tools.prompted
      else tools.piped

  -- The check of the credentials, which is only made for a URL that is given.
  pub verified : AuthOptions → String → S → Outcome S → Outcome S
  verified o password s next =
      if not (o.verify_url == "")
      then with_value (tools.parse_soap_url o.verify_url) bad_address s (λ url.
        if tools.login url o.username password o.insecure then next else failed not_verified s)
      else next

  -- The `RunE` of `create`
  pub run_create_auth : AuthOptions → S → Outcome S
  run_create_auth o s =
      with_value (get_explicit_or_default_namespace tools.configured o.generic.namespace_name)
        no_namespace s
        (λ ns. with_value (read_password o) password_unread s (λ password. verified o password s (
          reported "Created vSphere credentials" s
            (tools.secrets.create ns (new_secret ns password o) s))))

  -- `kn vsphere auth create`
  pub create_auth : AuthOptions → S → Outcome S
  create_auth o s = executed (check_auth o) (run_create_auth o s) s
