-- ===== src/Plugin/Auth/Tests.antt =====
-- Examples for `auth create`, with a store that lists what was created.
use sources_for_knative.Base.{
  String, none, some, List, [], ◌∷◌, true, false, ◌≡◌, ◌≢◌, refl, ◌==◌, string_eq,
}
use sources_for_knative.Plugin.{get_explicit_or_default_namespace}
use sources_for_knative.Plugin.Auth.{
  AuthTools, AuthOptions, Secret, check_auth, new_secret, read_password, verified, run_create_auth,
  create_auth,
}
use sources_for_knative.Plugin.Auth.Verifying.{IsVerified, create_auth_writes}

abbrev lab_tools : AuthTools (List Secret)
lab_tools = record {
  configured = some "default";
  is_terminal = false;
  prompted = none;
  piped = some "s3cr3t";
  parse_soap_url = λ t. some (record { host = "vcenter.lab"; text = t });
  login = λ url user password insecure. password == "s3cr3t";
  secrets = record {
    create = λ ns x s. some (x ∷ s);
    delete = λ ns name s. none;
    list = λ ns s. some s;
  };
}

abbrev lab_options : AuthOptions
lab_options = record {
  generic = record { namespace_name = "lab"; name = "credentials"; all_namespaces = false };
  username = "jane";
  password = "";
  password_std_in = true;
  verify_url = "https://vcenter.lab";
  insecure = false;
}

create_auth_writes_example :
    (lab_options.username ≢ "")
    × (lab_options.generic.name ≢ "")
    × ((ns : String) × (password : String) × (get_explicit_or_default_namespace
            (some "default")
            "lab"
          ≡ some ns)
        × (read_password lab_tools lab_options ≡ some password)
        × IsVerified lab_tools lab_options password
        × (some (new_secret ns password lab_options ∷ [])
            ≡ some (new_secret "lab" "s3cr3t" lab_options ∷ [])))
unfolding create_auth run_create_auth check_auth read_password verified
    get_explicit_or_default_namespace
create_auth_writes_example =
    create_auth_writes lab_tools lab_options [] (new_secret "lab" "s3cr3t" lab_options ∷ [])
      "Created vSphere credentials" refl
