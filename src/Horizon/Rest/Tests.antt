-- ===== src/Horizon/Rest/Tests.antt =====
-- Examples for the REST client, with a server that answers every request with the same status.
use sources_for_knative.Base.{
  ℕ, suc, pos, refl, some, [], nat_eq, int_eq, string_eq, ◌==◌, if◌then◌else◌, arith,
}
use sources_for_knative.Horizon.Rest.{
  AuthLoginRequest, response, Api, Session, events_path, get_events,
}
use sources_for_knative.Horizon.Rest.Tokens.{IsSynced, get_events-IsSynced}
use sources_for_knative.Horizon.Rest.Requests.{IsRetrying, Sends, get_events_few}
use sources_for_knative.Base.{String, some, false, Option}
use sources_for_knative.Horizon.Rest.{login, full_login, on_login, accept_tokens, request}
use sources_for_knative.Horizon.Rest.Opening.{
  Surroundings, new_session, new_horizon_client, open_with, open_at, after_login_of,
  read_secret_key, read_in, empty_credentials, IsOpened, new_horizon_client-OpensWell,
}

-- A login and a refresh succeed, a read of events finds the token expired.
abbrev expiring : Api
expiring = record {
  Server = ℕ;
  send = λ r n. record {
    reply = response (if r.path == events_path then 401 else 200) "new";
    resends = 1;
    server = suc n;
  };
  now_seconds = λ n. pos n;
  decode_tokens = λ body. some (record { access_token = body; refresh_token = body });
  decode_access_token = λ body. some body;
  decode_events = λ body. some [];
}

abbrev admin : AuthLoginRequest
admin = record { domain = "lab"; username = "admin"; password = "secret" }

abbrev logged_in : Session expiring admin
logged_in = record {
  tokens = record { access_token = "a"; refresh_token = "r" };
  auth_token = "a";
  server = 0;
  sent = [];
}

get_events-IsSynced_example :
    IsSynced expiring admin (get_events expiring admin (pos 0) logged_in).1
get_events-IsSynced_example =
    get_events-IsSynced expiring admin (pos 0) logged_in (record { synced = refl })

expiring-IsRetrying : IsRetrying expiring
expiring-IsRetrying = record { bounded = λ r s. omega arith }

get_events_few_example :
    Sends expiring admin 6 logged_in (get_events expiring admin (pos 0) logged_in).1
get_events_few_example = get_events_few expiring admin expiring-IsRetrying (pos 0) logged_in

abbrev secret_files : String → String → Option String
secret_files path key =
    if key == "domain"
    then some "lab"
    else if key == "username"
    then some "admin"
    else some "secret"

abbrev lab_process : Surroundings expiring
lab_process = record {
  process = some (record { address = "https://horizon.lab"; insecure = false; secret_path = "" });
  read_file = secret_files;
  server_at = λ client. 0;
}

new_horizon_client-OpensWell_example :
    IsOpened expiring lab_process admin
      (login expiring admin (
        new_session expiring lab_process admin
          (record { address = "https://horizon.lab"; insecure = false; secret_path = "" }))).1
unfolding new_horizon_client open_with open_at after_login_of read_secret_key read_in
    empty_credentials login full_login on_login accept_tokens request new_session
new_horizon_client-OpensWell_example = new_horizon_client-OpensWell expiring lab_process
