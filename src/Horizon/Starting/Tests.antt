-- ===== src/Horizon/Starting/Tests.antt =====
-- Examples for the start of the Horizon adapter: a server that accepts a login and has no events.
use sources_for_knative.Base.{
  ℕ, suc, String, pos, Option, some, [], ◌∷◌, true, false, ◌==◌, string_eq, if◌then◌else◌,
}
use sources_for_knative.Horizon.Rest.{AuthLoginRequest, response, Api, credentials, login_path}
use sources_for_knative.Horizon.Rest.Opening.{Surroundings, EnvConfig}
use sources_for_knative.Horizon.Adapter.{Outside, Backoff}
use sources_for_knative.Horizon.Starting.{PollAdapter, default_poll_interval}

abbrev quiet : Api
quiet = record {
  Server = ℕ;
  send = λ r n. record { reply = response 200 "new"; resends = 1; server = suc n };
  now_seconds = λ n. pos n;
  decode_tokens = λ body. some (record { access_token = body; refresh_token = body });
  decode_access_token = λ body. some body;
  decode_events = λ body. some [];
}

abbrev viewer : AuthLoginRequest
viewer = record { domain = "lab"; username = "viewer"; password = "secret" }

abbrev viewer_files : String → String → Option String
viewer_files path key =
    if key == "domain"
    then some "lab"
    else if key == "username"
    then some "viewer"
    else some "secret"

abbrev pod : Surroundings quiet
pod = record {
  process = some (record { address = "https://horizon.lab"; insecure = false; secret_path = "" });
  read_file = viewer_files;
  server_at = λ client. 0;
}

abbrev pod_sink : EnvConfig → String
pod_sink env = "http://broker"

abbrev pod_adapter : PollAdapter quiet
pod_adapter = record {
  source = "https://horizon.lab";
  sink = "http://broker";
  creds = viewer;
  hclient = record {
    tokens = record { access_token = "new"; refresh_token = "new" };
    auth_token = "new";
    server = 1;
    sent =
        record { path = login_path; bearer = ""; body = credentials viewer }
        ∷ (record { path = login_path; bearer = ""; body = credentials viewer } ∷ []);
  };
  poll_interval = default_poll_interval;
}

abbrev accepting : Outside
accepting = record {
  unicode_lower = λ c. c;
  set_data_ok = λ e. true;
  validate_ok = λ ce. true;
  acks = λ n ce. true;
  cancelled = λ n. false;
}

abbrev counted : Backoff
counted = record { Counter = ℕ; delay = λ n. n; count = λ n. suc n; reset = λ n. 0 }
