-- ===== src/Horizon/Starting.antt =====
-- `NewAdapter` and `Start` of pkg/horizon/adapter.go. A fatal log entry ends the process.
mod Tests
use sources_for_knative.Base.{
  ℕ, String, ℤ, Option, none, some, List, [], ◌∷◌, ◌++◌, ◌≡◌, ◌≢◌, ◌≤◌, refl, codes,
}
use sources_for_knative.Horizon.Rest.{
  AuthLoginRequest, Request, AuthTokens, credentials, refresh_request, login_path, logout_path, Api,
  Session, rest_client,
}
use sources_for_knative.Horizon.Rest.Tokens.{IsSynced}
use sources_for_knative.Horizon.Rest.Opening.{
  EnvConfig, OpenError, Surroundings, Opened, opened, not_opened, new_horizon_client, IsOpened,
}
use sources_for_knative.Horizon.Adapter.{
  Outside, Backoff, Signal, Exit, panic, Adapter, run, initial, leave,
}
use sources_for_knative.Horizon.Events.{AuditEventSummary}
use sources_for_knative.Horizon.Events.Remove.{matches}
use sources_for_knative.Horizon.Api.{Answer}
use sources_for_knative.Horizon.Adapter.Connections.{LeftWith}

-- `defaultPollInterval`, in nanoseconds.
abbrev pub default_poll_interval : ℕ
default_poll_interval = 1000000000

-- No ID occurs twice.
abbrev pub UniqueIds : List AuditEventSummary → Type 0
UniqueIds es = (id : ℤ) → matches id es ≤ 1

module _ (api : Api) where
  -- `Adapter`, without the client for cloud events and the clock; its client for Horizon is opened
  -- with credentials.
  pub record PollAdapter : Type 0 where
    pub source : String
    pub sink : String
    pub creds : AuthLoginRequest
    pub hclient : Session api creds
    pub poll_interval : ℕ

  pub data Made : Type 0 where
    adapter : PollAdapter → Made
    bad_environment : Made
    no_client : OpenError → Made

  -- `GetSink` of the settings of all adapters is a parameter.
  module _ (around : Surroundings api) (get_sink : EnvConfig → String) where
    with_client : EnvConfig → Opened api → Made
    with_client env (not_opened e) = no_client e
    with_client env (opened creds s) = adapter (record {
      source = env.address;
      sink = get_sink env;
      creds = creds;
      hclient = s;
      poll_interval = default_poll_interval;
    })

    with_env : Option EnvConfig → Made
    unfolding with_client
    with_env none = bad_environment
    with_env (some env) = with_client env (new_horizon_client api around)

    -- `NewAdapter`
    pub new_adapter : Made
    unfolding with_env
    new_adapter = with_env around.process

  -- The session began with the login, and sends the access token that it holds.
  pub record IsLoggedIn (creds : AuthLoginRequest) (s : Session api creds) : Type 0 where
    pub synced : IsSynced api creds s
    pub later : List Request
    pub sent : s.sent ≡ record { path = login_path; bearer = ""; body = credentials creds } ∷ later

  abbrev login_request : AuthLoginRequest → Request
  login_request creds = record { path = login_path; bearer = ""; body = credentials creds }

  abbrev logout_request : (bearer : String) → AuthTokens → Request
  logout_request bearer tokens = record {
    path = logout_path;
    bearer = bearer;
    body = refresh_request tokens.refresh_token;
  }

  module _ (around : Surroundings api) (get_sink : EnvConfig → String) where
    abbrev MadeWell : Made → Type 0
    MadeWell (adapter a) = IsLoggedIn a.creds a.hclient
    MadeWell bad_environment = Unit
    MadeWell (no_client e) = Unit

    module _ (out : Outside) (bo : Backoff) where
      -- `Start`
      pub start :
          (a : PollAdapter)
          → bo.Counter
          → List Signal
          → Option Exit × Adapter out (codes a.source) (rest_client api a.creds) bo
      start a counter signals =
          run out (codes a.source) (rest_client api a.creds) bo
            (initial out (codes a.source) (rest_client api a.creds) bo a.hclient counter) signals

      -- The loop has ended without a panic; the first request of the session was the login, and the
      -- last one the logout, with the access token and the refresh token that the session holds.
      pub record LoggedOut (a : PollAdapter)
          (r : Option Exit × Adapter out (codes a.source) (rest_client api a.creds) bo)
          : Type 0 where
        pub exit : Exit
        pub returned : r.0 ≡ some exit
        pub no_panic : exit ≢ panic
        pub between : List Request
        pub sent :
            r.1.conn.sent
            ≡ record { path = login_path; bearer = ""; body = credentials a.creds }
              ∷ (between
                  ++ record {
                    path = logout_path;
                    bearer = r.1.conn.tokens.access_token;
                    body = refresh_request r.1.conn.tokens.refresh_token;
                  }
                    ∷ [])
