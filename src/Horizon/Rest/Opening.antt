-- ===== src/Horizon/Rest/Opening.antt =====
-- `newHorizonClient` and `readSecretKey` of pkg/horizon/horizon.go: how a session is opened.
use sources_for_knative.Base.{
  String, Option, none, some, [], ◌∷◌, Bool, false, ◌||◌, ◌≡◌, ◌≢◌, refl, ◌==◌, string_eq,
  if◌then◌else◌, ne_of_test, Bool-cases, inl, inr, arith, ℕ, copies, true, ◌∙◌, sym, ap, subst,
}
use sources_for_knative.Horizon.Rest.{
  AuthLoginRequest, credentials, login_path, Reply, unreachable, response, Api, Error, Session,
  request, is_success, RestClient, new_rest_client, Sent, Request, login_status, accept_tokens,
  on_login, full_login, login, AuthTokens,
}
use sources_for_knative.Reconcile.Resources.{default_secret_mount_path}
use sources_for_knative.Horizon.Rest.Tokens.{IsSynced, login-IsSynced}

abbrev pub domain_secret_key : String
domain_secret_key = "domain"

-- `envConfig`, without the settings of all adapters.
pub record EnvConfig : Type 0 where
  pub address : String
  pub insecure : Bool
  pub secret_path : String

pub data OpenError : Type 0 where
  bad_environment unreadable invalid_credentials : OpenError
  login_failure : Error → OpenError

-- What the process gives: `envconfig.Process`, the files by directory and name, and the HTTP client
-- for a server, which does or does not verify its certificate.
pub record Surroundings (api : Api) : Type 0 where
  pub process : Option EnvConfig
  pub read_file : String → String → Option String
  pub server_at : RestClient → api.Server

module _ (api : Api) where
  pub data Opened : Type 0 where
    opened : (creds : AuthLoginRequest) → Session api creds → Opened
    not_opened : OpenError → Opened

  module _ (around : Surroundings api) where
    unfoldable pub read_in : Option EnvConfig → String → Option String
    read_in none key = none
    read_in (some env) key =
        around.read_file
          (if env.secret_path == "" then default_secret_mount_path else env.secret_path) key

    -- `readSecretKey`
    unfoldable pub read_secret_key : String → Option String
    unfolding read_in
    read_secret_key key = read_in around.process key

    unfoldable pub empty_credentials : AuthLoginRequest → Bool
    empty_credentials creds = creds.domain == "" || creds.username == "" || creds.password == ""

    -- The session before the login.
    unfoldable pub new_session : (creds : AuthLoginRequest) → EnvConfig → Session api creds
    new_session creds env = record {
      tokens = record { access_token = ""; refresh_token = "" };
      auth_token = "";
      server = around.server_at (new_rest_client env.address env.insecure);
      sent = [];
    }

    unfoldable pub after_login_of :
        (creds : AuthLoginRequest) → Option Error × Session api creds → Opened
    after_login_of creds (none, s) = opened creds s
    after_login_of creds (some e, s) = not_opened (login_failure e)

    unfoldable pub open_at : (creds : AuthLoginRequest) → Option EnvConfig → Opened
    unfolding after_login_of new_session
    open_at creds none = not_opened bad_environment
    open_at creds (some env) = after_login_of creds (login api creds (new_session creds env))

    unfoldable pub open_with : Option String → Option String → Option String → Opened
    unfolding open_at empty_credentials
    open_with none pass domain = not_opened unreadable
    open_with (some user) none domain = not_opened unreadable
    open_with (some user) (some pass) none = not_opened unreadable
    open_with (some user) (some pass) (some domain) =
        let creds : AuthLoginRequest = record {
          domain = domain;
          username = user;
          password = pass;
        } in
        if empty_credentials creds
        then not_opened invalid_credentials
        else open_at creds around.process

    -- `newHorizonClient`
    unfoldable pub new_horizon_client : Opened
    unfolding open_with
    new_horizon_client =
        open_with (read_secret_key "username") (read_secret_key "password")
          (read_secret_key domain_secret_key)

    abbrev pub login_request : AuthLoginRequest → Request
    login_request creds = record { path = login_path; bearer = ""; body = credentials creds }

    -- The server accepted the login: the call of the library, with the client that was configured from
    -- the environment, came to a response of success, which has the tokens of the session. The library
    -- may have sent the request again.
    pub record IsLogin (creds : AuthLoginRequest) (s : Session api creds) : Type 0 where
      pub env : EnvConfig
      pub configured : around.process ≡ some env
      pub call : Sent api.Server
      pub called :
          api.send
            (login_request creds)
            (around.server_at (new_rest_client env.address env.insecure))
          ≡ call
      pub status : ℕ
      pub body : String
      pub replied : call.reply ≡ response status body
      pub succeeded : is_success status ≡ true
      pub decoded : api.decode_tokens body ≡ some s.tokens
      pub sent : s.sent ≡ login_request creds ∷ copies call.resends (login_request creds)

    -- The session was opened with credentials from the secret, none of them empty, by a login that the
    -- server accepted, and the HTTP client sends the access token of the session.
    pub record IsOpened (creds : AuthLoginRequest) (s : Session api creds) : Type 0 where
      pub user : read_secret_key "username" ≡ some creds.username
      pub pass : read_secret_key "password" ≡ some creds.password
      pub domain : read_secret_key domain_secret_key ≡ some creds.domain
      pub named_user : creds.username ≢ ""
      pub named_pass : creds.password ≢ ""
      pub named_domain : creds.domain ≢ ""
      pub logged_in : IsLogin creds s
      pub synced : IsSynced api creds s

    abbrev pub OpensWell : Opened → Type 0
    OpensWell (opened creds s) = IsOpened creds s
    OpensWell (not_opened e) = Unit

    new_session-IsSynced :
        (creds : AuthLoginRequest) (env : EnvConfig) → IsSynced api creds (new_session creds env)
    unfolding new_session
    new_session-IsSynced creds env = record { synced = refl }

    accept_tokens-IsLogin :
        (creds : AuthLoginRequest) (env : EnvConfig)
        → around.process ≡ some env
        → (call : Sent api.Server)
        → api.send
            (login_request creds)
            (around.server_at (new_rest_client env.address env.insecure))
          ≡ call
        → (status : ℕ) (body : String) → call.reply ≡ response status body
        → is_success status ≡ true
        → (o : Option AuthTokens) → api.decode_tokens body ≡ o
        → (s0 s : Session api creds)
        → s0.sent ≡ login_request creds ∷ copies call.resends (login_request creds)
        → accept_tokens api creds o s0 ≡ (none, s)
        → IsLogin creds s
    unfolding accept_tokens
    accept_tokens-IsLogin creds env p call q status body r ok none d s0 s sent h = absurd cc
    accept_tokens-IsLogin creds env p call q status body r ok (some tokens) d s0 s sent h =
        let e : record s0 { tokens = tokens; auth_token = tokens.access_token } ≡ s =
          ap (λ x. x.1) h in
        record {
          env = env;
          configured = p;
          call = call;
          called = q;
          status = status;
          body = body;
          replied = r;
          succeeded = ok;
          decoded = d ∙ ap (λ (x : Session api creds). some x.tokens) e;
          sent = ap (λ (x : Session api creds). x.sent) (sym e) ∙ sent;
        }

    on_login-IsLogin :
        (creds : AuthLoginRequest) (env : EnvConfig)
        → around.process ≡ some env
        → (call : Sent api.Server)
        → api.send
            (login_request creds)
            (around.server_at (new_rest_client env.address env.insecure))
          ≡ call
        → (reply : Reply) → call.reply ≡ reply
        → (s0 s : Session api creds)
        → s0.sent ≡ login_request creds ∷ copies call.resends (login_request creds)
        → on_login api creds reply s0 ≡ (none, s)
        → IsLogin creds s
    unfolding on_login
    on_login-IsLogin creds env p call q unreachable r s0 s sent h = absurd cc
    on_login-IsLogin creds env p call q (response status body) r s0 s sent h =
        elim (Bool-cases (is_success status)) [
          | inl ok ↦
              accept_tokens-IsLogin creds env p call q status body r ok _ refl s0 s sent
                (rw ok at h)
          | inr failed ↦
              let e : ◌≡◌ {A = Option Error × Session api creds} (some (login_status status), s0)
                  (none, s) =
                (rw failed at h) in
              absurd cc
        ]

    login-IsLogin :
        (creds : AuthLoginRequest) (env : EnvConfig)
        → around.process ≡ some env
        → (s : Session api creds) → login api creds (new_session creds env) ≡ (none, s)
        → IsLogin creds s
    unfolding login full_login new_session request
    login-IsLogin creds env p s h = on_login-IsLogin creds env p _ refl _ refl _ s refl h

    after_login_of-OpensWell :
        (creds : AuthLoginRequest) (r : Option Error × Session api creds)
        → ((s : Session api creds) → r ≡ (none, s) → IsOpened creds s)
        → OpensWell (after_login_of creds r)
    unfolding after_login_of
    after_login_of-OpensWell creds (none, s) h = h s refl
    after_login_of-OpensWell creds (some e, s) h = tt

    -- No credential is empty where the test says so.
    none_empty :
        (creds : AuthLoginRequest)
        → empty_credentials creds ≡ false
        → (creds.domain ≢ "") × (creds.username ≢ "") × (creds.password ≢ "")
    unfolding empty_credentials
    none_empty creds h = elim (Bool-cases (creds.domain == "")) [
      | inl p ↦ absurd (ground arith)
      | inr p ↦ elim (Bool-cases (creds.username == "")) [
        | inl q ↦ absurd (ground arith)
        | inr q ↦ (
          ne_of_test creds.domain "" p,
          ne_of_test creds.username "" q,
          ne_of_test creds.password "" (ground arith),
        )
      ]
    ]

    open_at-OpensWell :
        (creds : AuthLoginRequest) (env : Option EnvConfig)
        → read_secret_key "username" ≡ some creds.username
        → read_secret_key "password" ≡ some creds.password
        → read_secret_key domain_secret_key ≡ some creds.domain
        → empty_credentials creds ≡ false
        → around.process ≡ env
        → OpensWell (open_at creds env)
    unfolding open_at
    open_at-OpensWell creds none u p d h q = tt
    open_at-OpensWell creds (some env) u p d h q =
        let (named_domain, named_user, named_pass) = none_empty creds h in
        after_login_of-OpensWell creds (login api creds (new_session creds env)) (λ s e. record {
          user = u;
          pass = p;
          domain = d;
          named_user = named_user;
          named_pass = named_pass;
          named_domain = named_domain;
          logged_in = login-IsLogin creds env q s e;
          synced =
              subst (λ (r : Option Error × Session api creds). IsSynced api creds r.1) e
                (login-IsSynced api creds (new_session creds env) (new_session-IsSynced creds env));
        })

    open_with-OpensWell :
        (user pass domain : Option String)
        → read_secret_key "username" ≡ user
        → read_secret_key "password" ≡ pass
        → read_secret_key domain_secret_key ≡ domain
        → OpensWell (open_with user pass domain)
    unfolding open_with
    open_with-OpensWell none pass domain u p d = tt
    open_with-OpensWell (some user) none domain u p d = tt
    open_with-OpensWell (some user) (some pass) none u p d = tt
    open_with-OpensWell (some user) (some pass) (some domain) u p d =
        let creds : AuthLoginRequest = record {
          domain = domain;
          username = user;
          password = pass;
        } in
        elim (Bool-cases (empty_credentials creds)) [
          | inl empty ↦ rw empty tt
          | inr named ↦ rw named (open_at-OpensWell creds around.process u p d named refl)
        ]

    -- A client that `newHorizonClient` returns has credentials that it read from the secret, none of
    -- them empty; the server that its environment names accepted a login with these, the only request
    -- so far, with a response whose tokens the client holds, and its HTTP client sends the access token.
    pub new_horizon_client-OpensWell : OpensWell new_horizon_client
    unfolding new_horizon_client
    new_horizon_client-OpensWell = open_with-OpensWell _ _ _ refl refl refl
