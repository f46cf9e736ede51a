-- ===== src/Horizon/Rest.antt =====
-- The REST client of pkg/horizon/horizon.go: authentication, events, logout.
-- `Api` holds what the client calls: the HTTP library with the server behind it, the decoding of
-- JSON bodies, the clock. The requests sent are kept in a log, those that the library sends again
-- included.
pub mod Tokens
pub mod Requests
pub mod Opening
pub mod Answers
mod Tests
use sources_for_knative.Base.{
  ℕ, zero, suc, String, ℤ, pos, ◌+ℤ◌, scale, Option, none, some, List, [], ◌∷◌, ◌++◌, Bool, true,
  false, not, ◌&&◌, ◌||◌, ltb, leb, ◌==◌, int_eq, nat_eq, string_eq, if◌then◌else◌, copies,
}
use sources_for_knative.Horizon.Events.{AuditEventSummary}
use sources_for_knative.Horizon.Api.{Answer, Client}

pub record AuthLoginRequest : Type 0 where
  pub domain : String
  pub username : String
  pub password : String

pub record AuthTokens : Type 0 where
  pub access_token : String
  pub refresh_token : String

-- Type, name and the inclusive bounds, in milliseconds.
pub record BetweenFilter : Type 0 where
  pub filter_type : String
  pub name : String
  pub from_value : ℤ
  pub to_value : ℤ

pub data Body : Type 0 where
  credentials : AuthLoginRequest → Body
  refresh_request : String → Body
  page_query : List (String × String) → Body
  filter_query : BetweenFilter → Body

abbrev pub login_path : String
login_path = "/rest/login"

abbrev pub logout_path : String
logout_path = "/rest/logout"

abbrev pub refresh_path : String
refresh_path = "/rest/refresh"

abbrev pub events_path : String
events_path = "/rest/external/v1/audit-events"

-- A request, with the bearer token that the HTTP client adds.
pub record Request : Type 0 where
  pub path : String
  pub bearer : String
  pub body : Body

pub data Reply : Type 0 where
  unreachable : Reply
  response : ℕ → String → Reply

-- `defaultRetries`
abbrev pub default_retries : ℕ
default_retries = 3

-- The configuration of `newRESTClient`, without its logger; the waiting time is in nanoseconds.
pub record RestClient : Type 0 where
  pub base_url : String
  pub content_type : String
  pub auth_scheme : String
  pub retry_count : ℕ
  pub retry_max_wait : ℕ
  pub skip_verify : Bool

-- `newRESTClient`, with `defaultTimeout`.
unfoldable pub new_rest_client : String → Bool → RestClient
new_rest_client server insecure = record {
  base_url = server;
  content_type = "application/json";
  auth_scheme = "Bearer";
  retry_count = default_retries;
  retry_max_wait = 5000000000;
  skip_verify = insecure;
}

-- A call of the HTTP library: the last reply, and how often the library sent the request again.
pub record Sent (Server : Type 0) : Type 0 where
  pub reply : Reply
  pub resends : ℕ
  pub server : Server

-- `Server` is the library as `newRESTClient` configured it, with the server behind it.
pub record Api : Type 1 where
  pub Server : Type 0
  pub send : Request → Server → Sent Server
  pub now_seconds : Server → ℤ
  pub decode_tokens : String → Option AuthTokens
  pub decode_access_token : String → Option String
  pub decode_events : String → Option (List AuditEventSummary)

pub data Error : Type 0 where
  transport token_expired already_expired bad_json conflict : Error
  login_status unexpected_status events_status : ℕ → Error
  refresh_failed not_authenticated : Error → Error

pub data Result {ℓ} (A : Type ℓ) : Type ℓ where
  ok : A → Result A
  err : Error → Result A

-- `IsSuccess` of the response.
abbrev pub is_success : ℕ → Bool
is_success status = leb 200 status && leb status 299

-- `timeRangeFilter(from, to)`: an upper bound of 0 stands for one day from now.
time_range_filter : ℤ → ℤ → ℤ → BetweenFilter
time_range_filter now from to = record {
  filter_type = "Between";
  name = "time";
  from_value = from;
  to_value = if to == pos 0 then scale 1000 (now +ℤ pos 86400) else to;
}

module _ (api : Api) (creds : AuthLoginRequest) where
  pub record Session : Type 0 where
    pub tokens : AuthTokens
    pub auth_token : String
    pub server : api.Server
    pub sent : List Request

  unfoldable pub request : String → Body → Session → Reply × Session
  request path body s =
      let r : Request = record { path = path; bearer = s.auth_token; body = body } in
      let call = api.send r s.server in
      (call.reply, record s { server = call.server; sent = s.sent ++ (r ∷ copies call.resends r) })

  accept_access_token : Option String → Session → Option Error × Session
  accept_access_token none s = (some bad_json, s)
  accept_access_token (some token) s =
      (none, record s { tokens = record s.tokens { access_token = token }; auth_token = token })

  on_refresh : Reply → Session → Option Error × Session
  on_refresh unreachable s = (some transport, s)
  on_refresh (response status body) s =
      if is_success status
      then accept_access_token (api.decode_access_token body) s
      else if status == 400
      then (some token_expired, s)
      else (some (unexpected_status status), s)

  pub refresh : Session → Option Error × Session
  unfolding on_refresh accept_access_token request
  refresh s =
      let (reply, s') = request refresh_path (refresh_request s.tokens.refresh_token) s in
      on_refresh reply s'

  unfoldable pub accept_tokens : Option AuthTokens → Session → Option Error × Session
  accept_tokens none s = (some bad_json, s)
  accept_tokens (some tokens) s =
      (none, record s { tokens = tokens; auth_token = tokens.access_token })

  unfoldable pub on_login : Reply → Session → Option Error × Session
  on_login unreachable s = (some transport, s)
  on_login (response status body) s =
      if is_success status
      then accept_tokens (api.decode_tokens body) s
      else (some (login_status status), s)

  -- The second half of `login`, with the credentials.
  unfoldable pub full_login : Session → Option Error × Session
  unfolding on_login accept_tokens request
  full_login s = let (reply, s') = request login_path (credentials creds) s in on_login reply s'

  -- What `login` does with the result of `refresh`.
  after_refresh : Option Error → Session → Option Error × Session
  after_refresh none s = (none, s)
  after_refresh (some token_expired) s = full_login s
  after_refresh (some e) s = (some (refresh_failed e), s)

  unfoldable pub login : Session → Option Error × Session
  unfolding after_refresh
  login s =
      if not (s.tokens.refresh_token == "")
      then (let (e, s') = refresh s in after_refresh e s')
      else full_login s

  pub query : ℤ → Session → Body
  query since s =
      if since == pos 0
      then page_query (("size", "10") ∷ (("page", "1") ∷ []))
      else filter_query (time_range_filter (api.now_seconds s.server) since (pos 0))

  -- The outcome of one round of `GetEvents`.
  pub data Round : Type 0 where
    finished : Result (List AuditEventSummary) → Session → Round
    again : ℕ → Session → Round

  decoded : Option (List AuditEventSummary) → Result (List AuditEventSummary)
  decoded none = err bad_json
  decoded (some events) = ok events

  after_login : ℕ → Option Error → Session → Round
  after_login status none s = again status s
  after_login status (some e) s = finished (err (not_authenticated e)) s

  on_events : Reply → Session → Round
  on_events unreachable s = finished (err transport) s
  on_events (response status body) s =
      if is_success status
      then finished (decoded (api.decode_events body)) s
      else if status == 401
      then (let (e, s') = login s in after_login status e s')
      else if status == 409
      then finished (err conflict) s
      else finished (err (unexpected_status status)) s

  round : ℤ → Session → Round
  unfolding on_events after_login decoded request
  round since s = let (reply, s') = request events_path (query since s) s in on_events reply s'

  next_round :
      Round
      → (ℕ → Session → Result (List AuditEventSummary) × Session)
      → Result (List AuditEventSummary) × Session
  next_round (finished r s) rest = (r, s)
  next_round (again status s) rest = rest status s

  -- The loop `for retries < 2`, by the rounds left; `status` is that of the last response.
  get_loop : ℕ → ℕ → ℤ → Session → Result (List AuditEventSummary) × Session
  get_loop zero status since s = (err (events_status status), s)
  get_loop (suc rounds) status since s =
      next_round (round since s) (λ status' s'. get_loop rounds status' since s')

  pub get_events : ℤ → Session → Result (List AuditEventSummary) × Session
  unfolding get_loop next_round
  get_events since s = get_loop 2 0 since s

  on_logout : Reply → Option Error
  on_logout unreachable = some transport
  on_logout (response status body) =
      if is_success status
      then none
      else if status == 400
      then some already_expired
      else some (unexpected_status status)

  pub logout : Session → Option Error × Session
  unfolding on_logout request
  logout s =
      let (reply, s') = request logout_path (refresh_request s.tokens.refresh_token) s in
      (on_logout reply, s')

  abbrev pub answer_of : Result (List AuditEventSummary) → Answer
  answer_of (ok events) = Answer.events events
  answer_of (err e) = Answer.failed

  -- The client that the adapter uses.
  abbrev pub rest_client : Client
  rest_client = record {
    Conn = Session;
    get_events = λ since s. let (r, s') = get_events since s in (answer_of r, s');
    logout = λ s. (logout s).1;
  }
