-- ===== src/Horizon/Rest/Tokens.antt =====
-- The tokens of the REST client: what the HTTP client sends as bearer token, and when the
-- credentials are used.
use sources_for_knative.Base.{
  ℕ, zero, suc, String, ℤ, ◌≡◌, refl, sym, ap, ◌∙◌, inl, inr, Option, none, some, List, ◌==◌,
  string_eq, Bool-cases, if_both, nat_eq,
}
use sources_for_knative.Horizon.Events.{AuditEventSummary}
use sources_for_knative.Horizon.Rest.{
  AuthLoginRequest, AuthTokens, credentials, refresh_request, login_path, refresh_path, events_path,
  query, Reply, unreachable, response, Api, Error, token_expired, Result, is_success, Session,
  request, accept_access_token, on_refresh, refresh, accept_tokens, on_login, full_login,
  after_refresh, login, Round, finished, again, after_login, on_events, round, next_round, get_loop,
  get_events,
}

module _ (api : Api) (creds : AuthLoginRequest) where
  -- The token of the HTTP client is the access token that the client holds.
  pub record IsSynced (s : Session api creds) : Type 0 where
    pub synced : s.auth_token ≡ s.tokens.access_token

  -- The parts of a session that `IsSynced` reads.
  transfer :
      (s t : Session api creds)
      → s.auth_token ≡ t.auth_token
      → s.tokens ≡ t.tokens
      → IsSynced s
      → IsSynced t
  transfer s t h k p = record { synced = sym h ∙ p.synced ∙ ap (λ r. r.access_token) k }

  accept_access_token-IsSynced :
      (o : Option String) (s : Session api creds)
      → IsSynced s
      → IsSynced (accept_access_token api creds o s).1
  unfolding accept_access_token
  accept_access_token-IsSynced none s h = h
  accept_access_token-IsSynced (some token) s h = record { synced = refl }

  on_refresh-IsSynced :
      (reply : Reply) (s : Session api creds)
      → IsSynced s
      → IsSynced (on_refresh api creds reply s).1
  unfolding on_refresh
  on_refresh-IsSynced unreachable s h = h
  on_refresh-IsSynced (response status body) s h =
      if_both P (is_success status)
        (accept_access_token-IsSynced (api.decode_access_token body) s h)
        (if_both P (status == 400) h h)
    where
      P : Option Error × Session api creds → Type 0
      P r = IsSynced r.1

  refresh-IsSynced : (s : Session api creds) → IsSynced s → IsSynced (refresh api creds s).1
  unfolding refresh
  refresh-IsSynced s h =
      let r = request api creds refresh_path (refresh_request s.tokens.refresh_token) s in
      on_refresh-IsSynced r.0 r.1 (transfer s r.1 refl refl h)

  accept_tokens-IsSynced :
      (o : Option AuthTokens) (s : Session api creds)
      → IsSynced s
      → IsSynced (accept_tokens api creds o s).1
  unfolding accept_tokens
  accept_tokens-IsSynced none s h = h
  accept_tokens-IsSynced (some tokens) s h = record { synced = refl }

  on_login-IsSynced :
      (reply : Reply) (s : Session api creds) → IsSynced s → IsSynced (on_login api creds reply s).1
  unfolding on_login
  on_login-IsSynced unreachable s h = h
  on_login-IsSynced (response status body) s h =
      if_both P (is_success status) (accept_tokens-IsSynced (api.decode_tokens body) s h) h
    where
      P : Option Error × Session api creds → Type 0
      P r = IsSynced r.1

  full_login-IsSynced : (s : Session api creds) → IsSynced s → IsSynced (full_login api creds s).1
  unfolding full_login
  full_login-IsSynced s h =
      let r = request api creds login_path (credentials creds) s in
      on_login-IsSynced r.0 r.1 (transfer s r.1 refl refl h)

  after_refresh-IsSynced :
      (e : Option Error) (s : Session api creds)
      → IsSynced s
      → IsSynced (after_refresh api creds e s).1
  unfolding after_refresh
  after_refresh-IsSynced none s h = h
  after_refresh-IsSynced (some token_expired) s h = full_login-IsSynced s h
  after_refresh-IsSynced (some _) s h = h

  -- `login` keeps the two in step, whether it refreshes, logs in with the credentials or fails.
  pub login-IsSynced : (s : Session api creds) → IsSynced s → IsSynced (login api creds s).1
  unfolding login
  login-IsSynced s h = elim (Bool-cases (s.tokens.refresh_token == "")) [
    | inl empty ↦ rw empty (full_login-IsSynced s h)
    | inr some_token ↦ rw some_token (
        after_refresh-IsSynced (refresh api creds s).0 (refresh api creds s).1
          (refresh-IsSynced s h))
  ]

  abbrev session_of : Round api creds → Session api creds
  session_of (finished r s) = s
  session_of (again status s) = s

  after_login-session :
      (status : ℕ) (e : Option Error) (s : Session api creds)
      → session_of (after_login api creds status e s) ≡ s
  unfolding after_login
  after_login-session status none s = refl
  after_login-session status (some e) s = refl

  on_events-IsSynced :
      (reply : Reply) (s : Session api creds)
      → IsSynced s
      → IsSynced (session_of (on_events api creds reply s))
  unfolding on_events
  on_events-IsSynced unreachable s h = h
  on_events-IsSynced (response status body) s h = if_both P (is_success status) h (
      if_both P (status == 401)
        (rw (after_login-session status (login api creds s).0 (login api creds s).1)
          (login-IsSynced s h))
        (if_both P (status == 409) h h))
    where
      P : Round api creds → Type 0
      P r = IsSynced (session_of r)

  round-IsSynced :
      (since : ℤ) (s : Session api creds)
      → IsSynced s
      → IsSynced (session_of (round api creds since s))
  unfolding round
  round-IsSynced since s h =
      let r = request api creds events_path (query api creds since s) s in
      on_events-IsSynced r.0 r.1 (transfer s r.1 refl refl h)

  next_round-IsSynced :
      (r : Round api creds)
      (rest : ℕ → Session api creds → Result (List AuditEventSummary) × Session api creds)
      → IsSynced (session_of r)
      → ((status : ℕ) (s : Session api creds) → IsSynced s → IsSynced (rest status s).1)
      → IsSynced (next_round api creds r rest).1
  unfolding next_round
  next_round-IsSynced (finished r s) rest h k = h
  next_round-IsSynced (again status s) rest h k = k status s h

  get_loop-IsSynced :
      (rounds status : ℕ) (since : ℤ) (s : Session api creds)
      → IsSynced s
      → IsSynced (get_loop api creds rounds status since s).1
  unfolding get_loop
  get_loop-IsSynced zero status since s h = h
  get_loop-IsSynced (suc rounds) status since s h =
      next_round-IsSynced (round api creds since s) _ (round-IsSynced since s h)
        (λ status' s' k. get_loop-IsSynced rounds status' since s' k)

  -- Whatever the server answers, after `GetEvents` the HTTP client sends the access token that the
  -- client holds, if it did so before.
  pub get_events-IsSynced :
      (since : ℤ) (s : Session api creds) → IsSynced s → IsSynced (get_events api creds since s).1
  unfolding get_events
  get_events-IsSynced since s h = get_loop-IsSynced 2 0 since s h
