-- ===== src/Horizon/Rest/Requests.antt =====
-- How many requests `GetEvents` sends, and when it gives up.
use mathlib.Core.List.{append-nil, append_assoc}
use sources_for_knative.Base.{
  ℕ, zero, suc, ◌+◌, ◌*◌, ◌≤◌, String, ℤ, ◌≡◌, ◌≢◌, refl, sym, ◌∙◌, inl, inr, Option, none, some,
  List, [], ◌∷◌, ◌++◌, ◌==◌, string_eq, nat_eq, Bool-cases, if_both, arith, length, length-append,
  copies, length-copies, copies_last, ap, nat_beq_iff,
}
use sources_for_knative.Horizon.Events.{AuditEventSummary}
use sources_for_knative.Horizon.Rest.{
  AuthLoginRequest, AuthTokens, Body, credentials, refresh_request, login_path, refresh_path,
  events_path, query, Request, Reply, unreachable, response, Api, Error, token_expired,
  events_status, Result, err, is_success, Session, request, accept_access_token, on_refresh,
  refresh, accept_tokens, on_login, full_login, after_refresh, login, Round, finished, again,
  after_login, decoded, on_events, round, next_round, get_loop, get_events, logout, logout_path,
  default_retries,
}

-- The library sends a request again at most as often as `newRESTClient` allows.
pub record IsRetrying (api : Api) : Type 0 where
  pub bounded : (r : Request) (s : api.Server) → (api.send r s).resends ≤ default_retries

module _ (api : Api) (creds : AuthLoginRequest) where
  -- From one session to another no more requests were sent than n calls of the library may send, and
  -- none was forgotten.
  pub record Sends (n : ℕ) (s t : Session api creds) : Type 0 where
    pub new : List Request
    pub grew : t.sent ≡ s.sent ++ new
    pub few : length new ≤ suc default_retries * n

  Sends-same : (n : ℕ) (s t : Session api creds) → t.sent ≡ s.sent → Sends n s t
  Sends-same n s t h = record { new = []; grew = h ∙ sym (append-nil _); few = omega arith }

  Sends-append :
      (m n : ℕ) (s t u : Session api creds) → Sends m s t → Sends n t u → Sends (m + n) s u
  Sends-append m n s t u a b = record {
    new = a.new ++ b.new;
    grew = b.grew ∙ rw a.grew (append_assoc s.sent a.new b.new);
    few = omega (arith, length-append a.new b.new, a.few, b.few);
  }

  Sends-weaken : (m n : ℕ) (s t : Session api creds) → m ≤ n → Sends m s t → Sends n s t
  Sends-weaken m n s t h a = record { new = a.new; grew = a.grew; few = omega (arith, a.few) }

  request-Sends :
      IsRetrying api
      → (path : String) (body : Body) (s t : Session api creds)
      → t.sent ≡ (request api creds path body s).1.sent
      → Sends 1 s t
  unfolding request
  request-Sends retrying path body s t h =
      let r : Request = record { path = path; bearer = s.auth_token; body = body } in
      record {
        new = r ∷ copies (api.send r s.server).resends r;
        grew = h;
        few =
            omega
              (arith, length-copies (api.send r s.server).resends r, retrying.bounded r s.server);
      }

  accept_access_token-sent :
      (o : Option String) (s : Session api creds)
      → (accept_access_token api creds o s).1.sent ≡ s.sent
  unfolding accept_access_token
  accept_access_token-sent none s = refl
  accept_access_token-sent (some token) s = refl

  on_refresh-sent :
      (reply : Reply) (s : Session api creds) → (on_refresh api creds reply s).1.sent ≡ s.sent
  unfolding on_refresh
  on_refresh-sent unreachable s = refl
  on_refresh-sent (response status body) s =
      if_both P (is_success status) (accept_access_token-sent (api.decode_access_token body) s)
        (if_both P (status == 400) refl refl)
    where
      P : Option Error × Session api creds → Type 0
      P r = r.1.sent ≡ s.sent

  accept_tokens-sent :
      (o : Option AuthTokens) (s : Session api creds)
      → (accept_tokens api creds o s).1.sent ≡ s.sent
  unfolding accept_tokens
  accept_tokens-sent none s = refl
  accept_tokens-sent (some tokens) s = refl

  on_login-sent :
      (reply : Reply) (s : Session api creds) → (on_login api creds reply s).1.sent ≡ s.sent
  unfolding on_login
  on_login-sent unreachable s = refl
  on_login-sent (response status body) s =
      if_both P (is_success status) (accept_tokens-sent (api.decode_tokens body) s) refl
    where
      P : Option Error × Session api creds → Type 0
      P r = r.1.sent ≡ s.sent

  refresh-Sends : IsRetrying api → (s : Session api creds) → Sends 1 s (refresh api creds s).1
  unfolding refresh
  refresh-Sends retrying s =
      let body = refresh_request s.tokens.refresh_token in
      let r = request api creds refresh_path body s in
      request-Sends retrying refresh_path body s _ (on_refresh-sent r.0 r.1)

  full_login-Sends : IsRetrying api → (s : Session api creds) → Sends 1 s (full_login api creds s).1
  unfolding full_login
  full_login-Sends retrying s =
      let r = request api creds login_path (credentials creds) s in
      request-Sends retrying login_path (credentials creds) s _ (on_login-sent r.0 r.1)

  after_refresh-Sends :
      IsRetrying api
      → (e : Option Error) (s : Session api creds) → Sends 1 s (after_refresh api creds e s).1
  unfolding after_refresh
  after_refresh-Sends retrying none s = Sends-same 1 s s refl
  after_refresh-Sends retrying (some token_expired) s = full_login-Sends retrying s
  after_refresh-Sends retrying (some _) s = Sends-same 1 s s refl

  login-Sends : IsRetrying api → (s : Session api creds) → Sends 2 s (login api creds s).1
  unfolding login
  login-Sends retrying s = elim (Bool-cases (s.tokens.refresh_token == "")) [
    | inl empty ↦ rw empty (Sends-weaken 1 2 s _ (omega arith) (full_login-Sends retrying s))
    | inr some_token ↦ rw some_token (
        Sends-append 1 1 s (refresh api creds s).1 _ (refresh-Sends retrying s)
          (after_refresh-Sends retrying (refresh api creds s).0 (refresh api creds s).1))
  ]

  -- What a round leads to: the session, and the status 401 if the loop goes on.
  abbrev Leads : Session api creds → Round api creds → Type 0
  Leads s (finished r t) = Sends 2 s t × ((c : ℕ) → r ≢ err (events_status c))
  Leads s (again status t) = Sends 2 s t × (status ≡ 401)

  decoded_not_status :
      (o : Option (List AuditEventSummary)) (c : ℕ) → decoded api creds o ≢ err (events_status c)
  unfolding decoded
  decoded_not_status none c = λ e. cc
  decoded_not_status (some events) c = λ e. cc

  after_login-Leads :
      (status : ℕ) (e : Option Error) (s t : Session api creds)
      → status ≡ 401
      → Sends 2 s t
      → Leads s (after_login api creds status e t)
  unfolding after_login
  after_login-Leads status none s t h k = (k, h)
  after_login-Leads status (some e) s t h k = (k, λ c p. cc)

  on_events-Leads :
      IsRetrying api
      → (reply : Reply) (s : Session api creds) → Leads s (on_events api creds reply s)
  unfolding on_events
  on_events-Leads retrying unreachable s = (Sends-same 2 s s refl, λ c p. cc)
  on_events-Leads retrying (response status body) s =
      if_both (Leads s) (is_success status)
        (Sends-same 2 s s refl, decoded_not_status (api.decode_events body))
        (elim (Bool-cases (status == 401)) [
          | inl unauthorized ↦ rw unauthorized (
              after_login-Leads status (login api creds s).0 s (login api creds s).1
                ((nat_beq_iff status 401).0 unauthorized) (login-Sends retrying s))
          | inr other ↦ rw other (
              if_both (Leads s) (status == 409) (Sends-same 2 s s refl, λ c p. cc)
                (Sends-same 2 s s refl, λ c p. cc))
        ])

  -- What `GetEvents` may come to with the requests of at most n calls.
  abbrev Comes :
      ℕ → Session api creds → Result (List AuditEventSummary) × Session api creds → Type 0
  Comes n s p = Sends n s p.1 × ((c : ℕ) → p.0 ≡ err (events_status c) → c ≡ 401)

  next_round-Comes :
      (n : ℕ) (s s₁ : Session api creds) (r : Round api creds)
      (rest : ℕ → Session api creds → Result (List AuditEventSummary) × Session api creds)
      → Sends 1 s s₁
      → Leads s₁ r
      → ((status : ℕ) (t : Session api creds) → status ≡ 401 → Comes n t (rest status t))
      → Comes (n + 3) s (next_round api creds r rest)
  unfolding next_round
  next_round-Comes n s s₁ (finished r t) rest a l k = (
    Sends-weaken 3 (n + 3) s t (omega arith) (Sends-append 1 2 s s₁ t a l.0),
    λ c p. absurd (l.1 c p),
  )
  next_round-Comes n s s₁ (again status t) rest a l k =
      let u = (rest status t).1 in
      (
        Sends-weaken (3 + n) (n + 3) s u (omega arith)
            (Sends-append 3 n s t u (Sends-append 1 2 s s₁ t a l.0) (k status t l.1).0),
        (k status t l.1).1,
      )

  round-Comes :
      IsRetrying api
      → (n : ℕ) (since : ℤ) (s : Session api creds)
        (rest : ℕ → Session api creds → Result (List AuditEventSummary) × Session api creds)
      → ((status : ℕ) (t : Session api creds) → status ≡ 401 → Comes n t (rest status t))
      → Comes (n + 3) s (next_round api creds (round api creds since s) rest)
  unfolding round
  round-Comes retrying n since s rest k =
      let body = query api creds since s in
      let r = request api creds events_path body s in
      next_round-Comes n s r.1 (on_events api creds r.0 r.1) rest
        (request-Sends retrying events_path body s r.1 refl) (on_events-Leads retrying r.0 r.1) k

  get_loop-Comes :
      IsRetrying api
      → (rounds status : ℕ) (since : ℤ) (s : Session api creds) → status ≡ 401
      → Comes (rounds * 3) s (get_loop api creds rounds status since s)
  unfolding get_loop
  get_loop-Comes retrying zero status since s h =
      (Sends-same 0 s s refl, λ c p. let e : status ≡ c = cc in sym e ∙ h)
  get_loop-Comes retrying (suc rounds) status since s h =
      let e : suc rounds * 3 ≡ rounds * 3 + 3 = omega arith in
      rw e (
        round-Comes retrying (rounds * 3) since s _
          (λ status' t k. get_loop-Comes retrying rounds status' since t k))

  get_events-Comes :
      IsRetrying api
      → (since : ℤ) (s : Session api creds) → Comes 6 s (get_events api creds since s)
  unfolding get_events get_loop
  get_events-Comes retrying since s =
      round-Comes retrying 3 since s _ (λ status t h. get_loop-Comes retrying 1 status since t h)

  -- Whatever the server answers, `GetEvents` returns after at most 24 requests, where the library
  -- sends a request again at most three times, and forgets none of them.
  pub get_events_few :
      IsRetrying api
      → (since : ℤ) (s : Session api creds) → Sends 6 s (get_events api creds since s).1
  get_events_few retrying since s = (get_events-Comes retrying since s).0

  -- Where `GetEvents` fails after its loop, with the status of the last response, that is 401.
  get_events_gives_up :
      IsRetrying api
      → (since : ℤ) (s : Session api creds) (c : ℕ)
      → (get_events api creds since s).0 ≡ err (events_status c)
      → c ≡ 401
  get_events_gives_up retrying since s = (get_events-Comes retrying since s).1

  -- `Logout` sends one request, which the library may send again, with the refresh token.
  pub logout-sent :
      (s : Session api creds)
      → (r : Request) × (before : List Request) × ((logout api creds s).1.sent
          ≡ s.sent ++ (before ++ r ∷ []))
        × (r ≡ record {
          path = logout_path;
          bearer = s.auth_token;
          body = refresh_request s.tokens.refresh_token;
        })
        × ((logout api creds s).1.tokens ≡ s.tokens)
  unfolding logout request
  logout-sent s =
      let r : Request = record {
        path = logout_path;
        bearer = s.auth_token;
        body = refresh_request s.tokens.refresh_token;
      } in
      let again = (api.send r s.server).resends in
      (r, copies again r, ap (λ xs. s.sent ++ xs) (copies_last again r), refl, refl)
