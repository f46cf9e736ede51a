-- ===== src/Horizon/Rest/Answers.antt =====
-- The events that `GetEvents` returns are those that the body of a response decodes to.
use sources_for_knative.Base.{
  ℕ, zero, suc, String, ℤ, ◌≡◌, refl, Option, none, some, List, ◌==◌, nat_eq, if_both,
}
use sources_for_knative.Horizon.Events.{AuditEventSummary}
use sources_for_knative.Horizon.Rest.{
  AuthLoginRequest, Reply, unreachable, response, Api, Error, Result, ok, err, is_success, Session,
  request, login, query, Round, finished, again, decoded, after_login, on_events, round, next_round,
  get_loop, get_events, events_path,
}

-- Every list of events in a body has the property.
abbrev pub AllDecoded : Api → (List AuditEventSummary → Type 0) → Type 0
AllDecoded api P =
    (body : String) (es : List AuditEventSummary) → api.decode_events body ≡ some es → P es

-- A list of events, if there is one, has the property.
abbrev pub Holds : (List AuditEventSummary → Type 0) → Result (List AuditEventSummary) → Type 0
Holds P (ok es) = P es
Holds P (err e) = Unit

module _ (api : Api) (creds : AuthLoginRequest) (P : List AuditEventSummary → Type 0)
    (all : AllDecoded api P) where
  abbrev RoundHolds : Round api creds → Type 0
  RoundHolds (finished r s) = Holds P r
  RoundHolds (again status s) = Unit

  decoded-Holds :
      (body : String) (o : Option (List AuditEventSummary))
      → api.decode_events body ≡ o
      → Holds P (decoded api creds o)
  unfolding decoded
  decoded-Holds body none h = tt
  decoded-Holds body (some es) h = all body es h

  after_login-Holds :
      (status : ℕ) (e : Option Error) (s : Session api creds)
      → RoundHolds (after_login api creds status e s)
  unfolding after_login
  after_login-Holds status none s = tt
  after_login-Holds status (some e) s = tt

  on_events-Holds :
      (reply : Reply) (s : Session api creds) → RoundHolds (on_events api creds reply s)
  unfolding on_events
  on_events-Holds unreachable s = tt
  on_events-Holds (response status body) s =
      if_both RoundHolds (is_success status) (decoded-Holds body _ refl) (
        if_both RoundHolds (status == 401)
          (after_login-Holds status (login api creds s).0 (login api creds s).1)
          (if_both RoundHolds (status == 409) tt tt))

  next_round-Holds :
      (r : Round api creds)
      (rest : ℕ → Session api creds → Result (List AuditEventSummary) × Session api creds)
      → RoundHolds r
      → ((status : ℕ) (s : Session api creds) → Holds P (rest status s).0)
      → Holds P (next_round api creds r rest).0
  unfolding next_round
  next_round-Holds (finished r s) rest h k = h
  next_round-Holds (again status s) rest h k = k status s

  round-Holds : (since : ℤ) (s : Session api creds) → RoundHolds (round api creds since s)
  unfolding round
  round-Holds since s =
      let r = request api creds events_path (query api creds since s) s in on_events-Holds r.0 r.1

  get_loop-Holds :
      (rounds status : ℕ) (since : ℤ) (s : Session api creds)
      → Holds P (get_loop api creds rounds status since s).0
  unfolding get_loop
  get_loop-Holds zero status since s = tt
  get_loop-Holds (suc rounds) status since s =
      next_round-Holds (round api creds since s) _ (round-Holds since s)
        (λ status' s'. get_loop-Holds rounds status' since s')

  pub get_events-Holds :
      (since : ℤ) (s : Session api creds) → Holds P (get_events api creds since s).0
  unfolding get_events
  get_events-Holds since s = get_loop-Holds 2 0 since s
