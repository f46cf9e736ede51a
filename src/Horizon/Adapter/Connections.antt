-- ===== src/Horizon/Adapter/Connections.antt =====
-- The connection of the Horizon adapter: only `GetEvents` and the deferred `Logout` touch it.
use mathlib.Core.List.{Memᴰ}
use sources_for_knative.Base.{
  ◌≡◌, refl, sym, subst, ℤ, inl, inr, Option, some, List, [], ◌∷◌, Text, Bool-cases,
}
use sources_for_knative.Horizon.Events.{
  AuditEventSummary, Outcome, returned, panicked, remove_event,
}
use sources_for_knative.Horizon.Api.{Answer, Client}
use sources_for_knative.Horizon.Adapter.{
  Outside, Backoff, Signal, done, tick, Exit, cancelled, Adapter, Progress, go, stop, leave,
  next_since, skips, deliver, on_answer, step, carry_on, run,
}

module _ (out : Outside) (source : Text) (client : Client) (bo : Backoff) where
  abbrev State : Type 0
  State = Adapter out source client bo

  abbrev conn_of : Progress out source client bo → client.Conn
  conn_of (go a) = a.conn
  conn_of (stop exit a) = a.conn

  deliver-conn :
      (a : State) (o : Outcome (List AuditEventSummary))
      → conn_of (deliver out source client bo a o) ≡ a.conn
  unfolding deliver
  deliver-conn a panicked = refl
  deliver-conn a (returned es) = refl

  on_answer-conn :
      (a : State) (answer : Answer) → conn_of (on_answer out source client bo a answer) ≡ a.conn
  unfolding on_answer
  on_answer-conn a Answer.failed = refl
  on_answer-conn a (Answer.events es) =
      elim (Bool-cases (skips out source client bo a.last_event es)) [
        | inl skip ↦ rw skip refl
        | inr new ↦ rw new (deliver-conn a (remove_event es a.last_event))
      ]

  module _ (P : client.Conn → Type 0)
      (keeps : (since : ℤ) (conn : client.Conn) → P conn → P (client.get_events since conn).1) where
    step_keeps :
        (a : State) (signal : Signal) → P a.conn → P (conn_of (step out source client bo a signal))
    unfolding step
    step_keeps a done h = h
    step_keeps a tick h =
        let since = next_since out source client bo a in
        subst P (sym (on_answer-conn _ (client.get_events since a.conn).0)) (keeps since a.conn h)

    -- The loop has ended, and it logged out of a connection with the property.
    abbrev pub LeftWith : Option Exit × State → Type 0
    LeftWith r =
        (exit : Exit) × (a : State) × P a.conn × (r ≡ (some exit, leave out source client bo a))

    carry_on-LeftWith :
        (p : Progress out source client bo) (rest : State → Option Exit × State)
        → P (conn_of p)
        → ((a : State) → P a.conn → LeftWith (rest a))
        → LeftWith (carry_on out source client bo p rest)
    unfolding carry_on
    carry_on-LeftWith (go a) rest h k = k a h
    carry_on-LeftWith (stop exit a) rest h k = (exit, a, h, refl)

    -- A property of the connection that every `GetEvents` keeps holds when `run` logs out, which it
    -- does if the context is done among whatever other signals.
    pub run-LeftWith :
        (a : State) (signals : List Signal)
        → P a.conn
        → Memᴰ done signals
        → LeftWith (run out source client bo a signals)
    unfolding run step
    run-LeftWith a [] h m = elim m [ ]
    run-LeftWith a (signal ∷ signals) h (Memᴰ.head e) =
        subst (λ x. LeftWith (run out source client bo a (x ∷ signals))) e (cancelled, a, h, refl)
    run-LeftWith a (signal ∷ signals) h (Memᴰ.tail m) =
        carry_on-LeftWith (step out source client bo a signal) _ (step_keeps a signal h)
          (λ a' h'. run-LeftWith a' signals h' m)
