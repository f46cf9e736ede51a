-- ===== src/Horizon/Adapter/Runs.antt =====
-- Whole runs of the polling loop, over every sequence of signals.
use mathlib.Core.List.{Memᴰ}
use sources_for_knative.Base.{Memᴰ-append_left, Memᴰ-append_right}
use sources_for_knative.Base.{
  ◌≤◌, ℤ, pos, ◌≡◌, ◌≢◌, refl, ◌∙◌, ◌⊎◌, inl, inr, Option, none, some, List, [], ◌∷◌, Text,
  Bool-cases,
}
use sources_for_knative.Horizon.Events.{
  AuditEventSummary, Outcome, returned, panicked, remove_event,
}
use sources_for_knative.Horizon.Events.Remove.{matches, remove_event-eq-without}
use sources_for_knative.Horizon.Api.{Answer, Client}
use sources_for_knative.Horizon.Adapter.{
  Outside, Backoff, Signal, done, tick, Exit, panic, Adapter, Progress, go, stop, next_since, skips,
  deliver, on_answer, step, carry_on, run, initial,
}
use sources_for_knative.Horizon.Adapter.Sending.{last_or, send_events-Sent}

last_or_cases :
    (l : Option AuditEventSummary) (xs : List AuditEventSummary)
    → (last_or l xs ≡ l) ⊎ ((x : AuditEventSummary) × (last_or l xs ≡ some x) × Memᴰ x xs)
last_or_cases l [] = inl refl
last_or_cases l (x ∷ xs) = elim (last_or_cases (some x) xs) [
  | inl p ↦ inr (x, p, Memᴰ.head refl)
  | inr (y, p, m) ↦ inr (y, p, Memᴰ.tail m)
]

module _ (out : Outside) (source : Text) (client : Client) (bo : Backoff) where
  abbrev State : Type 0
  State = Adapter out source client bo

  abbrev state_of : Progress out source client bo → State
  state_of (go a) = a
  state_of (stop exit a) = a

  -- The position of the adapter in the event stream comes from events that the sink acknowledged.
  pub record IsPositioned (a : State) : Type 0 where
    pub at_last :
        (a.last_event ≡ none)
        ⊎ ((l : AuditEventSummary) × (a.last_event ≡ some l) × Memᴰ l a.trace.acked)
    pub at_since :
        (a.since ≡ pos 0) ⊎ ((e : AuditEventSummary) × (a.since ≡ e.time) × Memᴰ e a.trace.acked)

  deliver-IsPositioned :
      (a : State) (o : Outcome (List AuditEventSummary))
      → IsPositioned a
      → IsPositioned (state_of (deliver out source client bo a o))
  unfolding deliver
  deliver-IsPositioned a panicked h = h
  deliver-IsPositioned a (returned es) h =
      let sent = send_events-Sent out source es a.trace in
      record {
        at_last = elim (last_or_cases none sent.taken) [
          | inl p ↦ inl (sent.ends ∙ p)
          | inr (x, p, m) ↦
              inr (x, sent.ends ∙ p, rw sent.acked (Memᴰ-append_right a.trace.acked sent.taken m))
        ];
        at_since = elim h.at_since [
          | inl p ↦ inl p
          | inr (e, p, m) ↦ inr (e, p, rw sent.acked (Memᴰ-append_left a.trace.acked sent.taken m))
        ];
      }

  on_answer-IsPositioned :
      (a : State) (answer : Answer)
      → IsPositioned a
      → IsPositioned (state_of (on_answer out source client bo a answer))
  unfolding on_answer
  on_answer-IsPositioned a Answer.failed h = h
  on_answer-IsPositioned a (Answer.events es) h =
      elim (Bool-cases (skips out source client bo a.last_event es)) [
        | inl skip ↦ rw skip (record { at_last = h.at_last; at_since = h.at_since })
        | inr new ↦ rw new (deliver-IsPositioned a (remove_event es a.last_event) h)
      ]

  step-IsPositioned :
      (a : State) (signal : Signal)
      → IsPositioned a
      → IsPositioned (state_of (step out source client bo a signal))
  unfolding step
  step-IsPositioned a done h = h
  step-IsPositioned a tick h = on_answer-IsPositioned _ _ (record {
    at_last = h.at_last;
    at_since = elim h.at_last [ inl p ↦ rw p h.at_since | inr (l, p, m) ↦ rw p (inr (l, refl, m)) ];
  })

  carry_on-IsPositioned :
      (p : Progress out source client bo) (rest : State → Option Exit × State)
      → IsPositioned (state_of p)
      → ((a : State) → IsPositioned a → IsPositioned (rest a).1)
      → IsPositioned (carry_on out source client bo p rest).1
  unfolding carry_on
  carry_on-IsPositioned (go a) rest h k = k a h
  carry_on-IsPositioned (stop exit a) rest h k = record {
    at_last = h.at_last;
    at_since = h.at_since;
  }

  -- From a positioned state, whatever signals arrive and whatever the client answers, `run` ends or
  -- goes on in a state where the last event, if there is one, was acknowledged by the sink, and the
  -- time from which the next events are read is 0 or that of an acknowledged event.
  pub run-IsPositioned :
      (a : State) (signals : List Signal)
      → IsPositioned a
      → IsPositioned (run out source client bo a signals).1
  unfolding run
  run-IsPositioned a [] h = h
  run-IsPositioned a (signal ∷ signals) h =
      carry_on-IsPositioned (step out source client bo a signal) _ (step-IsPositioned a signal h)
        (λ a' k. run-IsPositioned a' signals k)

  -- The adapter enters its loop in a positioned state.
  pub initial-IsPositioned :
      (conn : client.Conn) (counter : bo.Counter)
      → IsPositioned (initial out source client bo conn counter)
  initial-IsPositioned conn counter = record { at_last = inl refl; at_since = inl refl }

  -- An answer in which no ID occurs twice.
  abbrev pub HasUniqueIds : Answer → Type 0
  HasUniqueIds Answer.failed = Unit
  HasUniqueIds (Answer.events es) = (id : ℤ) → matches id es ≤ 1

  abbrev EndsWell : Progress out source client bo → Type 0
  EndsWell (go a) = Unit
  EndsWell (stop exit a) = exit ≢ panic

  deliver-EndsWell :
      (a : State) (es : List AuditEventSummary) (last : Option AuditEventSummary)
      → HasUniqueIds (Answer.events es)
      → EndsWell (deliver out source client bo a (remove_event es last))
  unfolding deliver
  deliver-EndsWell a es none u = unfold remove_event in tt
  deliver-EndsWell a es (some l) u = rw (remove_event-eq-without es l (u l.id)) tt

  on_answer-EndsWell :
      (a : State) (answer : Answer)
      → HasUniqueIds answer
      → EndsWell (on_answer out source client bo a answer)
  unfolding on_answer
  on_answer-EndsWell a Answer.failed u = λ e. cc
  on_answer-EndsWell a (Answer.events es) u =
      elim (Bool-cases (skips out source client bo a.last_event es)) [
        | inl skip ↦ rw skip tt
        | inr new ↦ rw new (deliver-EndsWell a es a.last_event u)
      ]

  carry_on_no_panic :
      (p : Progress out source client bo) (rest : State → Option Exit × State)
      → EndsWell p
      → ((a : State) → (rest a).0 ≢ some panic)
      → (carry_on out source client bo p rest).0 ≢ some panic
  unfolding carry_on
  carry_on_no_panic (go a) rest h k = k a
  carry_on_no_panic (stop exit a) rest h k = λ e. h (cc)

  module _
      (unique : (since : ℤ) (conn : client.Conn)
        → HasUniqueIds (client.get_events since conn).0) where
    step-EndsWell : (a : State) (signal : Signal) → EndsWell (step out source client bo a signal)
    unfolding step
    step-EndsWell a done = λ e. cc
    step-EndsWell a tick =
        on_answer-EndsWell _ _ (unique (next_since out source client bo a) a.conn)

    -- If no answer of the client holds an ID twice, no run panics.
    pub run_no_panic :
        (a : State) (signals : List Signal) → (run out source client bo a signals).0 ≢ some panic
    unfolding run
    run_no_panic a [] = λ e. cc
    run_no_panic a (signal ∷ signals) =
        carry_on_no_panic (step out source client bo a signal) _ (step-EndsWell a signal)
          (λ a'. run_no_panic a' signals)
