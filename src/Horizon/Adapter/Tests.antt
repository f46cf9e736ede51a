-- ===== src/Horizon/Adapter/Tests.antt =====
-- Examples for the Horizon adapter: a client that answers with two events at first and then with
-- the newer of them, and sinks that acknowledge everything or nothing.
use mathlib.Core.List as L
use sources_for_knative.Base.{
  ℕ, zero, suc, ℤ, pos, ◌≡◌, ◌≢◌, refl, Option, none, some, List, [], ◌∷◌, ◌++◌, Bool, true, false,
  arith, Text, codes, int_eq, inl, inr, Bool-cases,
}
use sources_for_knative.Horizon.Events.{AuditEventSummary, zero_event, reverse}
use sources_for_knative.Horizon.Events.Remove.{has_id}
use sources_for_knative.Horizon.Api.{Answer, Client}
use sources_for_knative.Horizon.Adapter.{
  Outside, Trace, send_events, Backoff, done, tick, panic, Adapter, go, step, run, initial,
}
use sources_for_knative.Horizon.Adapter.Sending.{Sent, send_events-Sent}
use sources_for_knative.Horizon.Adapter.Polling.{Lacks, tick_no_resend}
use sources_for_knative.Horizon.Adapter.Runs.{
  IsPositioned, HasUniqueIds, run-IsPositioned, initial-IsPositioned, run_no_panic,
}
use mathlib.Core.List.{Memᴰ}

abbrev event_of : ℕ → ℕ → AuditEventSummary
event_of id time = record zero_event { id = pos id; time = pos time; event_type = "VLSI" }

abbrev older : AuditEventSummary
older = event_of 1 1000

abbrev newer : AuditEventSummary
newer = event_of 2 2000

abbrev sink : Bool → Outside
sink acks = record {
  unicode_lower = λ c. c;
  set_data_ok = λ e. true;
  validate_ok = λ ce. true;
  acks = λ n ce. acks;
  cancelled = λ n. false;
}

abbrev two_then_one : Client
two_then_one = record {
  Conn = ℕ;
  get_events = λ since n. elim n [
    | zero ↦ (Answer.events (newer ∷ (older ∷ [])), 1)
    | suc k ↦ (Answer.events (newer ∷ []), suc (suc k))
  ];
  logout = λ n. n;
}

abbrev one_by_one : Client
one_by_one = record {
  Conn = ℕ;
  get_events = λ since n. (Answer.events (event_of n 0 ∷ []), suc n);
  logout = λ n. n;
}

abbrev counting : Backoff
counting = record { Counter = ℕ; delay = λ n. n; count = λ n. suc n; reset = λ n. 0 }

abbrev no_trace : Trace
no_trace = record { looks = 0; attempts = []; acked = [] }

abbrev server_name : Text
server_name = codes "horizon.local"

-- The adapter after a batch of which `last` was acknowledged.
abbrev after_batch :
    (acks : Bool) → Option AuditEventSummary → Adapter (sink acks) server_name two_then_one counting
after_batch acks last = record {
  last_event = last;
  since = pos 0;
  backoff = 0;
  conn = 0;
  slept = 0;
  trace = no_trace;
}

send_events-Sent_example :
    Sent
      (sink true)
      server_name
      (L.reverse (newer ∷ (older ∷ [])))
      none
      (send_events (sink true) server_name (newer ∷ (older ∷ [])) no_trace).0
      no_trace
      (send_events (sink true) server_name (newer ∷ (older ∷ [])) no_trace).1
send_events-Sent_example = send_events-Sent (sink true) server_name (newer ∷ (older ∷ [])) no_trace

run-IsPositioned_example :
    IsPositioned
      (sink true)
      server_name
      two_then_one
      counting
      (run
        (sink true)
        server_name
        two_then_one
        counting
        (initial (sink true) server_name two_then_one counting 0 0)
        (tick ∷ (tick ∷ (done ∷ [])))).1
run-IsPositioned_example =
    run-IsPositioned (sink true) server_name two_then_one counting
      (initial (sink true) server_name two_then_one counting 0 0) (tick ∷ (tick ∷ (done ∷ [])))
      (initial-IsPositioned (sink true) server_name two_then_one counting 0 0)

one_by_one-HasUniqueIds :
    (since : ℤ) (n : ℕ)
    → HasUniqueIds (sink true) server_name one_by_one counting (one_by_one.get_events since n).0
one_by_one-HasUniqueIds since n id = elim (Bool-cases (has_id id (event_of n 0))) [
  | inl e ↦ rw e (omega arith)
  | inr e ↦ rw e (omega arith)
]

run_no_panic_example :
    (run
      (sink true)
      server_name
      one_by_one
      counting
      (initial (sink true) server_name one_by_one counting 0 0)
      (tick ∷ (tick ∷ []))).0
    ≢ some panic
run_no_panic_example =
    run_no_panic (sink true) server_name one_by_one counting one_by_one-HasUniqueIds
      (initial (sink true) server_name one_by_one counting 0 0) (tick ∷ (tick ∷ []))

tick_no_resend_example :
    (a' : Adapter (sink true) server_name two_then_one counting) × (taken : List AuditEventSummary)
    × (step (sink true) server_name two_then_one counting (after_batch true (some older)) tick
        ≡ go a')
    × (a'.trace.acked ≡ [] ++ taken)
    × Lacks (pos 1) taken
tick_no_resend_example =
    tick_no_resend (sink true) server_name two_then_one counting (after_batch true (some older))
      older (newer ∷ (older ∷ [])) 1 refl refl (omega arith)
