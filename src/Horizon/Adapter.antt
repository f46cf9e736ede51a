-- ===== src/Horizon/Adapter.antt =====
-- The receive adapter of pkg/horizon/adapter.go: it polls for events and sends them to the sink.
-- `Outside` holds what the adapter calls and does not implement: the CloudEvents SDK, the context,
-- Unicode's table. Each call that may differ from time to time is numbered.
pub mod Sending
pub mod Refusing
pub mod Polling
pub mod Runs
pub mod Connections
mod Tests
use mathlib.Core.Option
use sources_for_knative.Base.{
  ℕ, suc, ◌+◌, String, ℤ, pos, quot, Option, none, some, List, [], ◌∷◌, ◌++◌, Bool, true, false,
  ◌&&◌, length, ◌==◌, int_eq, if◌then◌else◌, Text, codes, to_lower, itoa,
}
use sources_for_knative.Horizon.Events.{
  AuditEventSummary, Outcome, returned, panicked, reverse, remove_event,
}
use sources_for_knative.Horizon.Api.{Answer, Client}

-- The attributes that `toCloudEvent` sets; the payload is the event itself, as JSON.
pub record CloudEvent : Type 0 where
  pub id : Text
  pub source : Text
  pub event_type : Text
  pub seconds : ℤ
  pub payload : AuditEventSummary

pub record Outside : Type 0 where
  -- Lower case of the runes beyond ASCII.
  pub unicode_lower : ℕ → ℕ
  -- Whether `SetData` encodes the event, and whether `Validate` accepts the cloud event.
  pub set_data_ok : AuditEventSummary → Bool
  pub validate_ok : CloudEvent → Bool
  -- Whether the n-th `Send` is acknowledged.
  pub acks : ℕ → CloudEvent → Bool
  -- Whether the n-th look at `ctx.Err()` finds the context cancelled.
  pub cancelled : ℕ → Bool

-- What the outside has seen: the looks at the context, the sends, and the events acknowledged.
pub record Trace : Type 0 where
  pub looks : ℕ
  pub attempts : List CloudEvent
  pub acked : List AuditEventSummary

unfoldable pub convert_event_type : (ℕ → ℕ) → String → Text
unfolding to_lower
convert_event_type table t =
    codes "com.vmware.horizon." ++ (to_lower table (codes t) ++ codes ".v0")

module _ (out : Outside) (source : Text) where
  -- The cloud event before `SetData` and `Validate`; the time is converted from milliseconds.
  pub envelope : AuditEventSummary → CloudEvent
  envelope event = record {
    id = itoa event.id;
    source = source;
    event_type = convert_event_type out.unicode_lower event.event_type;
    seconds = quot event.time 1000;
    payload = event;
  }

  pub to_cloud_event : AuditEventSummary → Option CloudEvent
  to_cloud_event event =
      if out.set_data_ok event && out.validate_ok (envelope event)
      then some (envelope event)
      else none

  -- The look at the context that each round of `sendEvents` begins with.
  pub look : Trace → Trace
  look w = record w { looks = suc w.looks }

  -- The rest of a round: convert, send, and note the event if the sink acknowledged it.
  send_converted :
      AuditEventSummary
      → Option CloudEvent
      → Option AuditEventSummary
      → Trace
      → Option AuditEventSummary × Trace
  send_converted event none last w = (last, w)
  send_converted event (some ce) last w =
      let w' = record w { attempts = w.attempts ++ ce ∷ [] } in
      if out.acks (length w.attempts) ce
      then (some event, record w' { acked = w.acked ++ event ∷ [] })
      else (last, w')

  pub send_one :
      AuditEventSummary → Option AuditEventSummary → Trace → Option AuditEventSummary × Trace
  unfolding send_converted
  send_one event last w = send_converted event (to_cloud_event event) last w

  pub send_loop :
      List AuditEventSummary → Option AuditEventSummary → Trace → Option AuditEventSummary × Trace
  send_loop [] last w = (last, w)
  send_loop (event ∷ events) last w =
      let (last', w') = send_one event last (look w) in
      let rest = send_loop events last' w' in if out.cancelled w.looks then (last, look w) else rest

  unfoldable pub send_events : List AuditEventSummary → Trace → Option AuditEventSummary × Trace
  unfolding send_loop send_one look
  send_events events w = send_loop (reverse events) none w

-- jpillora/backoff: `Duration` gives the next delay and counts, `Reset` starts over.
pub record Backoff : Type 1 where
  pub Counter : Type 0
  pub delay : Counter → ℕ
  pub count : Counter → Counter
  pub reset : Counter → Counter

pub data Signal : Type 0 where
  done tick : Signal

pub data Exit : Type 0 where
  cancelled get_failed panic : Exit

module _ (out : Outside) (source : Text) (client : Client) (bo : Backoff) where
  -- The variables of `run`, with the delays slept so far.
  pub record Adapter : Type 0 where
    pub last_event : Option AuditEventSummary
    pub since : ℤ
    pub backoff : bo.Counter
    pub conn : client.Conn
    pub slept : ℕ
    pub trace : Trace

  pub data Progress : Type 0 where
    go : Adapter → Progress
    stop : Exit → Adapter → Progress

  -- `if lastEvent != nil { since = Timestamp(lastEvent.Time) }`
  abbrev pub next_since : Adapter → ℤ
  next_since a = elim a.last_event [ none ↦ a.since | some e ↦ e.time ]

  -- The switch on `len(events)`.
  abbrev pub skips : Option AuditEventSummary → List AuditEventSummary → Bool
  skips last [] = true
  skips none (e ∷ []) = false
  skips (some l) (e ∷ []) = e.id == l.id
  skips last (e ∷ f ∷ es) = false

  deliver : Adapter → Outcome (List AuditEventSummary) → Progress
  deliver a panicked = stop panic a
  deliver a (returned events) =
      let (last, w) = send_events out source events a.trace in
      go (record a { last_event = last; trace = w; backoff = bo.reset a.backoff })

  on_answer : Adapter → Answer → Progress
  unfolding deliver
  on_answer a Answer.failed = stop get_failed a
  on_answer a (Answer.events events) =
      if skips a.last_event events
      then go (record a { backoff = bo.count a.backoff; slept = a.slept + bo.delay a.backoff })
      else deliver a (remove_event events a.last_event)

  -- One pass of the loop: the ticker fired, or the context is done.
  unfoldable pub step : Adapter → Signal → Progress
  unfolding on_answer
  step a done = stop cancelled a
  step a tick =
      let since = next_since a in
      let (answer, conn) = client.get_events since a.conn in
      on_answer (record a { since = since; conn = conn }) answer

  -- The deferred function logs out however `run` ends.
  abbrev pub leave : Adapter → Adapter
  leave a = record a { conn = client.logout a.conn }

  -- The end of a pass: the loop goes on, or `run` returns.
  carry_on : Progress → (Adapter → Option Exit × Adapter) → Option Exit × Adapter
  carry_on (go a) rest = rest a
  carry_on (stop exit a) rest = (some exit, leave a)

  -- The loop over the signals that `select` receives; `none` while it still runs.
  unfoldable pub run : Adapter → List Signal → Option Exit × Adapter
  unfolding carry_on
  run a [] = (none, a)
  run a (signal ∷ signals) = carry_on (step a signal) (λ a'. run a' signals)

  -- The state in which `run` enters the loop.
  abbrev pub initial : client.Conn → bo.Counter → Adapter
  initial conn backoff = record {
    last_event = none;
    since = pos 0;
    backoff = backoff;
    conn = conn;
    slept = 0;
    trace = record { looks = 0; attempts = []; acked = [] };
  }
