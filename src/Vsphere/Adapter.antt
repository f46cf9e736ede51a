-- ===== src/Vsphere/Adapter.antt =====
-- The receive adapter of pkg/vsphere/adapter.go: it reads the event history of vCenter, sends the
-- events to the sink and keeps a checkpoint of the last one that was acknowledged.
pub mod Begin
pub mod Sending
pub mod Polling
pub mod Runs
pub mod Delivery
pub mod Refining
pub mod Ending
pub mod Restarting
mod Tests
use sources_for_knative.Base.{
  ℕ, zero, suc, ◌-◌, ◌*◌, String, ℤ, pos, ◌-ℤ◌, ltb_ℤ, floor_div, ◌≡◌, Option, none, some, List, [],
  ◌∷◌, ◌++◌, Bool, true, false, not, ◌&&◌, ◌||◌, length, get_elem?, ◌==◌, int_eq, nat_eq,
  if◌then◌else◌, Text, codes, itoa,
}
use sources_for_knative.Vsphere.Checkpoint.{second, Checkpoint}
use sources_for_knative.Vsphere.Events.{BaseEvent, EventDetails, get_event_details}

-- `Time.Unix` up to the constant between Go's zero time and the Unix epoch: it only serves to
-- compare two instants by whole seconds.
pub unix : ℤ → ℤ
unix t = floor_div t second

-- `getBeginFromCheckpoint`
pub get_begin : ℤ → ℤ → ℤ → ℤ
unfolding unix
get_begin vc_time cp_time max_age =
    let max_time = vc_time -ℤ max_age in
    if not (cp_time == pos 0)
    then (if ltb_ℤ (unix cp_time) (unix max_time) then max_time else cp_time)
    else vc_time

pub record CloudEvent : Type 0 where
  pub id : Text
  pub source : String
  pub event_type : Text
  pub time : ℤ
  pub event_class : String
  pub api_version : String
  pub encoding : String
  pub payload : BaseEvent

pub record Config : Type 0 where
  pub source : String
  pub api_version : String
  pub payload_encoding : String

-- The CloudEvents SDK: whether `SetData` encodes the event, whether the n-th `Send` is acknowledged.
pub record Outside : Type 0 where
  pub set_data_ok : String → BaseEvent → Bool
  pub acks : ℕ → CloudEvent → Bool

-- What the sink has seen: the sends, and the events acknowledged.
pub record Trace : Type 0 where
  pub attempts : List CloudEvent
  pub acked : List BaseEvent

pub data SendError : Type 0 where
  set_data_failed not_acknowledged : SendError

module _ (out : Outside) (cfg : Config) where
  pub envelope : BaseEvent → CloudEvent
  envelope be =
      let details = get_event_details be in
      record {
        id = itoa be.key;
        source = cfg.source;
        event_type = codes "com.vmware.vsphere." ++ (codes details.type_name ++ codes ".v0");
        time = be.created_time;
        event_class = details.class_name;
        api_version = cfg.api_version;
        encoding = cfg.payload_encoding;
        payload = be;
      }

  abbrev SendResult : Type 0
  SendResult = ℕ × Option SendError × Trace

  -- The loop of `sendEvents`, with the number of events sent so far.
  send_loop : List BaseEvent → ℕ → Trace → SendResult
  send_loop [] success w = (success, none, w)
  send_loop (be ∷ events) success w =
      let tried : Trace = record w { attempts = w.attempts ++ envelope be ∷ [] } in
      let rest = send_loop events (suc success) (record tried { acked = w.acked ++ be ∷ [] }) in
      if not (out.set_data_ok cfg.payload_encoding be)
      then (success, some set_data_failed, w)
      else if not (out.acks (length w.attempts) (envelope be))
      then (success, some not_acknowledged, tried)
      else rest

  pub send_events : List BaseEvent → Trace → SendResult
  unfolding send_loop
  send_events events w = send_loop events 0 w

-- knative.dev/pkg/kvstore, at the key of the checkpoint. `saved` is what `Save` made durable.
pub record KvStore : Type 1 where
  pub Store : Type 0
  pub get : Store → Option Checkpoint
  pub set : Checkpoint → Store → Option Store
  pub save : Store → Option Store
  pub saved : Store → Option Checkpoint

-- `Set` is seen by `Get` and is not durable yet, `Save` makes durable what `Get` returns.
pub record IsKeyed (kv : KvStore) : Type 0 where
  pub get-set : (c : Checkpoint) (s t : kv.Store) → kv.set c s ≡ some t → kv.get t ≡ some c
  pub saved-set : (c : Checkpoint) (s t : kv.Store) → kv.set c s ≡ some t → kv.saved t ≡ kv.saved s
  pub get-save : (s t : kv.Store) → kv.save s ≡ some t → kv.get t ≡ kv.get s
  pub saved-save : (s t : kv.Store) → kv.save s ≡ some t → kv.saved t ≡ kv.get s

-- govmomi: the time of vCenter, a new `HistoryCollector` over the events from an instant on, and
-- `ReadNextEvents`, which moves on in the history or fails.
pub record Collector : Type 1 where
  pub Cursor : Type 0
  pub current_time : Option ℤ
  pub create : ℤ → Option Cursor
  pub read_next_events : ℕ → Cursor → Option (List BaseEvent) × Cursor

-- jpillora/backoff
pub record Backoff : Type 1 where
  pub Counter : Type 0
  pub count : Counter → Counter
  pub reset : Counter → Counter

abbrev pub max_events_batch : ℕ
max_events_batch = 100

-- What `select` finds: the context is done, the checkpoint ticker fired, or neither. A poll that
-- brings events reads the clock for the checkpoint.
pub data Signal : Type 0 where
  done checkpoint_tick : Signal
  poll : ℤ → Signal

pub data Exit : Type 0 where
  cancelled get_failed save_failed read_failed set_failed panic : Exit

module _ (out : Outside) (cfg : Config) (kv : KvStore) (hist : Collector) (bo : Backoff) where
  -- The variables of `readEvents`.
  pub record Adapter : Type 0 where
    pub last_event : Option BaseEvent
    pub last_checkpoint_event_key : ℤ
    pub backoff : bo.Counter
    pub store : kv.Store
    pub cursor : hist.Cursor
    pub trace : Trace

  pub data Progress : Type 0 where
    go : Adapter → Progress
    stop : Exit → Adapter → Progress

  abbrev pub checkpoint_of : BaseEvent → ℤ → Checkpoint
  checkpoint_of e now = record {
    vcenter = cfg.source;
    last_event_key = e.key;
    last_event_type = (get_event_details e).type_name;
    last_event_key_timestamp = e.created_time;
    created_timestamp = now;
  }

  -- A `Save` that fails is taken to have stored nothing.
  after_save : BaseEvent → Option kv.Store → Adapter → Progress
  after_save e none a = stop save_failed a
  after_save e (some store) a = go (record a { store = store; last_checkpoint_event_key = e.key })

  after_get : BaseEvent → Option Checkpoint → Adapter → Progress
  unfolding after_save
  after_get e none a = stop get_failed a
  after_get e (some current) a = after_save e (kv.save a.store) a

  -- The ticker's case: nothing is saved if no event came since the last checkpoint.
  take_checkpoint : Option BaseEvent → Adapter → Progress
  unfolding after_get
  take_checkpoint none a = go a
  take_checkpoint (some e) a =
      if a.last_checkpoint_event_key == e.key then go a else after_get e (kv.get a.store) a

  after_set : Option kv.Store → Adapter → Progress
  after_set none a = stop set_failed a
  after_set (some store) a = go (record a { store = store; backoff = bo.reset a.backoff })

  -- `lastEvent = events[n-1]`, and the checkpoint of it.
  record_last : Option BaseEvent → ℤ → Adapter → Progress
  unfolding after_set
  record_last none now a = stop panic a
  record_last (some e) now a =
      let a' = record a { last_event = some e } in
      after_set (kv.set (checkpoint_of e now) a'.store) a'

  after_send : List BaseEvent → ℕ → Option SendError → ℤ → Adapter → Progress
  unfolding record_last
  after_send events zero (some e) now a = go a
  after_send events zero none now a = stop panic a
  after_send events (suc n) e now a = record_last (get_elem? events n) now a

  after_read : Option (List BaseEvent) → ℤ → Adapter → Progress
  unfolding after_send
  after_read none now a = stop read_failed a
  after_read (some []) now a = go (record a { backoff = bo.count a.backoff })
  after_read (some (e ∷ es)) now a =
      let (n, failure, w) = send_events out cfg (e ∷ es) a.trace in
      after_send (e ∷ es) n failure now (record a { trace = w })

  unfoldable pub step : Adapter → Signal → Progress
  unfolding take_checkpoint after_read
  step a done = stop cancelled a
  step a checkpoint_tick = take_checkpoint a.last_event a
  step a (poll now) =
      let (answer, cursor) = hist.read_next_events max_events_batch a.cursor in
      after_read answer now (record a { cursor = cursor })

  carry_on : Progress → (Adapter → Option Exit × Adapter) → Option Exit × Adapter
  carry_on (go a) rest = rest a
  carry_on (stop exit a) rest = (some exit, a)

  -- The loop of `readEvents` over the signals; `none` while it still runs.
  unfoldable pub read_events : Adapter → List Signal → Option Exit × Adapter
  unfolding carry_on
  read_events a [] = (none, a)
  read_events a (signal ∷ signals) = carry_on (step a signal) (λ a'. read_events a' signals)

  -- The variables when the loop starts.
  abbrev pub initial : bo.Counter → kv.Store → hist.Cursor → Adapter
  initial backoff store cursor = record {
    last_event = none;
    last_checkpoint_event_key = pos 0;
    backoff = backoff;
    store = store;
    cursor = cursor;
    trace = record { attempts = []; acked = [] };
  }

  pub data RunResult : Type 0 where
    time_failed collector_failed : RunResult
    read : Option Exit × Adapter → RunResult

  -- Without a stored checkpoint the zero value is used.
  pub checkpoint_time : Option Checkpoint → ℤ
  checkpoint_time none = pos 0
  checkpoint_time (some cp) = cp.last_event_key_timestamp

  start_reading : Option hist.Cursor → bo.Counter → kv.Store → List Signal → RunResult
  start_reading none backoff store signals = collector_failed
  start_reading (some cursor) backoff store signals =
      read (read_events (initial backoff store cursor) signals)

  run_at : Option ℤ → ℤ → bo.Counter → kv.Store → List Signal → RunResult
  unfolding start_reading
  run_at none max_age backoff store signals = time_failed
  run_at (some vc_time) max_age backoff store signals =
      let begin = get_begin vc_time (checkpoint_time (kv.get store)) max_age in
      start_reading (hist.create begin) backoff store signals

  -- `run`, with the replay window of the configuration.
  pub run : ℤ → bo.Counter → kv.Store → List Signal → RunResult
  unfolding run_at
  run max_age backoff store signals = run_at hist.current_time max_age backoff store signals
