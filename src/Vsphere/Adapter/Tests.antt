-- ===== src/Vsphere/Adapter/Tests.antt =====
-- Examples for the vSphere adapter: an event history of two events, a sink that acknowledges only
-- the first send, and a store that saves what it is given.
use sources_for_knative.Base.{
  ℕ, suc, ℤ, pos, ◌≡◌, refl, Option, none, some, List, [], ◌∷◌, ◌++◌, true, take, inr, int_eq,
  nat_beq,
}
use mathlib.Core.List.{Memᴰ}
use sources_for_knative.Vsphere.Checkpoint.{Checkpoint}
use sources_for_knative.Vsphere.Events.{BaseEvent, plain}
use sources_for_knative.Vsphere.Adapter.{
  get_begin, Config, Outside, Trace, send_loop, send_events, KvStore, IsKeyed, Collector, Backoff,
  done, checkpoint_tick, poll, Adapter, go, checkpoint_of, after_save, after_get, take_checkpoint,
  step, read_events, initial, Signal, checkpoint_time,
}
use sources_for_knative.Vsphere.Adapter.Sending.{Sent, send_events_counts}
use sources_for_knative.Vsphere.Adapter.Polling.{IsTracked}
use sources_for_knative.Vsphere.Adapter.Runs.{
  RunsWell, read_events-RunsWell, initial-IsTracked, checkpoint_tick_saves, poll_passes_batch,
}
use sources_for_knative.Vsphere.Adapter.Delivery.{Delivery, Steps}
use sources_for_knative.Vsphere.Adapter.Refining.{Represents, read_events-Refines}
use sources_for_knative.Vsphere.Adapter.Ending.{no_more, read_one, IsServing, read_events_delivers}
use sources_for_knative.Vsphere.Adapter.Restarting.{Resumes, read_events-Resumes}

abbrev powered_on : BaseEvent
powered_on = record {
  kind = plain "VmPoweredOnEvent";
  key = pos 7;
  created_time = pos 100;
  payload = "on";
}

abbrev powered_off : BaseEvent
powered_off = record {
  kind = plain "VmPoweredOffEvent";
  key = pos 8;
  created_time = pos 200;
  payload = "off";
}

abbrev two_events : List BaseEvent
two_events = powered_on ∷ (powered_off ∷ [])

abbrev first_only : Outside
first_only = record { set_data_ok = λ enc e. true; acks = λ n ce. nat_beq n 0 }

abbrev lab : Config
lab = record { source = "vcenter.lab"; api_version = "7.0"; payload_encoding = "application/json" }

-- The value of `Get` and the one made durable.
abbrev two_slots : KvStore
two_slots = record {
  Store = Option Checkpoint × Option Checkpoint;
  get = λ s. s.0;
  set = λ c s. some (some c, s.1);
  save = λ s. some (s.0, s.0);
  saved = λ s. s.1;
}

two_slots-IsKeyed : IsKeyed two_slots
two_slots-IsKeyed = record {
  get-set = λ c s t h. cc;
  saved-set = λ c s t h. cc;
  get-save = λ s t h. cc;
  saved-save = λ s t h. cc;
}

abbrev history : Collector
history = record {
  Cursor = ℕ;
  current_time = some (pos 1000);
  create = λ begin. some 0;
  read_next_events = λ batch n. (some two_events, suc n);
}

abbrev counting : Backoff
counting = record { Counter = ℕ; count = λ n. suc n; reset = λ n. 0 }

abbrev no_trace : Trace
no_trace = record { attempts = []; acked = [] }

abbrev start : Adapter first_only lab two_slots history counting
start = initial first_only lab two_slots history counting 0 (none, none) 0

-- After a poll at the instant 300, of which the first event was acknowledged.
abbrev after_poll : Adapter first_only lab two_slots history counting
after_poll = record start {
  last_event = some powered_on;
  store =
      (some (checkpoint_of first_only lab two_slots history counting powered_on (pos 300)), none);
  trace = record { attempts = []; acked = powered_on ∷ [] };
}

abbrev after_tick : Adapter first_only lab two_slots history counting
after_tick = record after_poll {
  last_checkpoint_event_key = pos 7;
  store = (
    some (checkpoint_of first_only lab two_slots history counting powered_on (pos 300)),
    some (checkpoint_of first_only lab two_slots history counting powered_on (pos 300)),
  );
}

after_poll-IsTracked : IsTracked first_only lab two_slots history counting after_poll
after_poll-IsTracked = record { tracks = inr (powered_on, pos 300, refl, Memᴰ.head refl, refl) }

send_events_counts_example :
    Sent first_only lab two_events 0 no_trace (send_events first_only lab two_events no_trace)
send_events_counts_example = send_events_counts first_only lab two_events no_trace

read_events-RunsWell_example : RunsWell first_only lab two_slots history counting (
    read_events first_only lab two_slots history counting start
      (poll (pos 300) ∷ (checkpoint_tick ∷ (poll (pos 400) ∷ (done ∷ [])))))
read_events-RunsWell_example =
    read_events-RunsWell first_only lab two_slots history counting two_slots-IsKeyed start
      (poll (pos 300) ∷ (checkpoint_tick ∷ (poll (pos 400) ∷ (done ∷ []))))
      (initial-IsTracked first_only lab two_slots history counting 0 (none, none) 0)

checkpoint_tick_saves_example :
    (now : ℤ) × (two_slots.saved after_tick.store
      ≡ some (checkpoint_of first_only lab two_slots history counting powered_on now))
    × (after_tick.last_checkpoint_event_key ≡ powered_on.key)
unfolding step take_checkpoint after_get after_save
checkpoint_tick_saves_example =
    checkpoint_tick_saves first_only lab two_slots history counting two_slots-IsKeyed after_poll
      after_tick powered_on after_poll-IsTracked refl (λ h. absurd cc) refl

poll_passes_batch_example :
    (a' : Adapter first_only lab two_slots history counting) × (step first_only lab two_slots
        history counting start
        (poll (pos 300))
      ≡ go a')
    × (a'.last_event ≡ some powered_on)
    × (a'.cursor ≡ 1)
    × (a'.trace.acked ≡ [] ++ take 1 two_events)
    × (two_slots.get a'.store
        ≡ some (checkpoint_of first_only lab two_slots history counting powered_on (pos 300)))
unfolding send_events send_loop
poll_passes_batch_example =
    poll_passes_batch first_only lab two_slots history counting two_slots-IsKeyed start two_events 0
      powered_on (pos 300) 1
      (some (checkpoint_of first_only lab two_slots history counting powered_on (pos 300)), none)
      refl refl refl refl

abbrev some_signals : List Signal
some_signals = poll (pos 300) ∷ (checkpoint_tick ∷ (poll (pos 400) ∷ (done ∷ [])))

some_signals_done : Memᴰ done some_signals
some_signals_done = Memᴰ.tail (Memᴰ.tail (Memᴰ.tail (Memᴰ.head refl)))

abbrev nothing_yet : Delivery
nothing_yet = record { acked = []; saved = none }

read_events-Refines_example :
    (d : Delivery) × Steps nothing_yet d
    × Represents first_only lab two_slots history counting none
        (read_events first_only lab two_slots history counting start some_signals).1
        d
read_events-Refines_example =
    read_events-Refines first_only lab two_slots history counting two_slots-IsKeyed none start
      some_signals nothing_yet
      (initial-IsTracked first_only lab two_slots history counting 0 (none, none) 0)
      (record { acked = refl; saved = refl })

abbrev all_acked : Outside
all_acked = record { set_data_ok = λ enc e. true; acks = λ n ce. true }

abbrev lab_start : Adapter all_acked lab two_slots history counting
lab_start = initial all_acked lab two_slots history counting 0 (none, none) 0

all_acked-IsServing : IsServing all_acked lab two_slots history counting
all_acked-IsServing = record {
  encodes = λ e. refl;
  acks = λ n c. refl;
  sets = λ c s. ((some c, s.1), refl);
}

read_events_delivers_example :
    (a' : Adapter all_acked lab two_slots history counting) × (read_events all_acked lab two_slots
        history counting lab_start
        (poll (pos 300) ∷ (poll (pos 400) ∷ []))
      ≡ (none, a'))
    × (a'.cursor ≡ 2)
    × (a'.trace.acked ≡ powered_on ∷ (powered_off ∷ (powered_on ∷ (powered_off ∷ []))))
read_events_delivers_example =
    read_events_delivers all_acked lab two_slots history counting all_acked-IsServing
      two_slots-IsKeyed lab_start (pos 300 ∷ (pos 400 ∷ [])) 0 (two_events ++ (two_events ++ [])) 2
      (read_one (pos 300) (pos 400 ∷ []) 0 1 2 two_events (two_events ++ []) refl
        (read_one (pos 400) [] 1 2 2 two_events [] refl (no_more 2)))
      refl

abbrev first_run : Adapter first_only lab two_slots history counting
first_run = (read_events first_only lab two_slots history counting start some_signals).1

read_events-Resumes_example :
    Resumes first_only lab two_slots history counting first_run.trace.acked
      (two_slots.saved first_run.store)
      (pos 1000)
      (pos 400)
      (get_begin
        (pos 1000)
        (checkpoint_time first_only lab two_slots history counting
          (two_slots.saved first_run.store))
        (pos 400))
read_events-Resumes_example =
    read_events-Resumes first_only lab two_slots history counting two_slots-IsKeyed 0 (none, none)
      (two_slots.saved first_run.store, two_slots.saved first_run.store) 0 some_signals (pos 1000)
      (pos 400) refl refl
