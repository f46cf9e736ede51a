-- ===== src/Vsphere/Adapter/Ending.antt =====
-- When `readEvents` of the vSphere adapter ends, and what it delivers while it does not.
use mathlib.Core.List.{Memᴰ, append-nil, append_assoc}
use sources_for_knative.Base.{
  ℕ, suc, ℤ, ◌≡◌, refl, sym, ap, subst, ◌∙◌, Option, none, some, List, [], ◌∷◌, ◌++◌, map, true,
  length, arith, take-length,
}
use sources_for_knative.Vsphere.Checkpoint.{Checkpoint}
use sources_for_knative.Vsphere.Events.{BaseEvent}
use sources_for_knative.Vsphere.Adapter.{
  Config, Outside, CloudEvent, Trace, send_loop, send_events, KvStore, IsKeyed, Collector, Backoff,
  max_events_batch, Signal, done, poll, Exit, cancelled, Adapter, Progress, go, stop, checkpoint_of,
  after_read, step, carry_on, read_events,
}
use sources_for_knative.Vsphere.Adapter.Sending.{send_events_counts}
use sources_for_knative.Vsphere.Adapter.Polling.{element_at}
use sources_for_knative.Vsphere.Adapter.Runs.{poll_passes_batch}

module _ (out : Outside) (cfg : Config) (kv : KvStore) (hist : Collector) (bo : Backoff) where
  abbrev State : Type 0
  State = Adapter out cfg kv hist bo

  -- The loop has ended.
  abbrev pub Ends : Option Exit × State → Type 0
  Ends r = (exit : Exit) × (a : State) × (r ≡ (some exit, a))

  carry_on-Ends :
      (p : Progress out cfg kv hist bo) (rest : State → Option Exit × State)
      → ((a : State) → Ends (rest a))
      → Ends (carry_on out cfg kv hist bo p rest)
  unfolding carry_on
  carry_on-Ends (go a) rest h = h a
  carry_on-Ends (stop exit a) rest h = (exit, a, refl)

  -- Among whatever other signals, `readEvents` ends if the context is done.
  read_events-Ends :
      (a : State) (signals : List Signal)
      → Memᴰ done signals
      → Ends (read_events out cfg kv hist bo a signals)
  unfolding read_events step
  read_events-Ends a [] m = elim m [ ]
  read_events-Ends a (signal ∷ signals) (Memᴰ.head e) =
      subst (λ x. Ends (read_events out cfg kv hist bo a (x ∷ signals))) e (cancelled, a, refl)
  read_events-Ends a (signal ∷ signals) (Memᴰ.tail m) =
      carry_on-Ends (step out cfg kv hist bo a signal) _ (λ a'. read_events-Ends a' signals m)

  -- The events that polls at these instants read, from one place in the history to another.
  pub data Reads : List ℤ → hist.Cursor → List BaseEvent → hist.Cursor → Type 0 where
    no_more : (c : hist.Cursor) → Reads [] c [] c
    read_one :
        (now : ℤ) (nows : List ℤ) (c c' c'' : hist.Cursor) (events rest : List BaseEvent)
        → hist.read_next_events max_events_batch c ≡ (some events, c')
        → Reads nows c' rest c''
        → Reads (now ∷ nows) c (events ++ rest) c''

  -- Every event is encoded, every send is acknowledged and every `Set` of a checkpoint succeeds.
  pub record IsServing : Type 0 where
    pub encodes : (e : BaseEvent) → out.set_data_ok cfg.payload_encoding e ≡ true
    pub acks : (n : ℕ) (c : CloudEvent) → out.acks n c ≡ true
    pub sets : (c : Checkpoint) (s : kv.Store) → (t : kv.Store) × (kv.set c s ≡ some t)

  module _ (serving : IsServing) where
    send_loop-none :
        (events : List BaseEvent) (n : ℕ) (w : Trace) → (send_loop out cfg events n w).1 ≡ none
    unfolding send_loop
    send_loop-none [] n w = refl
    send_loop-none (e ∷ es) n w = rw (serving.encodes e, serving.acks) (send_loop-none es (suc n) _)

    -- One poll that reads a batch delivers it.
    step_delivers :
        (keyed : IsKeyed kv) (a : State) (now : ℤ) (events : List BaseEvent) (cursor : hist.Cursor)
        → hist.read_next_events max_events_batch a.cursor ≡ (some events, cursor)
        → (a' : State) × (step out cfg kv hist bo a (poll now) ≡ go a')
          × (a'.cursor ≡ cursor)
          × (a'.trace.acked ≡ a.trace.acked ++ events)
    unfolding step after_read send_events
    step_delivers keyed a now [] cursor h = (
      record a { cursor = cursor; backoff = bo.count a.backoff },
      rw h,
      refl,
      sym (append-nil a.trace.acked),
    )
    step_delivers keyed a now (e ∷ es) cursor h =
        let s = send_events_counts out cfg (e ∷ es) a.trace in
        let all : s.count ≡ length (e ∷ es) = s.complete (send_loop-none (e ∷ es) 0 a.trace) in
        let (x, at, m) = element_at (e ∷ es) (length es) (omega arith) in
        let (store, set) = serving.sets (checkpoint_of out cfg kv hist bo x now) a.store in
        let (a', go_on, last, moved, acked, kept) =
          poll_passes_batch out cfg kv hist bo keyed a (e ∷ es) (length es) x now cursor store h
            (omega (arith, s.total, all)) at set in
        (a', go_on, moved, acked ∙ ap (λ l. a.trace.acked ++ l) (take-length (e ∷ es)))

    -- With a sink that acknowledges every send, a store that takes every checkpoint and a history that
    -- can be read, polls at any instants keep the loop running and have exactly the events that they
    -- read acknowledged, all of them and in their order.
    pub read_events_delivers :
        (keyed : IsKeyed kv) (a : State) (nows : List ℤ) (before : hist.Cursor)
        (events : List BaseEvent) (cursor : hist.Cursor)
        → Reads nows before events cursor
        → a.cursor ≡ before
        → (a' : State) × (read_events out cfg kv hist bo a (map poll nows) ≡ (none, a'))
          × (a'.cursor ≡ cursor)
          × (a'.trace.acked ≡ a.trace.acked ++ events)
    unfolding read_events carry_on
    read_events_delivers keyed a nows before events cursor (no_more c) at =
        (a, refl, at, sym (append-nil a.trace.acked))
    read_events_delivers keyed a nows before events cursor
          (read_one now later c c' c'' es rest h more) at =
        let (b, go_on, moved, acked) =
          step_delivers keyed a now es c' (ap (hist.read_next_events max_events_batch) at ∙ h) in
        let (a', ran, ended, delivered) =
          read_events_delivers keyed b later c' rest c'' more moved in
        (
          a',
          rw go_on ran,
          ended,
          delivered ∙ ap (λ l. l ++ rest) acked ∙ append_assoc a.trace.acked es rest,
        )
