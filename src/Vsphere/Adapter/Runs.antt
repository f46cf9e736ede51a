-- ===== src/Vsphere/Adapter/Runs.antt =====
-- Whole runs of the vSphere adapter, what a checkpoint makes durable, and what a failed batch skips.
use sources_for_knative.Base.{
  ℕ, suc, ℤ, ◌≡◌, ◌≢◌, refl, sym, ap, subst, ◌∙◌, inl, inr, Option, none, some, List, [], ◌∷◌, ◌++◌,
  int_eq, take, get_elem?, test_ne, arith,
}
use sources_for_knative.Vsphere.Checkpoint.{Checkpoint}
use sources_for_knative.Vsphere.Events.{BaseEvent}
use sources_for_knative.Vsphere.Adapter.{
  Config, Outside, send_events, KvStore, IsKeyed, Collector, Backoff, max_events_batch, Signal,
  checkpoint_tick, poll, Exit, panic, Adapter, Progress, go, stop, checkpoint_of, after_save,
  after_get, take_checkpoint, after_read, step, carry_on, read_events, initial,
}
use sources_for_knative.Vsphere.Adapter.Sending.{send_events_counts}
use sources_for_knative.Vsphere.Adapter.Polling.{IsTracked, StaysTracked, step-StaysTracked}

module _ (out : Outside) (cfg : Config) (kv : KvStore) (hist : Collector) (bo : Backoff) where
  -- A run that still goes on is tracked, and one that ended did not panic.
  abbrev pub RunsWell : Option Exit × Adapter out cfg kv hist bo → Type 0
  RunsWell (none, a) = IsTracked out cfg kv hist bo a
  RunsWell (some exit, a) = exit ≢ panic

  carry_on-RunsWell :
      (p : Progress out cfg kv hist bo)
      (rest : Adapter out cfg kv hist bo → Option Exit × Adapter out cfg kv hist bo)
      → StaysTracked out cfg kv hist bo p
      → ((a : Adapter out cfg kv hist bo) → IsTracked out cfg kv hist bo a → RunsWell (rest a))
      → RunsWell (carry_on out cfg kv hist bo p rest)
  unfolding carry_on
  carry_on-RunsWell (go a) rest h k = k a h
  carry_on-RunsWell (stop exit a) rest h k = h

  -- Over every sequence of signals, from a tracked state and with a key-value store that keeps what
  -- it is given: while the loop runs, its last event was acknowledged by the sink and the store
  -- holds the checkpoint of it; and it never ends by the panic "we should never get here".
  pub read_events-RunsWell :
      (keyed : IsKeyed kv) (a : Adapter out cfg kv hist bo) (signals : List Signal)
      → IsTracked out cfg kv hist bo a
      → RunsWell (read_events out cfg kv hist bo a signals)
  unfolding read_events
  read_events-RunsWell keyed a [] t = t
  read_events-RunsWell keyed a (signal ∷ signals) t =
      carry_on-RunsWell (step out cfg kv hist bo a signal) _
        (step-StaysTracked out cfg kv hist bo keyed a signal t)
        (λ a' t'. read_events-RunsWell keyed a' signals t')

  -- The loop starts in a tracked state.
  pub initial-IsTracked :
      (backoff : bo.Counter) (store : kv.Store) (cursor : hist.Cursor)
      → IsTracked out cfg kv hist bo (initial out cfg kv hist bo backoff store cursor)
  initial-IsTracked backoff store cursor = record { tracks = inl refl }

  module _ (keyed : IsKeyed kv) (a a' : Adapter out cfg kv hist bo) (e : BaseEvent) where
    after_save_go :
        (o : Option kv.Store)
        → kv.save a.store ≡ o
        → after_save out cfg kv hist bo e o a ≡ go a'
        → (kv.saved a'.store ≡ kv.get a.store) × (a'.last_checkpoint_event_key ≡ e.key)
    unfolding after_save
    after_save_go none h p = absurd cc
    after_save_go (some store) h p =
        let q : record a { store = store; last_checkpoint_event_key = e.key } ≡ a' = cc in
        (
          subst (λ (x : Adapter out cfg kv hist bo). kv.saved x.store ≡ kv.get a.store) q
              (keyed.saved-save a.store store h),
          sym (ap (λ x. x.last_checkpoint_event_key) q),
        )

    after_get_go :
        (o : Option Checkpoint)
        → after_get out cfg kv hist bo e o a ≡ go a'
        → (kv.saved a'.store ≡ kv.get a.store) × (a'.last_checkpoint_event_key ≡ e.key)
    unfolding after_get
    after_get_go none p = absurd cc
    after_get_go (some c) p = after_save_go (kv.save a.store) refl p

    -- In a tracked state whose last event is newer than the last checkpoint, a tick of the
    -- checkpoint ticker that does not end the loop makes the checkpoint of the last event durable
    -- and notes its key.
    pub checkpoint_tick_saves :
        IsTracked out cfg kv hist bo a
        → a.last_event ≡ some e
        → a.last_checkpoint_event_key ≢ e.key
        → step out cfg kv hist bo a checkpoint_tick ≡ go a'
        → (now : ℤ) × (kv.saved a'.store ≡ some (checkpoint_of out cfg kv hist bo e now))
          × (a'.last_checkpoint_event_key ≡ e.key)
    unfolding step take_checkpoint
    checkpoint_tick_saves t h k p = elim t.tracks [
      | inl gone ↦ absurd cc
      | inr (x, now, q, m, g) ↦
          let same : x ≡ e = cc in
          let p' : take_checkpoint out cfg kv hist bo (some e) a ≡ go a' =
            subst (λ y. take_checkpoint out cfg kv hist bo y a ≡ go a') h p in
          let r =
            after_get_go (kv.get a.store)
              (rw (test_ne a.last_checkpoint_event_key e.key k) at p') in
          (now, r.0 ∙ g ∙ ap (λ y. some (checkpoint_of out cfg kv hist bo y now)) same, r.1)
    ]

  -- A poll that brings events of which some are acknowledged, the last of these being x, goes on
  -- with x as the last event and its checkpoint in the store, behind the whole batch in the event
  -- history, whether or not the events of the batch after x were acknowledged.
  pub poll_passes_batch :
      (keyed : IsKeyed kv) (a : Adapter out cfg kv hist bo) (events : List BaseEvent) (n : ℕ)
      (x : BaseEvent) (now : ℤ) (cursor : hist.Cursor) (store : kv.Store)
      → hist.read_next_events max_events_batch a.cursor ≡ (some events, cursor)
      → (send_events out cfg events a.trace).0 ≡ suc n
      → get_elem? events n ≡ some x
      → kv.set (checkpoint_of out cfg kv hist bo x now) a.store ≡ some store
      → (a' : Adapter out cfg kv hist bo) × (step out cfg kv hist bo a (poll now) ≡ go a')
        × (a'.last_event ≡ some x)
        × (a'.cursor ≡ cursor)
        × (a'.trace.acked ≡ a.trace.acked ++ take (suc n) events)
        × (kv.get a'.store ≡ some (checkpoint_of out cfg kv hist bo x now))
  unfolding step after_read
  poll_passes_batch keyed a [] n x now cursor store h p q r = absurd cc
  poll_passes_batch keyed a (e ∷ es) n x now cursor store h p q r =
      let s = send_events_counts out cfg (e ∷ es) a.trace in
      let count : s.count ≡ suc n = omega (arith, s.total) in
      (
        record a {
          last_event = some x;
          cursor = cursor;
          store = store;
          trace = (send_events out cfg (e ∷ es) a.trace).2;
          backoff = bo.reset a.backoff;
        },
        rw (h, p, q, r),
        refl,
        refl,
        s.acked ∙ ap (λ k. a.trace.acked ++ take k (e ∷ es)) count,
        keyed.get-set _ a.store store r,
      )
