-- ===== src/Vsphere/Adapter/Refining.antt =====
-- The loop of the vSphere adapter implements its abstract deliveries.
use mathlib.Core.List.{Memᴰ}
use sources_for_knative.Base.{
  ℕ, zero, suc, ℤ, ◌≡◌, refl, sym, ap, subst, ◌∙◌, inl, inr, Option, none, some, List, [], ◌∷◌,
  ◌++◌, ◌==◌, int_eq, take, get_elem?, Bool-cases,
}
use sources_for_knative.Vsphere.Checkpoint.{Checkpoint}
use sources_for_knative.Vsphere.Events.{BaseEvent}
use sources_for_knative.Vsphere.Adapter.{
  Config, Outside, SendError, send_events, KvStore, IsKeyed, Collector, Backoff, max_events_batch,
  Signal, done, checkpoint_tick, poll, Exit, Adapter, Progress, go, stop, checkpoint_of, after_save,
  after_get, take_checkpoint, after_set, record_last, after_send, after_read, step, carry_on,
  read_events,
}
use sources_for_knative.Vsphere.Adapter.Sending.{send_events_counts}
use sources_for_knative.Vsphere.Adapter.Polling.{IsTracked, StaysTracked, step-StaysTracked}
use sources_for_knative.Vsphere.Adapter.Delivery.{
  Delivery, acknowledge, save, Steps, none_left, and_then, Steps-join,
}

module _ (out : Outside) (cfg : Config) (kv : KvStore) (hist : Collector) (bo : Backoff) where
  abbrev State : Type 0
  State = Adapter out cfg kv hist bo

  abbrev state_of : Progress out cfg kv hist bo → State
  state_of (go a) = a
  state_of (stop exit a) = a

  -- What is durable: what was so at the start, or the checkpoint of the event.
  abbrev pub IsSaved : Option Checkpoint → Option Checkpoint → Option BaseEvent → Type 0
  IsSaved start c none = c ≡ start
  IsSaved start c (some e) = (now : ℤ) × (c ≡ some (checkpoint_of out cfg kv hist bo e now))

  pub record Represents (start : Option Checkpoint) (a : State) (d : Delivery) : Type 0 where
    pub acked : a.trace.acked ≡ d.acked
    pub saved : IsSaved start (kv.saved a.store) d.saved

  module _ (keyed : IsKeyed kv) (start : Option Checkpoint) where
    -- What the loop does next is a series of abstract steps.
    abbrev pub Refines : Delivery → State → Type 0
    Refines d a = (d' : Delivery) × Steps d d' × Represents start a d'

    -- A change that acknowledges nothing and keeps what is durable.
    same-Refines :
        (a b : State) (d : Delivery)
        → b.trace.acked ≡ a.trace.acked
        → kv.saved b.store ≡ kv.saved a.store
        → Represents start a d
        → Refines d b
    same-Refines a b d p q r = (
      d,
      none_left d,
      record { acked = p ∙ r.acked; saved = subst (λ c. IsSaved start c d.saved) (sym q) r.saved },
    )

    after_save-Refines :
        (e x : BaseEvent) (now : ℤ) (o : Option kv.Store) (a : State) (d : Delivery)
        → kv.save a.store ≡ o
        → Memᴰ x a.trace.acked
        → kv.get a.store ≡ some (checkpoint_of out cfg kv hist bo x now)
        → Represents start a d
        → Refines d (state_of (after_save out cfg kv hist bo e o a))
    unfolding after_save
    after_save-Refines e x now none a d h m g r = same-Refines a a d refl refl r
    after_save-Refines e x now (some store) a d h m g r = (
      record d { saved = some x },
      and_then (save d x (subst (Memᴰ x) r.acked m)) (none_left _),
      record { acked = r.acked; saved = (now, keyed.saved-save a.store store h ∙ g) },
    )

    after_get-Refines :
        (e x : BaseEvent) (now : ℤ) (o : Option Checkpoint) (a : State) (d : Delivery)
        → Memᴰ x a.trace.acked
        → kv.get a.store ≡ some (checkpoint_of out cfg kv hist bo x now)
        → Represents start a d
        → Refines d (state_of (after_get out cfg kv hist bo e o a))
    unfolding after_get
    after_get-Refines e x now none a d m g r = same-Refines a a d refl refl r
    after_get-Refines e x now (some c) a d m g r =
        after_save-Refines e x now (kv.save a.store) a d refl m g r

    take_checkpoint-Refines :
        (last : Option BaseEvent) (a : State) (d : Delivery)
        → a.last_event ≡ last
        → IsTracked out cfg kv hist bo a
        → Represents start a d
        → Refines d (state_of (take_checkpoint out cfg kv hist bo last a))
    unfolding take_checkpoint
    take_checkpoint-Refines none a d h t r = same-Refines a a d refl refl r
    take_checkpoint-Refines (some e) a d h t r = elim t.tracks [
      | inl gone ↦ absurd cc
      | inr (x, now, q, m, g) ↦ elim (Bool-cases (a.last_checkpoint_event_key == e.key)) [
        | inl old ↦ rw old (same-Refines a a d refl refl r)
        | inr new ↦ rw new (after_get-Refines e x now (kv.get a.store) a d m g r)
      ]
    ]

    after_set-Refines :
        (c : Checkpoint) (o : Option kv.Store) (a : State) (d : Delivery)
        → kv.set c a.store ≡ o
        → Represents start a d
        → Refines d (state_of (after_set out cfg kv hist bo o a))
    unfolding after_set
    after_set-Refines c none a d h r = same-Refines a a d refl refl r
    after_set-Refines c (some store) a d h r =
        same-Refines a _ d refl (keyed.saved-set c a.store store h) r

    record_last-Refines :
        (o : Option BaseEvent) (now : ℤ) (a : State) (d : Delivery)
        → Represents start a d
        → Refines d (state_of (record_last out cfg kv hist bo o now a))
    unfolding record_last
    record_last-Refines none now a d r = same-Refines a a d refl refl r
    record_last-Refines (some e) now a d r =
        after_set-Refines (checkpoint_of out cfg kv hist bo e now) _
          (record a { last_event = some e }) d refl (record { acked = r.acked; saved = r.saved })

    after_send-Refines :
        (events : List BaseEvent) (n : ℕ) (failure : Option SendError) (now : ℤ) (a : State)
        (d : Delivery)
        → Represents start a d
        → Refines d (state_of (after_send out cfg kv hist bo events n failure now a))
    unfolding after_send
    after_send-Refines events zero none now a d r = same-Refines a a d refl refl r
    after_send-Refines events zero (some e) now a d r = same-Refines a a d refl refl r
    after_send-Refines events (suc n) failure now a d r =
        record_last-Refines (get_elem? events n) now a d r

    after_read-Refines :
        (o : Option (List BaseEvent)) (now : ℤ) (a : State) (d : Delivery)
        → Represents start a d
        → Refines d (state_of (after_read out cfg kv hist bo o now a))
    unfolding after_read
    after_read-Refines none now a d r = same-Refines a a d refl refl r
    after_read-Refines (some []) now a d r = same-Refines a _ d refl refl r
    after_read-Refines (some (e ∷ es)) now a d r =
        let s = send_events_counts out cfg (e ∷ es) a.trace in
        let sent : Delivery = record d { acked = d.acked ++ take s.count (e ∷ es) } in
        let w = (send_events out cfg (e ∷ es) a.trace).2 in
        let (last, steps, reached) =
          after_send-Refines (e ∷ es) _ _ now (record a { trace = w }) sent
            (record {
              acked = s.acked ∙ ap (λ x. x ++ take s.count (e ∷ es)) r.acked;
              saved = r.saved;
            }) in
        (last, and_then (acknowledge d (take s.count (e ∷ es))) steps, reached)

    step-Refines :
        (a : State) (signal : Signal) (d : Delivery)
        → IsTracked out cfg kv hist bo a
        → Represents start a d
        → Refines d (state_of (step out cfg kv hist bo a signal))
    unfolding step
    step-Refines a done d t r = same-Refines a a d refl refl r
    step-Refines a checkpoint_tick d t r = take_checkpoint-Refines a.last_event a d refl t r
    step-Refines a (poll now) d t r =
        let (answer, cursor) = hist.read_next_events max_events_batch a.cursor in
        after_read-Refines answer now (record a { cursor = cursor }) d
          (record { acked = r.acked; saved = r.saved })

    carry_on-Refines :
        (p : Progress out cfg kv hist bo) (rest : State → Option Exit × State) (d : Delivery)
        → StaysTracked out cfg kv hist bo p
        → Refines d (state_of p)
        → ((a : State) (d' : Delivery)
            → IsTracked out cfg kv hist bo a
            → Represents start a d'
            → Refines d' (rest a).1)
        → Refines d (carry_on out cfg kv hist bo p rest).1
    unfolding carry_on
    carry_on-Refines (go a) rest d t (d', steps, r) k =
        let (last, more, reached) = k a d' t r in (last, Steps-join steps more, reached)
    carry_on-Refines (stop exit a) rest d t h k = h

    -- From a tracked state and with a key-value store that keeps what it is given, whatever signals
    -- arrive, what `readEvents` has acknowledged and made durable is what abstract deliveries come to,
    -- which only ever make an acknowledged event durable.
    pub read_events-Refines :
        (a : State) (signals : List Signal) (d : Delivery)
        → IsTracked out cfg kv hist bo a
        → Represents start a d
        → Refines d (read_events out cfg kv hist bo a signals).1
    unfolding read_events
    read_events-Refines a [] d t r = (d, none_left d, r)
    read_events-Refines a (signal ∷ signals) d t r =
        carry_on-Refines (step out cfg kv hist bo a signal) _ d
          (step-StaysTracked out cfg kv hist bo keyed a signal t) (step-Refines a signal d t r)
          (λ a' d' t' r'. read_events-Refines a' signals d' t' r')
