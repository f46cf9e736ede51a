-- ===== src/Vsphere/Adapter/Polling.antt =====
-- One pass of `readEvents`: it does not panic, and the checkpoint in the store is that of the last
-- acknowledged event.
use mathlib.Core.List.{Memᴰ}
use sources_for_knative.Base.{
  ℕ, zero, suc, ◌≤◌, ◌<◌, ℤ, ◌≡◌, ◌≢◌, refl, sym, ap, subst, ◌∙◌, ◌⊎◌, inl, inr, Option, none, some,
  List, [], ◌∷◌, ◌++◌, ◌==◌, int_eq, take, length, get_elem?, Bool-cases, arith, Memᴰ-append_left,
  Memᴰ-append_right,
}
use sources_for_knative.Vsphere.Checkpoint.{Checkpoint}
use sources_for_knative.Vsphere.Events.{BaseEvent}
use sources_for_knative.Vsphere.Adapter.{
  Config, Outside, SendError, send_events, KvStore, IsKeyed, Collector, Backoff, max_events_batch,
  Signal, done, checkpoint_tick, poll, panic, Adapter, Progress, go, stop, checkpoint_of,
  after_save, after_get, take_checkpoint, after_set, record_last, after_send, after_read, step,
}
use sources_for_knative.Vsphere.Adapter.Sending.{send_events_counts}

-- The element at an index within a list, which is among the first ones.
pub element_at :
    (xs : List BaseEvent) (i : ℕ)
    → i < length xs
    → (x : BaseEvent) × (get_elem? xs i ≡ some x) × Memᴰ x (take (suc i) xs)
element_at [] i h = elim h [ ]
element_at (x ∷ xs) zero h = (x, refl, Memᴰ.head refl)
element_at (x ∷ xs) (suc i) h = let (y, p, m) = element_at xs i (omega arith) in (y, p, Memᴰ.tail m)

module _ (out : Outside) (cfg : Config) (kv : KvStore) (hist : Collector) (bo : Backoff) where
  abbrev pub State : Type 0
  State = Adapter out cfg kv hist bo

  -- The last event, if there is one, was acknowledged, and the store holds its checkpoint.
  abbrev pub Tracks : Option BaseEvent → List BaseEvent → kv.Store → Type 0
  Tracks last acked store =
      (last ≡ none)
      ⊎ ((e : BaseEvent) × (now : ℤ) × (last ≡ some e)
          × Memᴰ e acked
          × (kv.get store ≡ some (checkpoint_of out cfg kv hist bo e now)))

  pub record IsTracked (a : State) : Type 0 where
    pub tracks : Tracks a.last_event a.trace.acked a.store

  -- The loop goes on in a tracked state, or it ends, and not by a panic.
  abbrev pub StaysTracked : Progress out cfg kv hist bo → Type 0
  StaysTracked (go a) = IsTracked a
  StaysTracked (stop exit a) = exit ≢ panic

  Tracks-append :
      (last : Option BaseEvent) (acked more : List BaseEvent) (store : kv.Store)
      → Tracks last acked store
      → Tracks last (acked ++ more) store
  Tracks-append last acked more store (inl p) = inl p
  Tracks-append last acked more store (inr (e, now, p, m, q)) =
      inr (e, now, p, Memᴰ-append_left acked more m, q)

  module _ (keyed : IsKeyed kv) where
    after_save-StaysTracked :
        (e : BaseEvent) (o : Option kv.Store) (a : State)
        → kv.save a.store ≡ o
        → IsTracked a
        → StaysTracked (after_save out cfg kv hist bo e o a)
    unfolding after_save
    after_save-StaysTracked e none a h t = λ p. cc
    after_save-StaysTracked e (some store) a h t = record {
      tracks = elim t.tracks [
        | inl p ↦ inl p
        | inr (x, now, p, m, q) ↦ inr (x, now, p, m, keyed.get-save a.store store h ∙ q)
      ];
    }

    after_get-StaysTracked :
        (e : BaseEvent) (o : Option Checkpoint) (a : State)
        → IsTracked a
        → StaysTracked (after_get out cfg kv hist bo e o a)
    unfolding after_get
    after_get-StaysTracked e none a t = λ p. cc
    after_get-StaysTracked e (some c) a t = after_save-StaysTracked e (kv.save a.store) a refl t

    take_checkpoint-StaysTracked :
        (last : Option BaseEvent) (a : State)
        → IsTracked a
        → StaysTracked (take_checkpoint out cfg kv hist bo last a)
    unfolding take_checkpoint
    take_checkpoint-StaysTracked none a t = t
    take_checkpoint-StaysTracked (some e) a t =
        elim (Bool-cases (a.last_checkpoint_event_key == e.key)) [
          | inl same ↦ rw same t
          | inr new ↦ rw new (after_get-StaysTracked e (kv.get a.store) a t)
        ]

    after_set-StaysTracked :
        (e : BaseEvent) (now : ℤ) (o : Option kv.Store) (a : State)
        → kv.set (checkpoint_of out cfg kv hist bo e now) a.store ≡ o
        → a.last_event ≡ some e
        → Memᴰ e a.trace.acked
        → StaysTracked (after_set out cfg kv hist bo o a)
    unfolding after_set
    after_set-StaysTracked e now none a h p m = λ q. cc
    after_set-StaysTracked e now (some store) a h p m = record {
      tracks = inr (e, now, p, m, keyed.get-set _ a.store store h);
    }

    record_last-StaysTracked :
        (e : BaseEvent) (o : Option BaseEvent) (now : ℤ) (a : State)
        → o ≡ some e
        → Memᴰ e a.trace.acked
        → StaysTracked (record_last out cfg kv hist bo o now a)
    unfolding record_last
    record_last-StaysTracked e none now a h m = λ p. cc
    record_last-StaysTracked e (some x) now a h m =
        let q : e ≡ x = cc in
        after_set-StaysTracked x now _ (record a { last_event = some x }) refl refl
          (subst (λ t. Memᴰ t a.trace.acked) q m)

    after_send-StaysTracked :
        (events : List BaseEvent) (n : ℕ) (failure : Option SendError) (now : ℤ) (a : State)
        (before : List BaseEvent)
        → 0 < length events
        → n ≤ length events
        → (failure ≡ none → n ≡ length events)
        → a.trace.acked ≡ before ++ take n events
        → Tracks a.last_event before a.store
        → StaysTracked (after_send out cfg kv hist bo events n failure now a)
    unfolding after_send
    after_send-StaysTracked events zero (some e) now a before long fits full acked t = record {
      tracks = rw acked (Tracks-append a.last_event before (take 0 events) a.store t);
    }
    after_send-StaysTracked events zero none now a before long fits full acked t =
        absurd (omega (arith, full refl))
    after_send-StaysTracked events (suc n) failure now a before long fits full acked t =
        let (x, p, m) = element_at events n (omega arith) in
        record_last-StaysTracked x (get_elem? events n) now a p
          (rw acked (Memᴰ-append_right before (take (suc n) events) m))

    after_read-StaysTracked :
        (answer : Option (List BaseEvent)) (now : ℤ) (a : State)
        → IsTracked a
        → StaysTracked (after_read out cfg kv hist bo answer now a)
    unfolding after_read
    after_read-StaysTracked none now a t = λ p. cc
    after_read-StaysTracked (some []) now a t = record { tracks = t.tracks }
    after_read-StaysTracked (some (e ∷ es)) now a t =
        let r = send_events out cfg (e ∷ es) a.trace in
        let s = send_events_counts out cfg (e ∷ es) a.trace in
        let total : r.0 ≡ s.count = omega (arith, s.total) in
        after_send-StaysTracked (e ∷ es) r.0 r.1 now (record a { trace = r.2 }) a.trace.acked
          (omega arith) (omega (arith, s.fits)) (λ p. total ∙ s.complete p)
          (s.acked ∙ ap (λ k. a.trace.acked ++ take k (e ∷ es)) (sym total)) t.tracks

    -- From a tracked state every signal leads on to a tracked state or ends the loop otherwise than
    -- by the panic of the code.
    pub step-StaysTracked :
        (a : State) (signal : Signal)
        → IsTracked a
        → StaysTracked (step out cfg kv hist bo a signal)
    unfolding step
    step-StaysTracked a done t = λ p. cc
    step-StaysTracked a checkpoint_tick t = take_checkpoint-StaysTracked a.last_event a t
    step-StaysTracked a (poll now) t =
        let r = hist.read_next_events max_events_batch a.cursor in
        after_read-StaysTracked r.0 now (record a { cursor = r.1 }) (record { tracks = t.tracks })
