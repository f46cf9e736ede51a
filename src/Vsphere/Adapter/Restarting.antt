-- ===== src/Vsphere/Adapter/Restarting.antt =====
-- Where the vSphere adapter begins after a restart, with the store that the last run made durable.
use mathlib.Core.List.{Memᴰ}
use sources_for_knative.Base.{
  ℤ, pos, ◌-ℤ◌, ltb_ℤ, ◌<ℤ◌, ◌≡◌, refl, sym, ap, subst, ◌∙◌, ◌⊎◌, inl, inr, Option, none, List, [],
  ◌==◌, int_eq, test_eq, Bool-cases, arith,
}
use sources_for_knative.Vsphere.Checkpoint.{Checkpoint}
use sources_for_knative.Vsphere.Events.{BaseEvent}
use sources_for_knative.Vsphere.Adapter.{
  unix, get_begin, Config, Outside, KvStore, IsKeyed, Collector, Backoff, Signal, read_events,
  initial, checkpoint_time,
}
use sources_for_knative.Vsphere.Adapter.Runs.{initial-IsTracked}
use sources_for_knative.Vsphere.Adapter.Delivery.{Delivery, IsDelivered, Steps-IsDelivered}
use sources_for_knative.Vsphere.Adapter.Refining.{IsSaved, read_events-Refines}

-- The three ways to begin: at the checkpoint, at the start of the window, or now.
get_begin_cases :
    (vc_time cp_time max_age : ℤ)
    → (get_begin vc_time cp_time max_age ≡ cp_time)
      ⊎ (((get_begin vc_time cp_time max_age ≡ vc_time -ℤ max_age)
            × (unix cp_time <ℤ unix (vc_time -ℤ max_age)))
          ⊎ ((get_begin vc_time cp_time max_age ≡ vc_time) × (cp_time ≡ pos 0)))
unfolding get_begin
get_begin_cases vc_time cp_time max_age = elim (Bool-cases (cp_time == pos 0)) [
  | inl none_yet ↦ rw none_yet (inr (inr (refl, test_eq cp_time (pos 0) none_yet)))
  | inr valid ↦ elim (Bool-cases (ltb_ℤ (unix cp_time) (unix (vc_time -ℤ max_age)))) [
    | inl old ↦ rw (valid, old) (inr (inl (refl, ground arith)))
    | inr recent ↦ rw (valid, recent) (inl refl)
  ]
]

get_begin_now : (vc_time max_age : ℤ) → get_begin vc_time (pos 0) max_age ≡ vc_time
unfolding get_begin
get_begin_now vc_time max_age = refl

module _ (out : Outside) (cfg : Config) (kv : KvStore) (hist : Collector) (bo : Backoff) where
  -- Nothing was saved and the stream begins now; or it begins at an event that was acknowledged, at
  -- the start of the window, which is later, or now, where that event has no time.
  abbrev pub Resumes : List BaseEvent → Option Checkpoint → ℤ → ℤ → ℤ → Type 0
  Resumes acked saved vc_time max_age begin =
      ((saved ≡ none) × (begin ≡ vc_time))
      ⊎ ((e : BaseEvent) × Memᴰ e acked
          × ((begin ≡ e.created_time)
              ⊎ (((begin ≡ vc_time -ℤ max_age) × (unix e.created_time <ℤ unix (vc_time -ℤ max_age)))
                  ⊎ ((begin ≡ vc_time) × (e.created_time ≡ pos 0)))))

  Resumes-at_checkpoint :
      (acked : List BaseEvent) (saved : Option Checkpoint) (d : Delivery) (vc_time max_age : ℤ)
      → acked ≡ d.acked
      → IsSaved out cfg kv hist bo none saved d.saved
      → IsDelivered d
      → Resumes acked saved vc_time max_age
          (get_begin vc_time (checkpoint_time out cfg kv hist bo saved) max_age)
  unfolding checkpoint_time
  Resumes-at_checkpoint acked saved d vc_time max_age p s (inl gone) =
      let nothing : saved ≡ none = subst (λ o. IsSaved out cfg kv hist bo none saved o) gone s in
      inl (
        nothing,
        ap (λ o. get_begin vc_time (checkpoint_time out cfg kv hist bo o) max_age) nothing
            ∙ get_begin_now vc_time max_age,
      )
  Resumes-at_checkpoint acked saved d vc_time max_age p s (inr (e, q, m)) =
      let (now, at) = subst (λ o. IsSaved out cfg kv hist bo none saved o) q s in
      inr (e, subst (Memᴰ e) (sym p) m, rw at (get_begin_cases vc_time e.created_time max_age))

  -- After a run from a store with nothing durable, over whatever signals, a process that is started
  -- again with what that run made durable begins at an event that the sink acknowledged, or at the
  -- start of the replay window, if that is later; it begins now only where nothing was made durable or
  -- the event has no time.
  pub read_events-Resumes :
      IsKeyed kv
      → (counter : bo.Counter) (store next : kv.Store) (cursor : hist.Cursor)
        (signals : List Signal) (vc_time max_age : ℤ)
      → kv.saved store ≡ none
      → kv.get next
        ≡ kv.saved
            (read_events out cfg kv hist bo
              (initial out cfg kv hist bo counter store cursor)
              signals).1.store
      → Resumes
          (read_events out cfg kv hist bo
            (initial out cfg kv hist bo counter store cursor)
            signals).1.trace.acked
          (kv.get next)
          vc_time
          max_age
          (get_begin vc_time (checkpoint_time out cfg kv hist bo (kv.get next)) max_age)
  read_events-Resumes keyed counter store next cursor signals vc_time max_age fresh loaded =
      let start = initial out cfg kv hist bo counter store cursor in
      let empty : Delivery = record { acked = []; saved = none } in
      let (d, steps, r) =
        read_events-Refines out cfg kv hist bo keyed none start signals empty
          (initial-IsTracked out cfg kv hist bo counter store cursor)
          (record { acked = refl; saved = fresh }) in
      Resumes-at_checkpoint _ (kv.get next) d vc_time max_age r.acked
        (subst (λ c. IsSaved out cfg kv hist bo none c d.saved) (sym loaded) r.saved)
        (Steps-IsDelivered steps (inl refl))
