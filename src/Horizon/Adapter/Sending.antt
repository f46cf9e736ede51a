-- ===== src/Horizon/Adapter/Sending.antt =====
-- What `sendEvents` sends, what the sink acknowledges of it, and which event it returns.
use mathlib.Core.List as L
use mathlib.Core.List.{Sublistᴰ, reverse-cons, append_assoc, append-nil, map-append}
use sources_for_knative.Base.{
  ℕ, suc, ◌≡◌, refl, sym, ap, ◌∙◌, inl, inr, Option, none, some, List, [], ◌∷◌, ◌++◌, map, true,
  false, ◌&&◌, length, Text, Bool-cases,
}
use sources_for_knative.Horizon.Events.{AuditEventSummary, reverse}
use sources_for_knative.Horizon.Events.Reverse.{reverse_lem}
use sources_for_knative.Horizon.Adapter.{
  CloudEvent, Outside, Trace, envelope, to_cloud_event, look, send_one, send_loop, send_events,
}

-- The last of some events, or an earlier one if there is none.
abbrev pub last_or : Option AuditEventSummary → List AuditEventSummary → Option AuditEventSummary
last_or last [] = last
last_or last (x ∷ xs) = last_or (some x) xs

module _ (out : Outside) (source : Text) where
  -- Between two states of the outside world: some of the events were tried, in their order, some of
  -- those were acknowledged, in their order, and the last of these is the one that is returned.
  pub record Sent (events : List AuditEventSummary) (last last' : Option AuditEventSummary)
      (w w' : Trace) : Type 0 where
    pub tried : List AuditEventSummary
    pub taken : List AuditEventSummary
    pub tried_of : Sublistᴰ tried events
    pub taken_of : Sublistᴰ taken tried
    pub attempts : w'.attempts ≡ w.attempts ++ map (envelope out source) tried
    pub acked : w'.acked ≡ w.acked ++ taken
    pub ends : last' ≡ last_or last taken

  nothing_of : (events : List AuditEventSummary) → Sublistᴰ [] events
  nothing_of [] = Sublistᴰ.slnil
  nothing_of (x ∷ xs) = Sublistᴰ.cons (nothing_of xs)

  Sent-none :
      (events : List AuditEventSummary) (last : Option AuditEventSummary) (w w' : Trace)
      → w'.attempts ≡ w.attempts
      → w'.acked ≡ w.acked
      → Sent events last last w w'
  Sent-none events last w w' h k = record {
    tried = [];
    taken = [];
    tried_of = nothing_of events;
    taken_of = Sublistᴰ.slnil;
    attempts = h ∙ sym (append-nil _);
    acked = k ∙ sym (append-nil _);
    ends = refl;
  }

  -- One round, on each of its branches: not converted, not acknowledged, acknowledged.
  send_one-Sent :
      (event : AuditEventSummary) (last : Option AuditEventSummary) (w : Trace)
      → Sent
          (event ∷ [])
          last
          (send_one out source event last w).0
          w
          (send_one out source event last w).1
  unfolding send_one to_cloud_event
  send_one-Sent event last w =
      elim (Bool-cases (out.set_data_ok event && out.validate_ok (envelope out source event))) [
        | inr bad ↦ rw bad (Sent-none (event ∷ []) last w w refl refl)
        | inl good ↦ elim (Bool-cases (out.acks (length w.attempts) (envelope out source event))) [
          | inl ack ↦
              rw (good, ack)
                (record {
                  tried = event ∷ [];
                  taken = event ∷ [];
                  tried_of = Sublistᴰ.cons-cons refl Sublistᴰ.slnil;
                  taken_of = Sublistᴰ.cons-cons refl Sublistᴰ.slnil;
                  attempts = refl;
                  acked = refl;
                  ends = refl;
                })
          | inr nack ↦
              rw (good, nack)
                (record {
                  tried = event ∷ [];
                  taken = [];
                  tried_of = Sublistᴰ.cons-cons refl Sublistᴰ.slnil;
                  taken_of = Sublistᴰ.cons Sublistᴰ.slnil;
                  attempts = refl;
                  acked = sym (append-nil _);
                  ends = refl;
                })
        ]
      ]

  Sublist-append :
      {xs ys zs ws : List AuditEventSummary}
      → Sublistᴰ xs ys
      → Sublistᴰ zs ws
      → Sublistᴰ (xs ++ zs) (ys ++ ws)
  Sublist-append Sublistᴰ.slnil t = t
  Sublist-append (Sublistᴰ.cons s) t = Sublistᴰ.cons (Sublist-append s t)
  Sublist-append (Sublistᴰ.cons-cons e s) t = Sublistᴰ.cons-cons e (Sublist-append s t)

  last_or-append :
      (l : Option AuditEventSummary) (xs ys : List AuditEventSummary)
      → last_or l (xs ++ ys) ≡ last_or (last_or l xs) ys
  last_or-append l [] ys = refl
  last_or-append l (x ∷ xs) ys = last_or-append (some x) xs ys

  -- Two stretches of sends, one after the other.
  Sent-append :
      (xs ys : List AuditEventSummary) (l l₁ l₂ : Option AuditEventSummary) (w w₁ w₂ : Trace)
      → Sent xs l l₁ w w₁
      → Sent ys l₁ l₂ w₁ w₂
      → Sent (xs ++ ys) l l₂ w w₂
  Sent-append xs ys l l₁ l₂ w w₁ w₂ s t = record {
    tried = s.tried ++ t.tried;
    taken = s.taken ++ t.taken;
    tried_of = Sublist-append s.tried_of t.tried_of;
    taken_of = Sublist-append s.taken_of t.taken_of;
    attempts =
        t.attempts
        ∙ rw (s.attempts, map-append (envelope out source) s.tried t.tried)
            (append_assoc w.attempts _ _);
    acked = t.acked ∙ rw (s.acked) (append_assoc w.acked s.taken t.taken);
    ends = t.ends ∙ rw (s.ends) (sym (last_or-append l s.taken t.taken));
  }

  send_loop-Sent :
      (events : List AuditEventSummary) (last : Option AuditEventSummary) (w : Trace)
      → Sent events last
          (send_loop out source events last w).0
          w
          (send_loop out source events last w).1
  unfolding send_loop look
  send_loop-Sent [] last w = Sent-none [] last w w refl refl
  send_loop-Sent (event ∷ events) last w = elim (Bool-cases (out.cancelled w.looks)) [
    | inl stopped ↦
        rw stopped (Sent-none (event ∷ events) last w (record w { looks = suc w.looks }) refl refl)
    | inr running ↦
        let seen : Trace = record w { looks = suc w.looks } in
        let (last₁, w₁) = send_one out source event last seen in
        rw running (
          Sent-append (event ∷ []) events last last₁ (send_loop out source events last₁ w₁).0 w w₁
            (send_loop out source events last₁ w₁).1
            (let s = send_one-Sent event last seen in
              record {
                tried = s.tried;
                taken = s.taken;
                tried_of = s.tried_of;
                taken_of = s.taken_of;
                attempts = s.attempts;
                acked = s.acked;
                ends = s.ends;
              })
            (send_loop-Sent events last₁ w₁))
  ]

  -- `sendEvents` goes through the events in the opposite order, which is ascending in time. Those
  -- it tries are sent as their envelopes in that order, those the sink acknowledges are some of
  -- these in the same order, and the event that it returns is the last one acknowledged, or none.
  pub send_events-Sent :
      (events : List AuditEventSummary) (w : Trace)
      → Sent
          (L.reverse events)
          none
          (send_events out source events w).0
          w
          (send_events out source events w).1
  unfolding send_events
  send_events-Sent events w = rw (← reverse_lem events) (send_loop-Sent (reverse events) none w)

  module _
      (converts : (e : AuditEventSummary)
        → to_cloud_event out source e ≡ some (envelope out source e))
      (acks : (n : ℕ) (ce : CloudEvent) → out.acks n ce ≡ true)
      (runs : (n : ℕ) → out.cancelled n ≡ false) where
    send_loop_all :
        (events : List AuditEventSummary) (last : Option AuditEventSummary) (w : Trace)
        → ((send_loop out source events last w).0 ≡ last_or last events)
          × ((send_loop out source events last w).1.acked ≡ w.acked ++ events)
    unfolding send_loop send_one look
    send_loop_all [] last w = (refl, sym (append-nil _))
    send_loop_all (event ∷ events) last w =
        let w₁ : Trace = record {
          looks = suc w.looks;
          attempts = w.attempts ++ envelope out source event ∷ [];
          acked = w.acked ++ event ∷ [];
        } in
        let (p, q) = send_loop_all events (some event) w₁ in
        rw (runs w.looks, converts event, acks (length w.attempts) (envelope out source event))
          (p, q ∙ append_assoc w.acked (event ∷ []) events)

    -- Where every event converts, every send is acknowledged and the context stays alive,
    -- `sendEvents` has all events acknowledged, in the opposite order, and returns the first event
    -- of the slice, which is the newest one.
    pub send_events_all :
        (e : AuditEventSummary) (events : List AuditEventSummary) (w : Trace)
        → ((send_events out source (e ∷ events) w).0 ≡ some e)
          × ((send_events out source (e ∷ events) w).1.acked ≡ w.acked ++ L.reverse (e ∷ events))
    unfolding send_events
    send_events_all e events w =
        let (p, q) = send_loop_all (reverse (e ∷ events)) none w in
        (
          p
              ∙ rw (reverse_lem (e ∷ events), reverse-cons e events)
                  (last_or-append none (L.reverse events) (e ∷ [])),
          q ∙ ap (λ t. w.acked ++ t) (reverse_lem (e ∷ events)),
        )
