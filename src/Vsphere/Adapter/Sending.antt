-- ===== src/Vsphere/Adapter/Sending.antt =====
-- What `sendEvents` of the vSphere adapter sends, and the number that it returns.
use mathlib.Core.List.{append-nil, append_assoc}
use sources_for_knative.Base.{
  ℕ, suc, ◌+◌, ◌≤◌, ◌≡◌, refl, sym, ap, ◌∙◌, none, List, [], ◌∷◌, ◌++◌, map, take, length,
  Bool-cases, inl, inr, arith,
}
use sources_for_knative.Vsphere.Events.{BaseEvent}
use sources_for_knative.Vsphere.Adapter.{
  Config, Outside, Trace, envelope, SendResult, send_loop, send_events,
}

module _ (out : Outside) (cfg : Config) where
  -- Of the events exactly the first `count` were acknowledged, at most one more was tried, and there
  -- is an error exactly if not all were acknowledged.
  pub record Sent (events : List BaseEvent) (before : ℕ) (w : Trace) (r : SendResult out cfg)
      : Type 0 where
    pub count : ℕ
    pub tried : ℕ
    pub total : r.0 ≡ before + count
    pub fits : count ≤ length events
    pub acked : r.2.acked ≡ w.acked ++ take count events
    pub attempts : r.2.attempts ≡ w.attempts ++ map (envelope out cfg) (take tried events)
    pub one_more : tried ≤ suc count
    pub all_tried : count ≤ tried
    pub complete : r.1 ≡ none → count ≡ length events
    pub partial : count ≡ length events → r.1 ≡ none

  send_loop-Sent :
      (events : List BaseEvent) (before : ℕ) (w : Trace)
      → Sent events before w (send_loop out cfg events before w)
  unfolding send_loop
  send_loop-Sent [] before w = record {
    count = 0;
    tried = 0;
    total = omega arith;
    fits = omega arith;
    acked = sym (append-nil _);
    attempts = sym (append-nil _);
    one_more = omega arith;
    all_tried = omega arith;
    complete = λ e. refl;
    partial = λ e. refl;
  }
  send_loop-Sent (be ∷ events) before w =
      elim (Bool-cases (out.set_data_ok cfg.payload_encoding be)) [
        | inr bad ↦ rw bad (record {
          count = 0;
          tried = 0;
          total = omega arith;
          fits = omega arith;
          acked = sym (append-nil _);
          attempts = sym (append-nil _);
          one_more = omega arith;
          all_tried = omega arith;
          complete = λ e. cc;
          partial = λ e. absurd (omega arith);
        })
        | inl good ↦ elim (Bool-cases (out.acks (length w.attempts) (envelope out cfg be))) [
          | inr nack ↦
              rw (good, nack)
                (record {
                  count = 0;
                  tried = 1;
                  total = omega arith;
                  fits = omega arith;
                  acked = sym (append-nil _);
                  attempts = refl;
                  one_more = omega arith;
                  all_tried = omega arith;
                  complete = λ e. cc;
                  partial = λ e. absurd (omega arith);
                })
          | inl ack ↦
              let w' : Trace = record {
                attempts = w.attempts ++ envelope out cfg be ∷ [];
                acked = w.acked ++ be ∷ [];
              } in
              let s = send_loop-Sent events (suc before) w' in
              rw (good, ack)
                (record {
                  count = suc s.count;
                  tried = suc s.tried;
                  total = omega (arith, s.total);
                  fits = omega (arith, s.fits);
                  acked = s.acked ∙ append_assoc w.acked (be ∷ []) (take s.count events);
                  attempts = s.attempts ∙ append_assoc w.attempts (envelope out cfg be ∷ []) _;
                  one_more = omega (arith, s.one_more);
                  all_tried = omega (arith, s.all_tried);
                  complete = λ e. ap suc (s.complete e);
                  partial = λ e. s.partial (omega arith);
                })
        ]
      ]

  -- `sendEvents` returns the number of events that were acknowledged; these are the first ones of
  -- the batch, in order, at most one event after them was tried, and an error is returned exactly
  -- if not all events were acknowledged.
  pub send_events_counts :
      (events : List BaseEvent) (w : Trace) → Sent events 0 w (send_events out cfg events w)
  unfolding send_events
  send_events_counts events w = send_loop-Sent events 0 w
