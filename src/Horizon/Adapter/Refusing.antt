-- ===== src/Horizon/Adapter/Refusing.antt =====
-- `sendEvents` with a sink that acknowledges nothing.
use sources_for_knative.Base.{
  ℕ, ◌≡◌, refl, ◌∙◌, Option, none, some, List, [], ◌∷◌, false, length, Text, if_both,
}
use sources_for_knative.Horizon.Events.{AuditEventSummary, reverse}
use sources_for_knative.Horizon.Adapter.{
  CloudEvent, Outside, Trace, look, send_converted, send_one, send_loop, send_events,
}

module _ (out : Outside) (source : Text) where
  module _ (refuses : (n : ℕ) (ce : CloudEvent) → out.acks n ce ≡ false) where
    -- The last event and the acknowledged events are as they were.
    abbrev Keeps : Option AuditEventSummary → Trace → Option AuditEventSummary × Trace → Type 0
    Keeps last w r = (r.0 ≡ last) × (r.1.acked ≡ w.acked)

    send_converted_refused :
        (event : AuditEventSummary) (o : Option CloudEvent) (last : Option AuditEventSummary)
        (w : Trace)
        → Keeps last w (send_converted out source event o last w)
    unfolding send_converted
    send_converted_refused event none last w = (refl, refl)
    send_converted_refused event (some ce) last w = rw (refuses (length w.attempts) ce) (refl, refl)

    send_one_refused :
        (event : AuditEventSummary) (last : Option AuditEventSummary) (w : Trace)
        → Keeps last w (send_one out source event last w)
    unfolding send_one
    send_one_refused event last w = send_converted_refused event _ last w

    send_loop_refused :
        (events : List AuditEventSummary) (last : Option AuditEventSummary) (w : Trace)
        → Keeps last w (send_loop out source events last w)
    unfolding send_loop look
    send_loop_refused [] last w = (refl, refl)
    send_loop_refused (event ∷ events) last w =
        let one = send_one_refused event last (look out source w) in
        let rest =
          send_loop_refused events (send_one out source event last (look out source w)).0
            (send_one out source event last (look out source w)).1 in
        if_both (Keeps last w) (out.cancelled w.looks) (refl, refl) (rest.0 ∙ one.0, rest.1 ∙ one.1)

    -- If the sink acknowledges nothing, nothing is noted.
    pub send_events_refused :
        (events : List AuditEventSummary) (w : Trace)
        → Keeps none w (send_events out source events w)
    unfolding send_events
    send_events_refused events w = send_loop_refused (reverse events) none w
