-- ===== src/Horizon/Adapter/Polling.antt =====
-- The polling loop `run`: no event is sent twice in a row, the position follows what the sink has
-- acknowledged, and the loop does not panic on answers with distinct IDs.
use mathlib.Core.List as L
use mathlib.Core.List.{Sublistᴰ, Memᴰ, reverse-cons, append-nil, append_assoc}
use sources_for_knative.Base.{
  ℕ, ◌+◌, ◌≤◌, ℤ, ◌≡◌, refl, sym, subst, ◌∙◌, inl, inr, Option, none, some, List, [], ◌∷◌, ◌++◌,
  true, false, int_eq, Text, Bool-cases, All,
}
use sources_for_knative.Horizon.Events.{AuditEventSummary, remove_event}
use sources_for_knative.Horizon.Events.Remove.{has_id, matches, without, remove_event-eq-without}
use sources_for_knative.Horizon.Api.{Answer, Client}
use sources_for_knative.Horizon.Adapter.{
  CloudEvent, Outside, to_cloud_event, envelope, send_events, Backoff, tick, Adapter, go,
  next_since, skips, on_answer, step,
}
use sources_for_knative.Horizon.Adapter.Sending.{send_events-Sent, send_events_all}

module _ {ℓ} (P : AuditEventSummary → Type ℓ) where
  All-Sublist : {xs ys : List AuditEventSummary} → Sublistᴰ xs ys → All P ys → All P xs
  All-Sublist Sublistᴰ.slnil h = h
  All-Sublist (Sublistᴰ.cons s) h = All-Sublist s h.1
  All-Sublist (Sublistᴰ.cons-cons e s) h = (subst P (sym e) h.0, All-Sublist s h.1)

  All-append : (xs ys : List AuditEventSummary) → All P xs → All P ys → All P (xs ++ ys)
  All-append [] ys h k = k
  All-append (x ∷ xs) ys h k = (h.0, All-append xs ys h.1 k)

  All-reverse : (xs : List AuditEventSummary) → All P xs → All P (L.reverse xs)
  All-reverse [] h = h
  All-reverse (x ∷ xs) h =
      rw (reverse-cons x xs) (All-append (L.reverse xs) (x ∷ []) (All-reverse xs h.1) (h.0, tt))

abbrev pub Lacks : ℤ → List AuditEventSummary → Type 0
Lacks id = All (λ e. has_id id e ≡ false)

without-Lacks : (id : ℤ) (xs : List AuditEventSummary) → Lacks id (without id xs)
without-Lacks id [] = tt
without-Lacks id (x ∷ xs) = elim (Bool-cases (has_id id x)) [
  | inl e ↦ rw e (without-Lacks id xs)
  | inr e ↦ rw e (e, without-Lacks id xs)
]

module _ (out : Outside) (source : Text) (client : Client) (bo : Backoff) where
  -- The state when the answer arrives.
  abbrev pub asked : Adapter out source client bo → ℤ → client.Conn → Adapter out source client bo
  asked a since conn = record a { since = since; conn = conn }

  step-asked :
      (a : Adapter out source client bo) (since : ℤ) (answer : Answer) (conn : client.Conn)
      → next_since out source client bo a ≡ since
      → client.get_events since a.conn ≡ (answer, conn)
      → step out source client bo a tick
        ≡ on_answer out source client bo (asked a since conn) answer
  unfolding step
  step-asked a since answer conn h k = rw (h, k)

  skips-none :
      (last : Option AuditEventSummary) (e : AuditEventSummary) (es : List AuditEventSummary)
      → last ≡ none
      → skips out source client bo last (e ∷ es) ≡ false
  skips-none none e [] h = refl
  skips-none (some l) e [] h = cc
  skips-none none e (f ∷ es) h = refl
  skips-none (some l) e (f ∷ es) h = refl

  -- A poll that finds the last event again, with at most one copy of it in the answer, goes on, and
  -- what the sink acknowledges during it does not carry the last event's ID.
  pub tick_no_resend :
      (a : Adapter out source client bo) (l : AuditEventSummary) (es : List AuditEventSummary)
      (conn : client.Conn)
      → a.last_event ≡ some l
      → client.get_events l.time a.conn ≡ (Answer.events es, conn)
      → matches l.id es ≤ 1
      → (a' : Adapter out source client bo) × (taken : List AuditEventSummary) × (step out source
            client bo a tick
          ≡ go a')
        × (a'.trace.acked ≡ a.trace.acked ++ taken)
        × Lacks l.id taken
  unfolding step
  tick_no_resend a l es conn hl hc hm = elim (Bool-cases (skips out source client bo (some l) es)) [
    | inl skip ↦ (
      record (asked a l.time conn) {
        backoff = bo.count a.backoff;
        slept = a.slept + bo.delay a.backoff;
      },
      [],
      start ∙ rw (hl, skip),
      sym (append-nil _),
      tt,
    )
    | inr new ↦
        let sent = send_events-Sent out source (without l.id es) a.trace in
        (
          record (asked a l.time conn) {
            last_event = (send_events out source (without l.id es) a.trace).0;
            trace = (send_events out source (without l.id es) a.trace).1;
            backoff = bo.reset a.backoff;
          },
          sent.taken,
          start ∙ rw (hl, new, remove_event-eq-without es l hm),
          sent.acked,
          All-Sublist (λ e. has_id l.id e ≡ false) sent.taken_of
              (All-Sublist (λ e. has_id l.id e ≡ false) sent.tried_of
                (All-reverse (λ e. has_id l.id e ≡ false) (without l.id es)
                  (without-Lacks l.id es))),
        )
  ]
    where
      start :
          step out source client bo a tick
          ≡ on_answer out source client bo (asked a l.time conn) (Answer.events es)
      start = step-asked a l.time (Answer.events es) conn (rw hl) hc

  -- Without a last event, a poll has every event of the answer acknowledged, if all convert, the
  -- sink acknowledges each and the context stays alive, whether or not it was acknowledged before.
  poll_forgotten_resends :
      (a : Adapter out source client bo) (e : AuditEventSummary) (es : List AuditEventSummary)
      (conn : client.Conn)
      → ((x : AuditEventSummary) → to_cloud_event out source x ≡ some (envelope out source x))
      → ((n : ℕ) (ce : CloudEvent) → out.acks n ce ≡ true)
      → ((n : ℕ) → out.cancelled n ≡ false)
      → a.last_event ≡ none
      → client.get_events a.since a.conn ≡ (Answer.events (e ∷ es), conn)
      → (a' : Adapter out source client bo) × (step out source client bo a tick ≡ go a')
        × (a'.last_event ≡ some e)
        × (a'.trace.acked ≡ a.trace.acked ++ L.reverse (e ∷ es))
  unfolding step remove_event
  poll_forgotten_resends a e es conn converts acks runs hl hc =
      let all = send_events_all out source converts acks runs e es a.trace in
      (
        record (asked a a.since conn) {
          last_event = (send_events out source (e ∷ es) a.trace).0;
          trace = (send_events out source (e ∷ es) a.trace).1;
          backoff = bo.reset a.backoff;
        },
        step-asked a a.since (Answer.events (e ∷ es)) conn (rw hl) hc
            ∙ rw (skips-none a.last_event e es hl) (rw hl),
        all.0,
        all.1,
      )
