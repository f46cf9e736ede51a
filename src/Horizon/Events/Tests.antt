-- ===== src/Horizon/Events/Tests.antt =====
-- Examples for `reverse` and `removeEvent`.
use sources_for_knative.Base.{ℕ, pos, ◌≡◌, refl, some, List, [], ◌∷◌, ◌++◌, arith, int_eq}
use sources_for_knative.Horizon.Events.{
  AuditEventSummary, zero_event, returned, panicked, remove_event,
}
use sources_for_knative.Horizon.Events.Remove.{
  without, remove_event-eq-without, remove_event_panics, remove_event_loses,
}

abbrev event_of : ℕ → ℕ → AuditEventSummary
event_of id time = record zero_event { id = pos id; time = pos time; event_type = "VLSI" }

abbrev three_events : List AuditEventSummary
three_events = event_of 3 30 ∷ (event_of 2 20 ∷ (event_of 1 10 ∷ []))

remove_event-eq-without_example :
    remove_event three_events (some (event_of 2 20)) ≡ returned (without (pos 2) three_events)
remove_event-eq-without_example = remove_event-eq-without three_events (event_of 2 20) (omega arith)

remove_event_panics_example :
    remove_event
      ((event_of 3 30 ∷ []) ++ event_of 1 10 ∷ ([] ++ event_of 1 10 ∷ []))
      (some (event_of 1 10))
    ≡ panicked
remove_event_panics_example =
    remove_event_panics (event_of 3 30 ∷ []) [] (event_of 1 10) (event_of 1 10) (event_of 1 10) refl
      refl refl refl

remove_event_loses_example :
    remove_event
      ((event_of 3 30 ∷ []) ++ event_of 1 10 ∷ ([] ++ event_of 1 10 ∷ (event_of 2 5 ∷ [])))
      (some (event_of 1 10))
    ≡ returned ((event_of 3 30 ∷ []) ++ ([] ++ event_of 1 10 ∷ []))
remove_event_loses_example =
    remove_event_loses (event_of 3 30 ∷ []) [] (event_of 1 10) (event_of 1 10) (event_of 1 10) refl
      refl refl refl (event_of 2 5) [] refl
