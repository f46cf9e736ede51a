-- ===== src/Horizon/Api.antt =====
-- The interface `Client` of pkg/horizon/horizon.go, between the adapter and the REST client.
use sources_for_knative.Base.{ℤ, List}
use sources_for_knative.Horizon.Events.{AuditEventSummary}

-- What `GetEvents` returns: the events, or an error.
pub data Answer : Type 0 where
  events : List AuditEventSummary → Answer
  failed : Answer

-- `Client`, with the state of the connection made explicit.
pub record Client : Type 1 where
  pub Conn : Type 0
  pub get_events : ℤ → Conn → Answer × Conn
  pub logout : Conn → Conn
