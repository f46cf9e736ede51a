-- ===== src/Vsphere/Events.antt =====
-- pkg/vsphere/vsphere.go: the class and the type of a vCenter event.
use sources_for_knative.Base.{String, ℤ}

-- The dynamic type of a `BaseEvent`: the two with an event type ID, or one known by its name.
pub data EventKind : Type 0 where
  event_ex : String → EventKind
  extended_event : String → EventKind
  plain : String → EventKind

-- The parts of a `BaseEvent` that the adapter reads; the payload is the event as a whole.
pub record BaseEvent : Type 0 where
  pub kind : EventKind
  pub key : ℤ
  pub created_time : ℤ
  pub payload : String

pub record EventDetails : Type 0 where
  pub class_name : String
  pub type_name : String

details_of : EventKind → EventDetails
details_of (event_ex id) = record { class_name = "eventex"; type_name = id }
details_of (extended_event id) = record { class_name = "extendedevent"; type_name = id }
details_of (plain name) = record { class_name = "event"; type_name = name }

unfoldable pub get_event_details : BaseEvent → EventDetails
unfolding details_of
get_event_details event = details_of event.kind
