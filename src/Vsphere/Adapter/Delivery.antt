-- ===== src/Vsphere/Adapter/Delivery.antt =====
-- What the vSphere adapter promises of deliveries, without its loop: events are acknowledged one
-- batch after the other, and only an acknowledged event is ever made durable.
use mathlib.Core.List.{Memᴰ}
use sources_for_knative.Base.{
  ◌≡◌, refl, ◌⊎◌, inl, inr, Option, none, some, List, ◌++◌, Memᴰ-append_left,
}
use sources_for_knative.Vsphere.Events.{BaseEvent}

-- The events acknowledged, and the one whose checkpoint is durable, unless it is still that from
-- before the start.
pub record Delivery : Type 0 where
  pub acked : List BaseEvent
  pub saved : Option BaseEvent

pub data Step : Delivery → Delivery → Type 0 where
  acknowledge :
      (d : Delivery) (events : List BaseEvent) → Step d (record d { acked = d.acked ++ events })
  save : (d : Delivery) (e : BaseEvent) → Memᴰ e d.acked → Step d (record d { saved = some e })

pub data Steps : Delivery → Delivery → Type 0 where
  none_left : (d : Delivery) → Steps d d
  and_then : {a b c : Delivery} → Step a b → Steps b c → Steps a c

pub Steps-join : {a b c : Delivery} → Steps a b → Steps b c → Steps a c
Steps-join (none_left d) more = more
Steps-join (and_then first rest) more = and_then first (Steps-join rest more)

-- The durable event was acknowledged.
abbrev pub IsDelivered : Delivery → Type 0
IsDelivered d = (d.saved ≡ none) ⊎ ((e : BaseEvent) × (d.saved ≡ some e) × Memᴰ e d.acked)

Step-IsDelivered : {a b : Delivery} → Step a b → IsDelivered a → IsDelivered b
Step-IsDelivered (acknowledge d events) (inl p) = inl p
Step-IsDelivered (acknowledge d events) (inr (e, p, m)) =
    inr (e, p, Memᴰ-append_left d.acked events m)
Step-IsDelivered (save d e m) h = inr (e, refl, m)

pub Steps-IsDelivered : {a b : Delivery} → Steps a b → IsDelivered a → IsDelivered b
Steps-IsDelivered (none_left d) h = h
Steps-IsDelivered (and_then first rest) h = Steps-IsDelivered rest (Step-IsDelivered first h)
