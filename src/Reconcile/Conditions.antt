-- ===== src/Reconcile/Conditions.antt =====
-- The statuses of the sources: horizonsource_lifecycle.go and vspheresource_lifecycle.go.
-- `Manager` holds what they call of apis.ConditionSet.
use sources_for_knative.Base.{
  String, Option, none, some, List, [], ◌∷◌, Bool, ◌≡◌, refl, ◌==◌, string_eq, if◌then◌else◌,
}
use sources_for_knative.Kube.{
  Url, Condition, condition_true, condition_false, condition_unknown, other_status, Deployment,
}

-- A condition set's `Manage`: each mark takes a condition's type, a reason and a message.
pub record Manager : Type 1 where
  pub Conditions : Type 0
  pub initialize : Conditions → Conditions
  pub mark_true : String → Conditions → Conditions
  pub mark_false : String → String → String → Conditions → Conditions
  pub mark_unknown : String → String → String → Conditions → Conditions

abbrev pub sink_provided : String
sink_provided = "SinkProvided"

abbrev pub deployed : String
deployed = "Deployed"

abbrev pub auth_ready : String
auth_ready = "AuthReady"

abbrev pub adapter_ready : String
adapter_ready = "AdapterReady"

abbrev pub deployment_available : String
deployment_available = "Available"

module _ (m : Manager) where
  -- `HorizonSourceStatus` and `VSphereSourceStatus`: the URI of the sink and the conditions.
  pub record Status : Type 0 where
    pub sink_uri : Option Url
    pub conditions : m.Conditions

  -- `InitializeConditions`
  pub initialize_conditions : Status → Status
  initialize_conditions s = record s { conditions = m.initialize s.conditions }

  -- `MarkSink`
  pub mark_sink : Url → Status → Status
  mark_sink uri s = record s {
    sink_uri = some uri;
    conditions =
        if uri.text == ""
        then m.mark_unknown sink_provided "SinkEmpty" "Sink has resolved to empty." s.conditions
        else m.mark_true sink_provided s.conditions;
  }

  -- `MarkNoSink`, with the empty message that its callers give.
  pub mark_no_sink : String → Status → Status
  mark_no_sink reason s = record s {
    conditions = m.mark_false sink_provided reason "" s.conditions;
  }

  -- `PropagateDeploymentAvailability`, with the answer of duck.DeploymentIsAvailable.
  pub propagate_deployment_availability :
      (Deployment → Bool) → (String → String) → Deployment → Status → Status
  propagate_deployment_availability is_available unavailable d s = record s {
    conditions =
        if is_available d
        then m.mark_true deployed s.conditions
        else m.mark_false deployed "DeploymentUnavailable" (unavailable d.metadata.name)
            s.conditions;
  }

  -- The switch of both propagations on a condition's status; a fourth status marks nothing.
  mark_as : String → Condition → m.Conditions → m.Conditions
  mark_as kind c = elim (c.status) [
    | condition_unknown ↦ m.mark_unknown kind c.reason c.message
    | condition_false ↦ m.mark_false kind c.reason c.message
    | condition_true ↦ m.mark_true kind
    | other_status t ↦ λ s. s
  ]

  -- `PropagateAuthStatus`, from the Ready condition of the binding, if it has one.
  pub propagate_auth_status : Option Condition → Status → Status
  unfolding mark_as
  propagate_auth_status none s = record s {
    conditions = m.mark_unknown auth_ready "" "" s.conditions;
  }
  propagate_auth_status (some c) s = record s { conditions = mark_as auth_ready c s.conditions }

  -- The loop of `PropagateAdapterStatus`: only the first condition on availability counts.
  adapter_conditions : List Condition → m.Conditions → m.Conditions
  unfolding mark_as
  adapter_conditions [] s = m.mark_unknown adapter_ready "" "" s
  adapter_conditions (c ∷ cs) s =
      let rest = adapter_conditions cs s in
      if c.condition_type == deployment_available then mark_as adapter_ready c s else rest

  -- `PropagateAdapterStatus`
  pub propagate_adapter_status : List Condition → Status → Status
  unfolding adapter_conditions
  propagate_adapter_status cs s = record s { conditions = adapter_conditions cs s.conditions }

  pub mark_sink_uri : (uri : Url) (s : Status) → (mark_sink uri s).sink_uri ≡ some uri
  unfolding mark_sink
  mark_sink_uri uri s = refl

  pub propagate_deployment_availability_sink :
      (is_available : Deployment → Bool) (unavailable : String → String) (d : Deployment)
      (s : Status)
      → (propagate_deployment_availability is_available unavailable d s).sink_uri ≡ s.sink_uri
  unfolding propagate_deployment_availability
  propagate_deployment_availability_sink is_available unavailable d s = refl

  pub propagate_auth_status_sink :
      (o : Option Condition) (s : Status) → (propagate_auth_status o s).sink_uri ≡ s.sink_uri
  unfolding propagate_auth_status
  propagate_auth_status_sink none s = refl
  propagate_auth_status_sink (some c) s = refl

  pub propagate_adapter_status_sink :
      (cs : List Condition) (s : Status) → (propagate_adapter_status cs s).sink_uri ≡ s.sink_uri
  unfolding propagate_adapter_status
  propagate_adapter_status_sink cs s = refl
