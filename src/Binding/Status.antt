-- ===== src/Binding/Status.antt =====
-- The status of a VSphereBinding: vspherebinding_lifecycle.go.
use sources_for_knative.Base.{String, ℤ}
use sources_for_knative.Reconcile.Conditions.{Manager}

module _ (m : Manager) where
  pub record BindingStatus : Type 0 where
    pub observed_generation : ℤ
    pub conditions : m.Conditions

  -- `SetObservedGeneration`
  set_observed_generation : ℤ → BindingStatus → BindingStatus
  set_observed_generation gen s = record s { observed_generation = gen }

  -- `InitializeConditions`
  initialize_binding_conditions : BindingStatus → BindingStatus
  initialize_binding_conditions s = record s { conditions = m.initialize s.conditions }

  -- `MarkBindingUnavailable`
  mark_binding_unavailable : String → String → BindingStatus → BindingStatus
  mark_binding_unavailable reason message s = record s {
    conditions = m.mark_false "Ready" reason message s.conditions;
  }

  -- `MarkBindingAvailable`
  mark_binding_available : BindingStatus → BindingStatus
  mark_binding_available s = record s { conditions = m.mark_true "Ready" s.conditions }
