-- ===== src/Reconcile/Vsphere/Intervals.antt =====
-- The intervals of the checkpoint configuration, from the seconds of the spec through the
-- environment of the adapter to the configuration that the adapter reads.
use sources_for_knative.Base.{
  ℕ, ◌*◌, ◌≤◌, ◌<◌, String, pos, scale, ◌<ℤ◌, ◌≡◌, refl, Option, none, some, List, [], ◌∷◌, map,
  inr, Text, arith, ◌==◌, string_eq, if◌then◌else◌, int_eq,
}
use sources_for_knative.Kube.{Url, EnvVar, Deployment}
use sources_for_knative.Vsphere.Checkpoint.{
  second, CheckpointConfig, Formats, IsFaithful, ok, new_checkpoint_config,
}
use sources_for_knative.Vsphere.Checkpoint.Config.{
  marshal_json_fails_iff, new_checkpoint_config-marshal_json,
}
use sources_for_knative.Sources.VsphereSource.{VsphereSource}
use sources_for_knative.Reconcile.Vsphere.{
  signed_64, wrap_int64, interval_of, config_of, AdapterArgs, adapter_env, deployment_with, made,
  make_deployment,
}

-- The largest number of seconds whose nanoseconds an int64 holds.
abbrev pub max_seconds : ℕ
max_seconds = 9_223_372_036

interval_of_small : (n : ℕ) → n ≤ max_seconds → interval_of (pos n) ≡ pos (second * n)
unfolding interval_of wrap_int64 signed_64 scale
interval_of_small n h = ground arith

interval_of_overflow : (n : ℕ) → max_seconds < n → n ≤ 18_446_744_073 → interval_of (pos n) <ℤ pos 0
unfolding interval_of wrap_int64 signed_64 scale
interval_of_overflow n h k = ground arith

-- The value of the first variable with the name.
abbrev pub value_in : String → List EnvVar → Option String
value_in name [] = none
value_in name (v ∷ vars) =
    let rest = value_in name vars in if v.name == name then some v.value else rest

module _ (f : Formats) (text_of : f.Bytes → String) (string_of : Text → String)
    (unicode_lower : ℕ → ℕ) (marshal : String → Option String)
    (child_name : String → String → String) (vms : VsphereSource) (sink_uri : Url)
    (args : AdapterArgs) (age period : ℕ)
    (seconds : vms.spec.checkpoint_config
      ≡ record { max_age_seconds = pos age; period_seconds = pos period }) where
  adapter_env_config :
      (bytes : f.Bytes)
      → map
          (λ c. value_in "VSPHERE_CHECKPOINT_CONFIG" c.env)
          (deployment_with f text_of string_of unicode_lower marshal child_name vms sink_uri args
            bytes).pod.containers
        ≡ some (text_of bytes) ∷ []
  unfolding deployment_with adapter_env
  adapter_env_config bytes = refl

  -- For a period that is not 0, and where neither number of seconds is beyond 9223372036,
  -- `MakeDeployment` makes a deployment whose one container has the text of a checkpoint
  -- configuration in its environment, from which `newCheckpointConfig` reads exactly these seconds,
  -- where durations and the JSON object are read back as they are written.
  pub make_deployment_intervals :
      IsFaithful f
      → age ≤ max_seconds
      → 0 < period
      → period ≤ max_seconds
      → (d : Deployment) × (bytes : f.Bytes) × (make_deployment f text_of string_of unicode_lower
            marshal child_name vms sink_uri args
          ≡ some d)
        × (map (λ c. value_in "VSPHERE_CHECKPOINT_CONFIG" c.env) d.pod.containers
            ≡ some (text_of bytes) ∷ [])
        × (new_checkpoint_config f bytes
            ≡ ok (record { max_age = pos (second * age); period = pos (second * period) }))
  unfolding make_deployment made config_of
  make_deployment_intervals faithful h k l =
      let config : CheckpointConfig = record {
        max_age = pos (second * age);
        period = pos (second * period);
      } in
      let (bytes, written, read) =
        new_checkpoint_config-marshal_json f faithful config (omega arith) (omega arith) in
      (
        deployment_with f text_of string_of unicode_lower marshal child_name vms sink_uri args
            bytes,
        bytes,
        rw (seconds, interval_of_small age h, interval_of_small period l, written) refl,
        adapter_env_config bytes,
        read,
      )

  -- Where the number of seconds of the period is from 9223372037 to 18446744073, `MakeDeployment`
  -- fails.
  pub make_deployment_overflows :
      max_seconds < period
      → period ≤ 18_446_744_073
      → make_deployment f text_of string_of unicode_lower marshal child_name vms sink_uri args
        ≡ none
  unfolding make_deployment made config_of
  make_deployment_overflows h k =
      rw
        (
          seconds,
          (marshal_json_fails_iff f
                (record { max_age = interval_of (pos age); period = interval_of (pos period) })).1
              (inr (interval_of_overflow period h k)),
        )
        refl
