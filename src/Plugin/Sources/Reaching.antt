-- ===== src/Plugin/Sources/Reaching.antt =====
-- The durations of `source create`, through the defaults and the controller, in the adapter.
use sources_for_knative.Base.{
  ℕ, ◌*◌, ◌≤◌, ◌<◌, String, ℤ, pos, Option, some, [], ◌∷◌, map, ◌≡◌, sym, ap, ◌∙◌, Text,
}
use sources_for_knative.Kube.{Url, Deployment}
use sources_for_knative.Sources.{Destination, Knative}
use sources_for_knative.Sources.VsphereSource.{set_defaults}
use sources_for_knative.Sources.VsphereSource.Defaults.{set_defaults_seconds}
use sources_for_knative.Vsphere.Checkpoint.{
  second, Formats, IsFaithful, ok, new_checkpoint_config, CheckpointConfig, Result,
}
use sources_for_knative.Reconcile.Vsphere.{AdapterArgs, make_deployment}
use sources_for_knative.Reconcile.Vsphere.Intervals.{
  value_in, max_seconds, make_deployment_intervals,
}
use sources_for_knative.Plugin.Sources.{SourceTools, SourceOptions, new_source}

-- A whole number of seconds is read exactly.
pub record IsExact {S : Type 0} (tools : SourceTools S) : Type 0 where
  pub whole : (n : ℕ) → n ≤ max_seconds → tools.seconds_of (pos (second * n)) ≡ pos n

same_config :
    {a b p q : ℤ}
    → a ≡ b
    → p ≡ q
    → ◌≡◌ {A = Result CheckpointConfig}
        (ok (record { max_age = a; period = p }))
        (ok (record { max_age = b; period = q }))
same_config h i = cc (h, i)

module _ (f : Formats) (text_of : f.Bytes → String) (string_of : Text → String)
    (marshal : String → Option String) (child_name : String → String → String) {S : Type 0}
    (tools : SourceTools S) (k : Knative) where
  -- When the durations that are given to `source create` are whole seconds, at most 9223372036 of them
  -- and a positive number for the period, the deployment that is made for the source once the defaults
  -- are set has one container, with the text of a checkpoint configuration from which the adapter reads
  -- exactly these durations.
  pub new_source_reaches_adapter :
      IsFaithful f
      → IsExact tools
      → (ns : String) (sink : Destination) (address sink_uri : Url) (o : SourceOptions)
        (args : AdapterArgs) (age period : ℕ)
      → o.checkpoint_max_age ≡ pos (second * age)
      → o.checkpoint_period ≡ pos (second * period)
      → age ≤ max_seconds
      → 0 < period
      → period ≤ max_seconds
      → (d : Deployment) × (bytes : f.Bytes) × (make_deployment f text_of string_of
            tools.unicode_lower marshal child_name
            (set_defaults k tools.unicode_lower (new_source tools ns sink address o))
            sink_uri
            args
          ≡ some d)
        × (map (λ c. value_in "VSPHERE_CHECKPOINT_CONFIG" c.env) d.pod.containers
            ≡ some (text_of bytes) ∷ [])
        × (new_checkpoint_config f bytes
            ≡ ok (record { max_age = o.checkpoint_max_age; period = o.checkpoint_period }))
  unfolding new_source
  new_source_reaches_adapter faithful exact ns sink address sink_uri o args age period ages periods
        h i j =
      let ages_read : tools.seconds_of o.checkpoint_max_age ≡ pos age =
        ap tools.seconds_of ages ∙ exact.whole age h in
      let periods_read : tools.seconds_of o.checkpoint_period ≡ pos period =
        ap tools.seconds_of periods ∙ exact.whole period j in
      let seconds =
        set_defaults_seconds k tools.unicode_lower (new_source tools ns sink address o) age period
          (ap
              (λ n. record {
                max_age_seconds = n;
                period_seconds = tools.seconds_of o.checkpoint_period;
              })
              ages_read
            ∙ ap (λ n. record { max_age_seconds = pos age; period_seconds = n }) periods_read)
          i in
      let (d, bytes, made, shown, read) =
        make_deployment_intervals f text_of string_of tools.unicode_lower marshal child_name
          (set_defaults k tools.unicode_lower (new_source tools ns sink address o)) sink_uri args
          age period seconds faithful h i j in
      (d, bytes, made, shown, read ∙ same_config (sym ages) (sym periods))
