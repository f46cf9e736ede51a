-- ===== src/Vsphere/Checkpoint/Config.antt =====
-- The checkpoint configuration: what it accepts, and the round trip through JSON.
use sources_for_knative.Base.{
  String, ℤ, pos, ltb_ℤ, ◌≤ℤ◌, ◌<ℤ◌, ◌≡◌, ◌⊎◌, ◌↔◌, inl, inr, Option, none, some, false, ◌==◌,
  int_eq, string_eq, if_both, Bool-cases, test_ne, arith,
}
use sources_for_knative.Vsphere.Checkpoint.{
  checkpoint_default_age, checkpoint_default_period, CheckpointConfig, Intervals, Formats,
  IsFaithful, Error, invalid_interval, Result, ok, err, marshal_json, parsed, read_interval,
  set_period, set_max_age, set_intervals, unmarshal_json, finish_config, new_checkpoint_config,
}

module _ (f : Formats) where
  -- A value that was read is not negative.
  abbrev NotNegative : Result ℤ → Type 0
  NotNegative (err e) = Unit
  NotNegative (ok v) = pos 0 ≤ℤ v

  parsed-NotNegative : (o : Option ℤ) → NotNegative (parsed f o)
  unfolding parsed
  parsed-NotNegative none = tt
  parsed-NotNegative (some v) = elim (Bool-cases (ltb_ℤ v (pos 0))) [
    | inl e ↦ rw e tt
    | inr e ↦ rw e (ground arith)
  ]

  read_interval-NotNegative :
      (default : ℤ) (text : String) → pos 0 ≤ℤ default → NotNegative (read_interval f default text)
  unfolding read_interval
  read_interval-NotNegative default text h =
      if_both NotNegative (text == "") h (parsed-NotNegative (f.parse_duration text))

  abbrev IsUsable : Option Error × CheckpointConfig → Type 0
  IsUsable (some e, c) = Unit
  IsUsable (none, c) = (pos 0 ≤ℤ c.max_age) × (pos 0 ≤ℤ c.period)

  set_period-IsUsable :
      (r : Result ℤ) (c : CheckpointConfig)
      → NotNegative r
      → pos 0 ≤ℤ c.max_age
      → IsUsable (set_period f r c)
  unfolding set_period
  set_period-IsUsable (err e) c h k = tt
  set_period-IsUsable (ok v) c h k = (k, h)

  set_max_age-IsUsable :
      (r : Result ℤ) (period : String) (c : CheckpointConfig)
      → NotNegative r
      → IsUsable (set_max_age f r period c)
  unfolding set_max_age
  set_max_age-IsUsable (err e) period c h = tt
  set_max_age-IsUsable (ok v) period c h =
      let r = read_interval f checkpoint_default_period period in
      set_period-IsUsable r (record c { max_age = v })
        (read_interval-NotNegative checkpoint_default_period period (omega arith)) h

  -- What `UnmarshalJSON` accepts has no negative interval.
  unmarshal_json-IsUsable :
      (bytes : f.Bytes) (c : CheckpointConfig) → IsUsable (unmarshal_json f bytes c)
  unfolding unmarshal_json
  unmarshal_json-IsUsable bytes c = go (f.decode bytes)
    where
      go : (o : Option Intervals) → IsUsable (set_intervals f o c)
      go none = tt
      go (some i) =
          set_max_age-IsUsable (read_interval f checkpoint_default_age i.max_age) i.period c
            (read_interval-NotNegative checkpoint_default_age i.max_age (omega arith))

  finish_config_bounds :
      (r : Option Error × CheckpointConfig) (c : CheckpointConfig)
      → IsUsable r
      → finish_config f r ≡ ok c
      → (pos 0 ≤ℤ c.max_age) × (pos 0 <ℤ c.period)
  unfolding finish_config
  finish_config_bounds (some e, d) c u h = ground arith
  finish_config_bounds (none, d) c u h = ground arith

  -- Every configuration that `newCheckpointConfig` returns has a replay window that is not negative
  -- and a period that is positive.
  pub new_checkpoint_config_bounds :
      (config : f.Bytes) (c : CheckpointConfig)
      → new_checkpoint_config f config ≡ ok c
      → (pos 0 ≤ℤ c.max_age) × (pos 0 <ℤ c.period)
  unfolding new_checkpoint_config
  new_checkpoint_config_bounds config c h =
      let zero_config : CheckpointConfig = record { max_age = pos 0; period = pos 0 } in
      finish_config_bounds (unmarshal_json f config zero_config) c
        (unmarshal_json-IsUsable config zero_config) h

  -- `MarshalJSON` fails exactly on the configurations with a negative interval, and then with
  -- `ErrInvalidInterval`.
  pub marshal_json_fails_iff :
      (c : CheckpointConfig)
      → (marshal_json f c ≡ err invalid_interval) ↔ ((c.max_age <ℤ pos 0) ⊎ (c.period <ℤ pos 0))
  unfolding marshal_json
  marshal_json_fails_iff c = (ground arith, ground arith)

  module _ (faithful : IsFaithful f) where
    read_interval-print :
        (default v : ℤ) → pos 0 ≤ℤ v → read_interval f default (f.print_duration v) ≡ ok v
    unfolding read_interval parsed
    read_interval-print default v h =
        let full : (f.print_duration v == "") ≡ false =
          test_ne (f.print_duration v) "" (faithful.print_not_empty v) in
        let fine : ltb_ℤ v (pos 0) ≡ false = ground arith in rw (full, faithful.parse-print v, fine)

    -- A configuration without a negative interval is written by `MarshalJSON`, and reading the
    -- result into any configuration gives it back.
    pub unmarshal_json-marshal_json :
        (c d : CheckpointConfig)
        → pos 0 ≤ℤ c.max_age
        → pos 0 ≤ℤ c.period
        → (bytes : f.Bytes) × (marshal_json f c ≡ ok bytes) × (unmarshal_json f bytes d ≡ (none, c))
    unfolding marshal_json unmarshal_json set_period
    unmarshal_json-marshal_json c d h k =
        let a : ltb_ℤ c.max_age (pos 0) ≡ false = ground arith in
        let p : ltb_ℤ c.period (pos 0) ≡ false = ground arith in
        let i : Intervals = record {
          max_age = f.print_duration c.max_age;
          period = f.print_duration c.period;
        } in
        (
          f.encode i,
          rw (a, p),
          rw (
            faithful.decode-encode i,
            read_interval-print checkpoint_default_age c.max_age h,
            read_interval-print checkpoint_default_period c.period k,
          ),
        )

    -- What `MarshalJSON` writes of a configuration with a positive period is read back by
    -- `newCheckpointConfig`.
    pub new_checkpoint_config-marshal_json :
        (c : CheckpointConfig)
        → pos 0 ≤ℤ c.max_age
        → pos 0 <ℤ c.period
        → (bytes : f.Bytes) × (marshal_json f c ≡ ok bytes) × (new_checkpoint_config f bytes ≡ ok c)
    unfolding new_checkpoint_config finish_config
    new_checkpoint_config-marshal_json c h k =
        let (bytes, written, read) =
          unmarshal_json-marshal_json c (record { max_age = pos 0; period = pos 0 }) h
            (ground arith) in
        (bytes, written, rw (read, test_ne c.period (pos 0) (λ e. ground arith)))
