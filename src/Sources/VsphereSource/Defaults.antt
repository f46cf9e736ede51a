-- ===== src/Sources/VsphereSource/Defaults.antt =====
-- What the defaults of a VSphereSource leave.
use sources_for_knative.Base.{
  ℕ, ◌<◌, ap, arith, String, ℤ, pos, negsuc, zero, suc, [], ◌∷◌, map, ◌≡◌, ◌≢◌, refl, int_eq,
  string_eq, Text, to_lower, lower_rune,
}
use sources_for_knative.Sources.{Destination, Knative}
use sources_for_knative.Sources.VsphereSource.{
  VCheckpointSpec, VsphereSource, default_period, default_encoding, set_defaults,
}

default_period_ne : (p : ℤ) → default_period p ≢ pos 0
unfolding default_period
default_period_ne (pos zero) h = absurd cc
default_period_ne (pos (suc n)) h = absurd cc
default_period_ne (negsuc n) h = absurd cc

default_period_idem : (p : ℤ) → default_period (default_period p) ≡ default_period p
unfolding default_period
default_period_idem (pos zero) = refl
default_period_idem (pos (suc n)) = refl
default_period_idem (negsuc n) = refl

module _ (k : Knative) (unicode_lower : ℕ → ℕ) where
  map_idem : (f : ℕ → ℕ) (s : Text) → ((c : ℕ) → f (f c) ≡ f c) → map f (map f s) ≡ map f s
  map_idem f [] h = refl
  map_idem f (c ∷ s) h = cc (h c, map_idem f s h)

  default_encoding_idem :
      (t : Text)
      → ((c : ℕ)
          → lower_rune unicode_lower (lower_rune unicode_lower c) ≡ lower_rune unicode_lower c)
      → default_encoding k unicode_lower (default_encoding k unicode_lower t)
        ≡ default_encoding k unicode_lower t
  unfolding default_encoding to_lower
  default_encoding_idem [] h = refl
  default_encoding_idem (c ∷ s) h = cc (h c, map_idem (lower_rune unicode_lower) s h)

  -- After the defaults the period is not 0, and the defaults can be applied again without effect, if
  -- those of the sink and the lower case of a rune can.
  set_defaults_settles :
      (vs : VsphereSource)
      → ((ns : String) (d : Destination)
          → k.default_sink ns (k.default_sink ns d) ≡ k.default_sink ns d)
      → ((c : ℕ)
          → lower_rune unicode_lower (lower_rune unicode_lower c) ≡ lower_rune unicode_lower c)
      → ((set_defaults k unicode_lower vs).spec.checkpoint_config.period_seconds ≢ pos 0)
        × (set_defaults k unicode_lower (set_defaults k unicode_lower vs)
            ≡ set_defaults k unicode_lower vs)
  unfolding set_defaults
  set_defaults_settles vs idem lower = (
    default_period_ne vs.spec.checkpoint_config.period_seconds,
    cc (
      idem vs.namespace_name vs.spec.sink,
      default_encoding_idem vs.spec.payload_encoding lower,
      default_period_idem vs.spec.checkpoint_config.period_seconds,
    ),
  )

  -- The defaults leave a checkpoint configuration with a positive period as it is.
  pub set_defaults_seconds :
      (vs : VsphereSource) (age period : ℕ)
      → vs.spec.checkpoint_config
        ≡ record { max_age_seconds = pos age; period_seconds = pos period }
      → 0 < period
      → (set_defaults k unicode_lower vs).spec.checkpoint_config
        ≡ record { max_age_seconds = pos age; period_seconds = pos period }
  unfolding set_defaults default_period
  set_defaults_seconds vs age zero h i = absurd (omega arith)
  set_defaults_seconds vs age (suc p) h i =
      ap (λ (c : VCheckpointSpec). record c { period_seconds = default_period c.period_seconds }) h
