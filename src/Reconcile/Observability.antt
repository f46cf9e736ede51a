-- ===== src/Reconcile/Observability.antt =====
-- The updates of a controller from the config maps for logging and metrics, in
-- pkg/reconciler/horizonsource/horizonsource.go and, with the same text, in
-- pkg/reconciler/vspheresource/vsphere.go. A config map may be nil.
use sources_for_knative.Base.{
  String, Option, none, some, List, [], ◌∷◌, not, ◌≡◌, ◌≢◌, ◌==◌, string_eq, keep, All, Bool-cases,
  inl, inr, ne_of_test, subst,
}

pub record ConfigMapData : Type 0 where
  pub name : String
  pub content : List (String × String)

pub record ExporterOptions : Type 0 where
  pub domain : String
  pub component : String
  pub config_map : List (String × String)

-- The two configurations that a reconciler holds.
pub record Configs (L : Type 0) : Type 0 where
  pub logging_config : L
  pub metrics_config : ExporterOptions

pub data Update (L : Type 0) : Type 0 where
  went_on : Configs L → Update L
  panicked : Update L

-- `delete(cfg.Data, "_example")`
abbrev without_example : List (String × String) → List (String × String)
without_example = keep (λ e. not (e.0 == "_example"))

-- The deletion is made in the config map itself, if there is one.
cleaned : Option ConfigMapData → Option ConfigMapData
cleaned none = none
cleaned (some cfg) = some (record cfg { content = without_example cfg.content })

-- `parse` is `logging.NewConfigFromConfigMap`.
module _ {L : Type 0} (parse : Option ConfigMapData → Option L) (domain component : String) where
  -- On an error the name of the config map is logged, which a nil one does not have.
  logging_parsed : Option ConfigMapData → Option L → Configs L → Update L
  logging_parsed cfg (some config) c = went_on (record c { logging_config = config })
  logging_parsed none none c = panicked
  logging_parsed (some cfg) none c = went_on c

  -- `UpdateFromLoggingConfigMap`
  update_from_logging_config_map : Option ConfigMapData → Configs L → Update L
  unfolding cleaned logging_parsed
  update_from_logging_config_map cfg c = logging_parsed (cleaned cfg) (parse (cleaned cfg)) c

  metrics_cleaned : Option ConfigMapData → Configs L → Update L
  metrics_cleaned none c = panicked
  metrics_cleaned (some cfg) c = went_on (record c {
    metrics_config = record { domain = domain; component = component; config_map = cfg.content };
  })

  -- `UpdateFromMetricsConfigMap`
  update_from_metrics_config_map : Option ConfigMapData → Configs L → Update L
  unfolding cleaned metrics_cleaned
  update_from_metrics_config_map cfg c = metrics_cleaned (cleaned cfg) c

  no_example :
      (entries : List (String × String)) → All (λ e. e.0 ≢ "_example") (without_example entries)
  no_example [] = tt
  no_example (e ∷ entries) = elim (Bool-cases (e.0 == "_example")) [
    | inl p ↦ rw p (no_example entries)
    | inr p ↦ rw p (ne_of_test e.0 "_example" p, no_example entries)
  ]

  -- The metrics configuration that an update leaves never has the example of the config map.
  update_from_metrics_no_example :
      (cfg : ConfigMapData) (c d : Configs L)
      → update_from_metrics_config_map (some cfg) c ≡ went_on d
      → All (λ e. e.0 ≢ "_example") d.metrics_config.config_map
  unfolding update_from_metrics_config_map metrics_cleaned cleaned
  update_from_metrics_no_example cfg c d h =
      let q : record c {
        metrics_config = record {
          domain = domain;
          component = component;
          config_map = without_example cfg.content;
        };
      }
          ≡ d =
        cc in
      subst (λ (x : Configs L). All (λ e. e.0 ≢ "_example") x.metrics_config.config_map) q
        (no_example cfg.content)
