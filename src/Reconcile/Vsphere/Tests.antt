-- ===== src/Reconcile/Vsphere/Tests.antt =====
-- Examples for the deployment of the VSphereSource controller.
use sources_for_knative.Base.{ℕ, ◌*◌, pos, ◌≡◌, refl, none, some, [], ◌∷◌, map, false, codes, arith}
use sources_for_knative.Kube.{Url, Deployment}
use sources_for_knative.Vsphere.Checkpoint.{second, Intervals, ok, new_checkpoint_config}
use sources_for_knative.Vsphere.Checkpoint.Tests.{unary_formats, unary_formats-IsFaithful}
use sources_for_knative.Sources.VsphereSource.{VsphereSource}
use sources_for_knative.Reconcile.Vsphere.{AdapterArgs, make_deployment}
use sources_for_knative.Reconcile.Vsphere.Intervals.{
  value_in, make_deployment_intervals, make_deployment_overflows,
}

abbrev source_with : ℕ → ℕ → VsphereSource
source_with age period = record {
  namespace_name = "lab";
  name = "src";
  uid = "uid-2";
  spec = record {
    sink = record { ref = none; uri = some "http://sink" };
    ce_overrides = none;
    auth = record {
      address = record { host = "vcenter.lab"; text = "https://vcenter.lab" };
      skip_tls_verify = false;
      secret_name = "credentials";
    };
    checkpoint_config = record { max_age_seconds = pos age; period_seconds = pos period };
    payload_encoding = codes "application/json";
    service_account_name = "";
  };
}

abbrev sink_url : Url
sink_url = record { host = "sink"; text = "http://sink" }

abbrev lab_args : AdapterArgs
lab_args = record { image = "adapter:1"; logging_config = "{}"; metrics_config = "{}" }

make_deployment_intervals_example :
    (d : Deployment) × (bytes : Intervals) × (make_deployment unary_formats
        (λ i. i.period)
        (λ t. "application/json")
        (λ c. c)
        (λ t. some t)
        (λ p s. p)
        (source_with 300 10)
        sink_url
        lab_args
      ≡ some d)
    × (map (λ c. value_in "VSPHERE_CHECKPOINT_CONFIG" c.env) d.pod.containers
        ≡ some bytes.period ∷ [])
    × (new_checkpoint_config unary_formats bytes
        ≡ ok (record { max_age = pos (second * 300); period = pos (second * 10) }))
make_deployment_intervals_example =
    make_deployment_intervals unary_formats (λ i. i.period) (λ t. "application/json") (λ c. c)
      (λ t. some t) (λ p s. p) (source_with 300 10) sink_url lab_args 300 10 refl
      unary_formats-IsFaithful (omega arith) (omega arith) (omega arith)

make_deployment_overflows_example :
    make_deployment unary_formats
      (λ i. i.period)
      (λ t. "application/json")
      (λ c. c)
      (λ t. some t)
      (λ p s. p)
      (source_with 300 9_300_000_000)
      sink_url
      lab_args
    ≡ none
make_deployment_overflows_example =
    make_deployment_overflows unary_formats (λ i. i.period) (λ t. "application/json") (λ c. c)
      (λ t. some t) (λ p s. p) (source_with 300 9_300_000_000) sink_url lab_args 300 9_300_000_000
      refl (omega arith) (omega arith)
