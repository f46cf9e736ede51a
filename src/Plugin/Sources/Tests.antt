-- ===== src/Plugin/Sources/Tests.antt =====
-- Examples for `source create`, with a store that lists what was created.
use sources_for_knative.Base.{
  ◌*◌, ◌/◌, ℤ, pos, negsuc, ◌≤ℤ◌, none, some, List, [], ◌∷◌, map, false, ◌≡◌, ◌≢◌, ◌↔◌, refl, codes,
  arith, to_lower, lower_rune,
}
use sources_for_knative.Kube.{Url, Deployment}
use sources_for_knative.Sources.{Destination}
use sources_for_knative.Sources.VsphereSource.{VsphereSource, validate, set_defaults, text_beq}
use sources_for_knative.Vsphere.Checkpoint.{second, Intervals, ok, new_checkpoint_config}
use sources_for_knative.Sources.Tests.{counted, counted-IsCombining}
use sources_for_knative.Vsphere.Checkpoint.Tests.{unary_formats, unary_formats-IsFaithful}
use sources_for_knative.Reconcile.Vsphere.{make_deployment}
use sources_for_knative.Reconcile.Vsphere.Intervals.{value_in}
use sources_for_knative.Plugin.Sources.{
  SourceTools, SourceOptions, lacks_sink, is_valid_encoding, check_source, new_source,
}
use sources_for_knative.Plugin.Sources.Accepting.{new_source_accepted_iff}
use sources_for_knative.Plugin.Sources.Reaching.{IsExact, new_source_reaches_adapter}

abbrev lab_url : Url
lab_url = record { host = "vcenter.lab"; text = "https://vcenter.lab" }

abbrev seconds_of : ℤ → ℤ
seconds_of (pos n) = pos (n / second)
seconds_of (negsuc n) = pos 0

abbrev lab_tools : SourceTools (List VsphereSource)
lab_tools = record {
  configured = some "default";
  parse_url = λ t. some lab_url;
  parse_sink_url = λ t. some (some t);
  seconds_of = seconds_of;
  unicode_lower = λ c. c;
  sources = record {
    create = λ ns vs s. some (vs ∷ s);
    delete = λ ns name s. none;
    list = λ ns s. some s;
  };
}

abbrev lab_options : SourceOptions
lab_options = record {
  generic = record { namespace_name = ""; name = "src"; all_namespaces = false };
  vc_address = "https://vcenter.lab";
  skip_tls_verify = false;
  secret_ref = "credentials";
  sink_uri = "http://sink";
  sink_api_version = "";
  sink_kind = "";
  sink_name = "";
  service_account_name = "";
  checkpoint_max_age = pos (second * 300);
  checkpoint_period = pos (second * 10);
  payload_encoding = codes "XML";
}

abbrev lab_sink : Destination
lab_sink = record { ref = none; uri = some "http://sink" }

lab_checked : check_source lab_tools lab_options ≡ none
unfolding check_source lacks_sink is_valid_encoding text_beq to_lower lower_rune
lab_checked = refl

lab-IsExact : IsExact lab_tools
lab-IsExact = record { whole = λ n h. ground arith }

new_source_accepted_iff_example :
    (validate counted (λ c. c) (new_source lab_tools "default" lab_sink lab_url lab_options) ≡ 0)
    ↔ ((counted.validate_sink lab_sink ≡ 0)
        × (lab_url.host ≢ "")
        × (pos 0 ≤ℤ seconds_of (pos (second * 300)))
        × (pos 0 ≤ℤ seconds_of (pos (second * 10))))
new_source_accepted_iff_example =
    new_source_accepted_iff lab_tools lab_options counted counted-IsCombining "default" lab_sink
      lab_url lab_checked

new_source_reaches_adapter_example :
    (d : Deployment) × (bytes : Intervals) × (make_deployment unary_formats
        (λ i. i.period)
        (λ t. "application/xml")
        (λ c. c)
        (λ t. some t)
        (λ p s. p)
        (set_defaults counted
          (λ c. c)
          (new_source lab_tools "default" lab_sink lab_url lab_options))
        lab_url
        (record { image = "adapter:1"; logging_config = "{}"; metrics_config = "{}" })
      ≡ some d)
    × (map (λ c. value_in "VSPHERE_CHECKPOINT_CONFIG" c.env) d.pod.containers
        ≡ some bytes.period ∷ [])
    × (new_checkpoint_config unary_formats bytes
        ≡ ok (record { max_age = pos (second * 300); period = pos (second * 10) }))
new_source_reaches_adapter_example =
    new_source_reaches_adapter unary_formats (λ i. i.period) (λ t. "application/xml") (λ t. some t)
      (λ p s. p) lab_tools counted unary_formats-IsFaithful lab-IsExact "default" lab_sink lab_url
      lab_url lab_options
      (record { image = "adapter:1"; logging_config = "{}"; metrics_config = "{}" }) 300 10 refl
      refl (omega arith) (omega arith) (omega arith)
