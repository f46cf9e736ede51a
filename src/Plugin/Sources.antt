-- ===== src/Plugin/Sources.antt =====
-- plugins/vsphere/pkg/command/source: `create`, and the sink of its options.
pub mod Writing
pub mod Accepting
pub mod Reaching
mod Tests
use sources_for_knative.Base.{
  ℕ, String, ℤ, Option, none, some, [], ◌∷◌, ◌++◌, Bool, true, false, not, ◌&&◌, ◌||◌, ◌==◌,
  string_eq, if◌then◌else◌, Text, codes, to_lower,
}
use sources_for_knative.Kube.{Url}
use sources_for_knative.Binding.{VAuthSpec}
use sources_for_knative.Sources.{KReference, Destination}
use sources_for_knative.Sources.VsphereSource.{VsphereSource, text_beq}
use sources_for_knative.Plugin.{
  GenericOptions, Api, Failure, no_name, no_address, no_secret, no_sink, bad_encoding, no_namespace,
  bad_address, bad_sink, Outcome, get_explicit_or_default_namespace, executed, with_value, reported,
}

-- `Options`; a duration is its number of nanoseconds.
pub record SourceOptions : Type 0 where
  pub generic : GenericOptions
  pub vc_address : String
  pub skip_tls_verify : Bool
  pub secret_ref : String
  pub sink_uri : String
  pub sink_api_version : String
  pub sink_kind : String
  pub sink_name : String
  pub service_account_name : String
  pub checkpoint_max_age : ℤ
  pub checkpoint_period : ℤ
  pub payload_encoding : Text

-- The calls of `create`: the client's namespace, `url.Parse`, `apis.ParseURL`, which may also return
-- no URL, the seconds of a duration as an int64, and the table of `strings.ToLower`.
pub record SourceTools (S : Type 0) : Type 0 where
  pub configured : Option String
  pub parse_url : String → Option Url
  pub parse_sink_url : String → Option (Option String)
  pub seconds_of : ℤ → ℤ
  pub unicode_lower : ℕ → ℕ
  pub sources : Api S VsphereSource

pub lacks_sink : SourceOptions → Bool
lacks_sink o =
    let all_empty = o.sink_api_version == "" && o.sink_kind == "" && o.sink_name == "" in
    let all_set =
      not (o.sink_api_version == "") && not (o.sink_kind == "") && not (o.sink_name == "") in
    (o.sink_uri == "" && all_empty) || (not all_empty && not all_set)

pub is_valid_encoding : Text → Bool
is_valid_encoding t = text_beq t (codes "xml") || text_beq t (codes "json")

-- `sinkReference`
sink_reference : SourceOptions → String → Option KReference
sink_reference o ns =
    if o.sink_api_version == ""
    then none
    else some (record {
      kind = o.sink_kind;
      namespace_name = ns;
      name = o.sink_name;
      api_version = o.sink_api_version;
    })

module _ {S : Type 0} (tools : SourceTools S) where
  -- The `PreRunE` of `create`
  pub check_source : SourceOptions → Option Failure
  check_source o =
      if o.generic.name == ""
      then some no_name
      else if o.vc_address == ""
      then some no_address
      else if o.secret_ref == ""
      then some no_secret
      else if lacks_sink o
      then some no_sink
      else if not (is_valid_encoding (to_lower tools.unicode_lower o.payload_encoding))
      then some bad_encoding
      else none

  destination_of : SourceOptions → String → Option (Option String) → Option Destination
  destination_of o ns none = none
  destination_of o ns (some uri) = some (record { ref = sink_reference o ns; uri = uri })

  -- `AsSinkDestination`
  pub as_sink_destination : SourceOptions → String → Option Destination
  unfolding destination_of
  as_sink_destination o ns = destination_of o ns (tools.parse_sink_url o.sink_uri)

  -- `newSource`; the API server gives the UID.
  pub new_source : String → Destination → Url → SourceOptions → VsphereSource
  new_source ns sink address o = record {
    namespace_name = ns;
    name = o.generic.name;
    uid = "";
    spec = record {
      sink = sink;
      ce_overrides = none;
      auth = record {
        address = address;
        skip_tls_verify = o.skip_tls_verify;
        secret_name = o.secret_ref;
      };
      checkpoint_config = record {
        max_age_seconds = tools.seconds_of o.checkpoint_max_age;
        period_seconds = tools.seconds_of o.checkpoint_period;
      };
      payload_encoding = codes "application/" ++ to_lower tools.unicode_lower o.payload_encoding;
      service_account_name =
          if not (o.service_account_name == "") then o.service_account_name else "";
    };
  }

  -- The `RunE` of `create`
  pub run_create_source : SourceOptions → S → Outcome S
  run_create_source o s =
      with_value (get_explicit_or_default_namespace tools.configured o.generic.namespace_name)
        no_namespace s
        (λ ns. with_value (tools.parse_url o.vc_address) bad_address s (λ address.
          with_value (as_sink_destination o ns) bad_sink s (λ sink.
            reported "Created source" s
              (tools.sources.create ns (new_source ns sink address o) s))))

  -- `kn vsphere source create`
  pub create_source : SourceOptions → S → Outcome S
  create_source o s = executed (check_source o) (run_create_source o s) s
