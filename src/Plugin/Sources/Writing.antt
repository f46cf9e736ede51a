-- ===== src/Plugin/Sources/Writing.antt =====
-- When `source create` writes.
use sources_for_knative.Base.{String, none, some, ◌≡◌}
use sources_for_knative.Kube.{Url}
use sources_for_knative.Sources.{Destination}
use sources_for_knative.Plugin.{
  no_namespace, bad_address, bad_sink, printed, get_explicit_or_default_namespace,
}
use sources_for_knative.Plugin.Outcomes.{
  executed_printed, with_value_printed, reported_printed, IsSafe, executed-IsSafe,
  with_value-IsSafe, reported-IsSafe,
}
use sources_for_knative.Plugin.Sources.{
  SourceTools, SourceOptions, check_source, as_sink_destination, new_source, run_create_source,
  create_source,
}

-- A `source create` that reports success passed its checks and sent one source, in the namespace
-- that was given or configured, with the address and the sink that were parsed from its options, and
-- the store is the one that the API server returned for it.
create_source_writes :
    {S : Type 0} (tools : SourceTools S) (o : SourceOptions) (s t : S) (out : String)
    → create_source tools o s ≡ printed out t
    → (check_source tools o ≡ none)
      × ((ns : String) × (address : Url) × (sink : Destination) × (get_explicit_or_default_namespace
              tools.configured o.generic.namespace_name
            ≡ some ns)
          × (tools.parse_url o.vc_address ≡ some address)
          × (as_sink_destination tools o ns ≡ some sink)
          × (tools.sources.create ns (new_source tools ns sink address o) s ≡ some t))
unfolding create_source run_create_source
create_source_writes tools o s t out h =
    let (check, run) = executed_printed (check_source tools o) _ s out t h in
    let (ns, p, h1) = with_value_printed _ _ s _ out t run in
    let (address, q, h2) = with_value_printed _ _ s _ out t h1 in
    let (sink, r, h3) = with_value_printed _ _ s _ out t h2 in
    (check, (ns, address, sink, p, q, r, reported_printed _ s _ out t h3))

-- A `source create` that fails has written nothing.
create_source-IsSafe :
    {S : Type 0} (tools : SourceTools S) (o : SourceOptions) (s : S)
    → IsSafe s (create_source tools o s)
unfolding create_source run_create_source
create_source-IsSafe tools o s =
    executed-IsSafe (check_source tools o) (run_create_source tools o s) s (
      with_value-IsSafe
        (get_explicit_or_default_namespace tools.configured o.generic.namespace_name) no_namespace s
        _
        (λ ns. with_value-IsSafe (tools.parse_url o.vc_address) bad_address s _ (λ address.
          with_value-IsSafe (as_sink_destination tools o ns) bad_sink s _ (λ sink.
            reported-IsSafe "Created source" s
              (tools.sources.create ns (new_source tools ns sink address o) s)))))
