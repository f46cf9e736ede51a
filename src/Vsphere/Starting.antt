-- ===== src/Vsphere/Starting.antt =====
-- NewAdapter and Start of pkg/vsphere/adapter.go. A fatal log entry ends the process.
mod Tests
use sources_for_knative.Base.{
  ℕ, String, ℤ, pos, ◌-ℤ◌, ◌≤ℤ◌, ◌<ℤ◌, Option, none, some, List, ◌≡◌, ◌≢◌, refl, subst, ◌==◌,
  string_eq, if◌then◌else◌, Bool-cases, inl, inr, ne_of_test, true, false, Bool,
}
use sources_for_knative.Vsphere.Checkpoint as Checkpoint
use sources_for_knative.Vsphere.Checkpoint.{Formats, CheckpointConfig, new_checkpoint_config}
use sources_for_knative.Vsphere.Checkpoint.Config.{new_checkpoint_config_bounds}
use sources_for_knative.Vsphere.Client as Client
use sources_for_knative.Vsphere.Client.{Vcenter, Process, new_soap_client}
use sources_for_knative.Vsphere.Adapter.Begin.{get_begin_window}
use sources_for_knative.Vsphere.Adapter.{
  Config, Outside, KvStore, Collector, Backoff, Signal, RunResult, run, unix, get_begin,
  checkpoint_time,
}

module _ (f : Formats) (kv : KvStore) (vc : Vcenter) where
  -- `envConfig`, with the namespace that all adapters have.
  pub record EnvConfig : Type 0 where
    pub namespace_name : String
    pub kv_config_map : String
    pub checkpoint_config : f.Bytes
    pub payload_encoding : String

  -- What NewAdapter calls: the host of the client's URL, the version of its API, and a key-value store
  -- in a config map, by its name and namespace, once `Init` has loaded it.
  pub record Services : Type 0 where
    pub host_of : vc.Vim → String
    pub api_version_of : vc.Vim → String
    pub init_store : String → String → Option kv.Store

  -- `vAdapter`, without its logger and the client for cloud events.
  pub record VAdapter : Type 0 where
    pub namespace_name : String
    pub source : String
    pub vclient : vc.Vim
    pub vapi_version : String
    pub store : kv.Store
    pub cp_config : CheckpointConfig
    pub payload_encoding : String

  pub data Fatal : Type 0 where
    no_client empty_host no_store bad_checkpoint_config : Fatal

  pub data Made : Type 0 where
    adapter : VAdapter → Made
    fatal : Fatal → Made

  module _ (services : Services) (env : EnvConfig) where
    with_config : vc.Vim → kv.Store → Checkpoint.Result CheckpointConfig → Made
    with_config client store (Checkpoint.err e) = fatal bad_checkpoint_config
    with_config client store (Checkpoint.ok config) = adapter (record {
      namespace_name = env.namespace_name;
      source = services.host_of client;
      vclient = client;
      vapi_version = services.api_version_of client;
      store = store;
      cp_config = config;
      payload_encoding = env.payload_encoding;
    })

    with_store : vc.Vim → Option kv.Store → Made
    unfolding with_config
    with_store client none = fatal no_store
    with_store client (some store) =
        with_config client store (new_checkpoint_config f env.checkpoint_config)

    with_client : Client.Result vc.Vim → Made
    unfolding with_store
    with_client (Client.err e) = fatal no_client
    with_client (Client.ok client) =
        if services.host_of client == ""
        then fatal empty_host
        else with_store client (services.init_store env.kv_config_map env.namespace_name)

    -- `NewAdapter`
    pub new_adapter : Process → Made
    unfolding with_client
    new_adapter process = with_client (new_soap_client vc process)

    -- The source is named, the replay window is not negative and the period is positive.
    pub record IsReady (a : VAdapter) : Type 0 where
      pub named : a.source ≢ ""
      pub window : pos 0 ≤ℤ a.cp_config.max_age
      pub period : pos 0 <ℤ a.cp_config.period

    abbrev pub StartsReady : Made → Type 0
    StartsReady (adapter a) = IsReady a
    StartsReady (fatal e) = Unit

    with_config-StartsReady :
        (client : vc.Vim) (store : kv.Store) (r : Checkpoint.Result CheckpointConfig)
        → services.host_of client ≢ ""
        → new_checkpoint_config f env.checkpoint_config ≡ r
        → StartsReady (with_config client store r)
    unfolding with_config
    with_config-StartsReady client store (Checkpoint.err e) named h = tt
    with_config-StartsReady client store (Checkpoint.ok config) named h =
        let bounds = new_checkpoint_config_bounds f env.checkpoint_config config h in
        record { named = named; window = bounds.0; period = bounds.1 }

    with_store-StartsReady :
        (client : vc.Vim) (o : Option kv.Store)
        → services.host_of client ≢ ""
        → StartsReady (with_store client o)
    unfolding with_store
    with_store-StartsReady client none named = tt
    with_store-StartsReady client (some store) named =
        with_config-StartsReady client store _ named refl

    with_client-StartsReady : (r : Client.Result vc.Vim) → StartsReady (with_client r)
    unfolding with_client
    with_client-StartsReady (Client.err e) = tt
    with_client-StartsReady (Client.ok client) = elim (Bool-cases (services.host_of client == "")) [
      | inl p ↦ rw p tt
      | inr p ↦ rw p (
          with_store-StartsReady client (services.init_store env.kv_config_map env.namespace_name)
            (ne_of_test (services.host_of client) "" p))
    ]

    new_adapter-StartsReady : (process : Process) → StartsReady (new_adapter process)
    unfolding new_adapter
    new_adapter-StartsReady process = with_client-StartsReady (new_soap_client vc process)

    module _ (out : Outside) (hist : vc.Vim → Collector) (bo : Backoff)
        (logout : vc.Vim → vc.Vim) where
      abbrev pub config_of : VAdapter → Config
      config_of a = record {
        source = a.source;
        api_version = a.vapi_version;
        payload_encoding = a.payload_encoding;
      }

      -- `Start`: the client logs out however `run` ends.
      pub start :
          (a : VAdapter)
          → bo.Counter
          → List Signal
          → RunResult out (config_of a) kv (hist a.vclient) bo × vc.Vim
      start a counter signals = (
        run out (config_of a) kv (hist a.vclient) bo a.cp_config.max_age counter a.store signals,
        logout a.vclient,
      )

      -- An adapter that NewAdapter returns has a source and a positive period, and at whatever time of
      -- vCenter, and whatever checkpoint its store holds, its stream begins at no earlier second than
      -- the replay window of its configuration.
      pub new_adapter_begins :
          (process : Process) (a : VAdapter) (vc_time : ℤ)
          → new_adapter process ≡ adapter a
          → (a.source ≢ "")
            × (pos 0 <ℤ a.cp_config.period)
            × (unix (vc_time -ℤ a.cp_config.max_age)
                ≤ℤ unix (
                    get_begin vc_time
                      (checkpoint_time out (config_of a) kv (hist a.vclient) bo (kv.get a.store))
                      a.cp_config.max_age))
      new_adapter_begins process a vc_time h =
          let ready : IsReady a = subst StartsReady h (new_adapter-StartsReady process) in
          (ready.named, ready.period, get_begin_window vc_time _ a.cp_config.max_age ready.window)
