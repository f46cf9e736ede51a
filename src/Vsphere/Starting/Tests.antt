-- ===== src/Vsphere/Starting/Tests.antt =====
-- Examples for NewAdapter, with a vCenter that lets one user in.
use sources_for_knative.Base.{
  ℕ, suc, ◌*◌, String, pos, ◌≤ℤ◌, ◌<ℤ◌, ◌-ℤ◌, Option, none, some, [], true, false, ◌≡◌, ◌≢◌, ap,
  ◌==◌, string_eq, if◌then◌else◌, arith,
}
use sources_for_knative.Vsphere.Checkpoint.{
  second, CheckpointConfig, Intervals, ok, new_checkpoint_config,
}
use sources_for_knative.Vsphere.Checkpoint.Config.{new_checkpoint_config-marshal_json}
use sources_for_knative.Vsphere.Checkpoint.Tests.{unary_formats, unary_formats-IsFaithful}
use sources_for_knative.Vsphere.Client.{
  Vcenter, Process, new_soap_client, connected, read_key, soap_with_keepalive,
}
use sources_for_knative.Vsphere.Adapter.{
  Outside, KvStore, Collector, Backoff, unix, get_begin, checkpoint_time,
}
use sources_for_knative.Vsphere.Checkpoint.{Checkpoint}
use sources_for_knative.Vsphere.Starting.{
  EnvConfig, Services, VAdapter, adapter, with_config, with_store, with_client, new_adapter,
  config_of, new_adapter_begins,
}

abbrev lab_vcenter : Vcenter
lab_vcenter = record {
  Vim = String;
  Rest = String;
  parse_url = λ t. some (record { host = "vcenter.lab"; text = t });
  new_vim = λ url user insecure. some url.host;
  soap_login = λ vim user. if user.password == "s3cr3t" then some vim else none;
  rest_login = λ vim user. some vim;
  current_time = λ vim. some "now";
  rest_session = λ rest. some (some rest);
}

abbrev lab_process : Process
lab_process = record {
  env = some (record { insecure = false; address = "https://vcenter.lab"; secret_path = "" });
  read_file = λ path key. some "s3cr3t";
}

abbrev two_slots : KvStore
two_slots = record {
  Store = Option Checkpoint × Option Checkpoint;
  get = λ s. s.0;
  set = λ c s. some (some c, s.1);
  save = λ s. some (s.0, s.0);
  saved = λ s. s.1;
}

abbrev lab_config : CheckpointConfig
lab_config = record { max_age = pos (second * 300); period = pos (second * 10) }

lab_bytes : (bytes : Intervals) × (new_checkpoint_config unary_formats bytes ≡ ok lab_config)
lab_bytes =
    let (bytes, written, read) =
      new_checkpoint_config-marshal_json unary_formats unary_formats-IsFaithful lab_config
        (omega arith) (omega arith) in
    (bytes, read)

abbrev lab_env : EnvConfig unary_formats two_slots lab_vcenter
lab_env = record {
  namespace_name = "lab";
  kv_config_map = "src-configmap";
  checkpoint_config = lab_bytes.0;
  payload_encoding = "application/xml";
}

abbrev lab_services : Services unary_formats two_slots lab_vcenter
lab_services = record {
  host_of = λ vim. vim;
  api_version_of = λ vim. "7.0";
  init_store = λ name ns. some (none, none);
}

abbrev lab_adapter : VAdapter unary_formats two_slots lab_vcenter
lab_adapter = record {
  namespace_name = "lab";
  source = "vcenter.lab";
  vclient = "vcenter.lab";
  vapi_version = "7.0";
  store = (none, none);
  cp_config = lab_config;
  payload_encoding = "application/xml";
}

lab_made :
    new_adapter unary_formats two_slots lab_vcenter lab_services lab_env lab_process
    ≡ adapter lab_adapter
unfolding new_adapter with_client with_store with_config new_soap_client connected read_key
    soap_with_keepalive
lab_made =
    ap
      (with_config unary_formats two_slots lab_vcenter lab_services lab_env "vcenter.lab"
        (none, none))
      lab_bytes.1

abbrev lab_outside : Outside
lab_outside = record { set_data_ok = λ enc e. true; acks = λ n ce. true }

abbrev no_history : String → Collector
no_history vim = record {
  Cursor = ℕ;
  current_time = some (pos 1000);
  create = λ begin. some 0;
  read_next_events = λ batch n. (some [], n);
}

abbrev counting : Backoff
counting = record { Counter = ℕ; count = λ n. suc n; reset = λ n. 0 }

new_adapter_begins_example :
    (lab_adapter.source ≢ "")
    × (pos 0 <ℤ pos (second * 10))
    × (unix (pos 1000 -ℤ pos (second * 300))
        ≤ℤ unix (
            get_begin
              (pos 1000)
              (checkpoint_time lab_outside
                (config_of unary_formats two_slots lab_vcenter lab_services lab_env lab_outside
                  no_history counting
                  (λ vim. vim)
                  lab_adapter)
                two_slots
                (no_history "vcenter.lab")
                counting
                none)
              (pos (second * 300))))
new_adapter_begins_example =
    new_adapter_begins unary_formats two_slots lab_vcenter lab_services lab_env lab_outside
      no_history counting (λ vim. vim) lab_process lab_adapter (pos 1000) lab_made
