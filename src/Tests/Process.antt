-- ===== src/Tests/Process.antt =====
-- A start of a node from an empty disk without peers, its shutdown, and the set-up of its logs.
use percas.Base.{
  ℕ, ◌*◌, ◌/◌, ◌||◌, ◌==◌, List, [], ◌∷◌, none, some, true, false, if◌then◌else◌, ◌≡◌, refl, Result,
  ok, Outcome, returned, Member, some-injective,
}
use percas.Text.{str_eq}
use percas.Config.{node_file_path, Config, default}
use percas.Node.{NodeInfo, persist}
use percas.Gossip.{World, new}
use percas.Gossip.Tasks.{start}
use percas.Engine.Open.{FoyerBuilder}
use percas.Telemetry.{Environment, Sinks, init_logs}
use percas.Telemetry.Outcomes.{wanted, init_logs-eq, applied}
use percas.Server.Listen.{
  Process, Service, gossip_server, ping_task, anti_entropy_task, rebuild_ring_task,
  remove_dead_members_task, data_server, report_metrics, Network, is_unspecified,
}
use percas.Server.Serve.{Bootstrap, ServerState}
use percas.Server.Shutdown.{Ends}
use percas.Command.{Host, Error, serve, run_server}
use percas.Command.Started.{NodeStarted, serve-NodeStarted}
use percas.Command.Run.{run_server-joined}
use percas.Tests.Params.{toy_mur3, nat_as_ref, toy_json, empty_disk}

abbrev local_ip : List ℕ
local_ip = 10 ∷ 0 ∷ 0 ∷ 1 ∷ []

instance abbrev toy_network : Network
toy_network = record {
  bind = λ bound addr. some (record { local_addr = some addr });
  local_ip = some local_ip;
  parse_http =
      λ addr. some (if addr.port == 7654 then "http://10.0.0.1:7654/" else "http://10.0.0.1:7655/");
}

instance abbrev toy_builder : FoyerBuilder
toy_builder = record {
  exists_created = λ path. true;
  builds_device = λ device. true;
  builds_cache = λ settings. true;
  half = λ n. n / 2;
}

instance abbrev toy_host : Host
toy_host = record { create_dir_all = λ path. true; set_handler = true; num_cpus = 4 }

instance abbrev no_peers : Bootstrap
no_peers = record { reply = λ url message. none; clock = λ i. i; now = 5 }

instance abbrev all_end : Ends
all_end = record { ends = λ service. ok (ok tt); completes = λ services. services }

abbrev config : Config
config = default (2 * 1024 * 1024 * 1024)

abbrev fresh : Process
fresh = record {
  files = empty_disk;
  bound = [];
  spawned = [];
  handler = false;
  stopped = [];
  joined = [];
}

abbrev served : Process × Outcome (Result ServerState Error)
served = serve config 1 fresh

abbrev node : NodeInfo
node = record {
  node_id = 1;
  cluster_id = "percas-cluster";
  advertise_data_url = "http://10.0.0.1:7654/";
  advertise_ctrl_url = "http://10.0.0.1:7655/";
  incarnation = 0;
}

abbrev bootstrapped : World
bootstrapped =
    (start no_peers.reply no_peers.clock 5 (record {
      state = new node [] "/var/lib/percas";
      files = (persist empty_disk node (node_file_path "/var/lib/percas")).0;
    })).0

abbrev server : ServerState
server = record {
  advertise_data_url = "http://10.0.0.1:7654/";
  advertise_ctrl_url = "http://10.0.0.1:7655/";
  server_fut = data_server;
  gossip_futs =
      gossip_server ∷ ping_task ∷ anti_entropy_task ∷ rebuild_ring_task ∷ remove_dead_members_task
      ∷ [];
  shutdown_tx_actions = report_metrics ∷ [];
  gossip_state = bootstrapped.state;
}

local_ip-specified : (ip : List ℕ) → some local_ip ≡ some ip → is_unspecified ip ≡ false
unfolding is_unspecified
local_ip-specified ip e = rw (← some-injective e) refl

serves : serve config 1 fresh ≡ (served.0, returned (ok server))
unfolding serve default percas.Member.from_iter percas.Member.update_all percas.Member.update_member
    percas.BTreeMap.get percas.Member.default percas.BTreeMap.insert percas.Node.new
serves = refl

serve-NodeStarted_example : NodeStarted config fresh served.0 server
serve-NodeStarted_example =
    serve-NodeStarted config 1 fresh served.0 server local_ip-specified serves

run_server-joined_example :
    (u : Process) × (run_server config 1 fresh ≡ (u, returned (ok tt)))
    × ((x : Service) → Member x u.spawned → Member x u.joined)
run_server-joined_example =
    run_server-joined config 1 fresh served.0 server local_ip-specified refl serves (λ x. refl)
      (λ services x member. member)

-- A filter in RUST_LOG, over a configuration.
instance abbrev toy_environment : Environment
toy_environment = record {
  metric_exporter = λ endpoint. true;
  span_exporter = λ endpoint. true;
  log_exporter = λ endpoint. true;
  file_builder = λ name file. true;
  try_from_spec = λ filter. str_eq filter "INFO" || str_eq filter "DEBUG";
  rust_log = some "DEBUG";
}

abbrev unset : Sinks
unset = record { meter_provider = none; reporter = none; logger = none }

init_logs-eq_example : init_logs "percas" 1 config.telemetry unset ≡ (
    if (wanted "percas" 1 config.telemetry).usable
    then (applied (wanted "percas" 1 config.telemetry).dispatches unset, returned [])
    else (unset, Outcome.panicked))
init_logs-eq_example = init_logs-eq "percas" 1 config.telemetry unset

usable_logs : (wanted "percas" 1 config.telemetry).usable ≡ true
unfolding wanted default
usable_logs = refl
