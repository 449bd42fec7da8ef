-- ===== src/Start/Tests.antt =====
-- A new node that is to join, and a platform that fails at nothing.
use casbin_mesh.Prelude.{
  str, Bool, true, false, ◌≡◌, refl, none, [], pos, All, nat_eq, list_eq, list_beq, split_byte,
}
use casbin_mesh.Result.{ok}
use casbin_mesh.Start.{CmdConfig, Platform, Action, Run, start}
use casbin_mesh.Start.Success.{onto, plan}
use casbin_mesh.Start.Success.Carried.{start-plan}
use casbin_mesh.Start.Plan.{Allowed, logged, start-Allowed}

abbrev config : CmdConfig
config = record {
  data_path = str "data";
  config_path = [];
  node_id = [];
  raft_addr = str "h:1";
  raft_adv = [];
  join_addr = str "a,b";
  join_src_ip = [];
  no_verify = false;
  join_attempts = pos 3;
  join_interval = str "5s";
  raft_non_voter = false;
  raft_snap_threshold = 8192;
  raft_snap_interval = str "30s";
  raft_leader_lease_timeout = str "0s";
  raft_heartbeat_timeout = str "1s";
  raft_election_timeout = str "1s";
  raft_apply_timeout = str "10s";
  raft_open_timeout = str "120s";
  raft_wait_for_leader = true;
  raft_shutdown_on_remove = false;
  raft_log_level = str "INFO";
  compression_size = pos 150;
  compression_batch = pos 5;
  enable_auth = true;
  root_username = str "root";
  root_password = str "pw";
  pprof_enabled = true;
  pprof_address = [];
  server_http_address = str "h:2";
  server_http_advertise_address = [];
  server_grpc_address = str "h:3";
  server_gprc_advertise_address = [];
  server_ca_file = [];
  server_key_file = [];
  server_cert_file = [];
  cpu_profile = [];
  mem_profile = [];
  show_version = false;
  encrypt = false;
  raft_tls_enabled = false;
  server_tls_enabled = false;
  raft_ca_file = [];
  raft_key_file = [];
  raft_cert_file = [];
  x509_ca_cert = [];
  x509_cert = [];
  x509_key = [];
}

abbrev platform : Platform
platform = record { parse_duration = λ text. ok (pos 1); absolute = λ path. ok path }

abbrev fine : Action → Run Bool
fine a w = (w, none)

start-Allowed_example :
    All (Allowed config true) (start (logged fine) platform config true (true, [])).0.1
start-Allowed_example = start-Allowed config true fine platform true

-- The start comes to its end.
started : (start fine platform config true true).1 ≡ none
unfolding start list_beq split_byte
started = refl

start-plan_example :
    ((start (logged fine) platform config true (true, [])).1 ≡ none)
    × ((start (logged fine) platform config true (true, [])).0.1
        ≡ onto (plan config true (pos 1)) [])
start-plan_example = start-plan fine platform (λ a w. refl) config true (pos 1) true refl
