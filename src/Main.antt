-- ===== src/Main.antt =====
-- cmd/server/main.go, and `Close` of server/server.go: the process, from its arguments to its end.
-- What cobra makes of the arguments is a parameter.
mod Tests
use casbin_mesh.Prelude.{
  pos, ℕ, ◌<◌, Str, str, Bool, true, false, not, ◌==◌, nat_eq, list_eq, ◌≡◌, refl, Option, none,
  some, List, [], ◌∷◌, ◌++◌, if◌then◌else◌,
}
use casbin_mesh.Result.{Error, Result, ok, err, error_text}
use casbin_mesh.Start.{CmdConfig, Platform, Action, Run, StoreConfig, new_server, start}

-- The defaults of the flags; two fields have no flag.
unfoldable pub default_config : CmdConfig
default_config = record {
  enable_auth = false;
  root_username = str "root";
  root_password = str "root";
  node_id = [];
  raft_addr = str "localhost:5300";
  raft_adv = [];
  join_src_ip = [];
  no_verify = false;
  join_addr = [];
  join_attempts = pos 5;
  join_interval = str "5s";
  show_version = false;
  raft_non_voter = false;
  raft_heartbeat_timeout = str "1s";
  raft_election_timeout = str "1s";
  raft_apply_timeout = str "10s";
  raft_open_timeout = str "120s";
  raft_wait_for_leader = true;
  raft_snap_threshold = 8192;
  raft_snap_interval = str "30s";
  raft_leader_lease_timeout = str "0s";
  raft_shutdown_on_remove = false;
  raft_log_level = str "INFO";
  compression_size = pos 150;
  compression_batch = pos 5;
  server_http_address = str "localhost:5200";
  server_http_advertise_address = [];
  server_grpc_address = str "localhost:5201";
  server_gprc_advertise_address = [];
  raft_ca_file = [];
  raft_cert_file = [];
  raft_key_file = [];
  raft_tls_enabled = false;
  server_ca_file = [];
  server_cert_file = [];
  server_key_file = [];
  server_tls_enabled = false;
  pprof_address = [];
  encrypt = false;
  x509_ca_cert = [];
  x509_cert = [];
  x509_key = [];
  cpu_profile = [];
  mem_profile = [];
  pprof_enabled = true;
  data_path = [];
  config_path = [];
}

-- What `Close` looks at: which fields of the server, and of `prof`, are not nil.
pub record Running : Type 0 where
  pub closed : Bool
  pub str_set : Bool
  pub grpcd_set : Bool
  pub pprof_ln_set : Bool
  pub prof_cpu_set : Bool
  pub prof_mem_set : Bool

-- The server after a `Start` without an error, which never sets `pprofLn`.
unfoldable pub running : CmdConfig → Running
running c = record {
  closed = false;
  str_set = true;
  grpcd_set = true;
  pprof_ln_set = false;
  prof_cpu_set = not (c.cpu_profile == []);
  prof_mem_set = not (c.mem_profile == []);
}

pub data Closing : Type 0 where
  close_store : Bool → Closing
  stop_grpc close_pprof stop_cpu_profile write_mem_profile : Closing

abbrev pub closing_if : Bool → Closing → List Closing
closing_if test a = if test then a ∷ [] else []

-- `Server.Close`: the server after it, and what it does; an error is logged.
unfoldable pub close : Running → Running × List Closing
close s = if s.closed then (s, []) else (
  record s { closed = true },
  closing_if s.str_set (close_store true)
      ++ (closing_if s.grpcd_set stop_grpc
          ++ (closing_if s.pprof_ln_set close_pprof
              ++ (closing_if s.prof_cpu_set stop_cpu_profile
                  ++ closing_if s.prof_mem_set write_mem_profile))),
)

-- How the process ends, with what it prints: by `os.Exit`, after it was interrupted, with what it
-- then closed, or because nothing was left to run.
pub data Outcome : Type 0 where
  exits : ℕ → Str → Outcome
  interrupted : List Closing → Outcome
  returns : Outcome

abbrev fatal : Str → Error → Outcome
fatal text e = exits 1 (str "fatal: " ++ (text ++ (error_text e ++ str "\n")))

-- `if len(args) == 1 { dataPath = args[0] }`
abbrev pub data_path_of : List Str → Str
data_path_of (path ∷ []) = path
data_path_of _ = []

abbrev pub too_many : List Str → Bool
too_many (a ∷ (b ∷ args)) = true
too_many _ = false

-- The parameters: what the start does, the platform, whether a directory is that of a new node, what
-- `--version` prints, and cobra, which gives nothing to run for `--help`.
module _ {W : Type 0} (perform : Action → Run W) (p : Platform) (is_new : Str → Bool)
    (version : Str) (cobra : CmdConfig → List Str → Result (Option (CmdConfig × List Str))) where
  abbrev ended : CmdConfig → W × Option Error → W × Outcome
  ended c (w, none) = (w, interrupted (close (running c)).1)
  ended c (w, some e) = (w, fatal (str "faild to start casmesh: ") e)

  abbrev with_server : CmdConfig → Result StoreConfig → W → W × Outcome
  with_server c (err e) w = (w, fatal (str "faild to new casmesh: ") e)
  with_server c (ok s) w =
      ended c (start perform p (record c { data_path = s.dir }) (is_new s.dir) w)

  -- The command's `Run`.
  unfoldable pub run : CmdConfig → List Str → W → W × Outcome
  unfolding new_server start close running
  run cfg args w =
      if cfg.show_version
      then (w, exits 0 version)
      else if too_many args
      then (w, exits 1 (str "fatal: arguments after data directory are not accepted\n"))
      else let c = record cfg { data_path = data_path_of args } in with_server c (new_server p c) w

  abbrev executed : Result (Option (CmdConfig × List Str)) → W → W × Outcome
  executed (err e) w = (w, exits 1 (error_text e ++ str "\n"))
  executed (ok none) w = (w, returns)
  executed (ok (some (c, args))) w = run c args w

  unfoldable pub main : List Str → W → W × Outcome
  unfolding run default_config
  main argv w = executed (cobra default_config argv) w
