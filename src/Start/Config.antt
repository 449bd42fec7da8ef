-- ===== src/Start/Config.antt =====
-- server/cmd_config.go and `NewServer` of server/server.go: the configuration of a node.
use casbin_mesh.Prelude.{
  ℕ, Str, str, Bool, true, false, not, ◌||◌, ◌==◌, nat_eq, list_eq, List, [], ◌∷◌, ◌++◌, ℤ,
  if◌then◌else◌, split_byte,
}
use casbin_mesh.Result.{Result, ok, err, message, error_text, ◌>>=◌}

pub record CmdConfig : Type 0 where
  pub data_path : Str
  pub config_path : Str
  pub node_id : Str
  pub raft_addr : Str
  pub raft_adv : Str
  pub join_addr : Str
  pub join_src_ip : Str
  pub no_verify : Bool
  pub join_attempts : ℤ
  pub join_interval : Str
  pub raft_non_voter : Bool
  pub raft_snap_threshold : ℕ
  pub raft_snap_interval : Str
  pub raft_leader_lease_timeout : Str
  pub raft_heartbeat_timeout : Str
  pub raft_election_timeout : Str
  pub raft_apply_timeout : Str
  pub raft_open_timeout : Str
  pub raft_wait_for_leader : Bool
  pub raft_shutdown_on_remove : Bool
  pub raft_log_level : Str
  pub compression_size : ℤ
  pub compression_batch : ℤ
  pub enable_auth : Bool
  pub root_username : Str
  pub root_password : Str
  pub pprof_enabled : Bool
  pub pprof_address : Str
  pub cpu_profile : Str
  pub mem_profile : Str
  pub show_version : Bool
  pub server_http_address : Str
  pub server_http_advertise_address : Str
  pub server_grpc_address : Str
  pub server_gprc_advertise_address : Str
  pub encrypt : Bool
  pub raft_tls_enabled : Bool
  pub server_tls_enabled : Bool
  pub server_ca_file : Str
  pub server_key_file : Str
  pub server_cert_file : Str
  pub raft_ca_file : Str
  pub raft_key_file : Str
  pub raft_cert_file : Str
  pub x509_ca_cert : Str
  pub x509_cert : Str
  pub x509_key : Str

abbrev or_default : Str → Str → Str
or_default [] d = d
or_default (c ∷ s) d = c ∷ s

unfoldable pub raft_ca_file_of : CmdConfig → Str
raft_ca_file_of c = or_default c.raft_ca_file c.x509_ca_cert

unfoldable pub raft_key_file_of : CmdConfig → Str
raft_key_file_of c = or_default c.raft_key_file c.x509_key

unfoldable pub raft_cert_file_of : CmdConfig → Str
raft_cert_file_of c = or_default c.raft_cert_file c.x509_cert

unfoldable pub server_ca_file_of : CmdConfig → Str
server_ca_file_of c = or_default c.server_ca_file c.x509_ca_cert

unfoldable pub server_key_file_of : CmdConfig → Str
server_key_file_of c = or_default c.server_key_file c.x509_key

unfoldable pub server_cert_file_of : CmdConfig → Str
server_cert_file_of c = or_default c.server_cert_file c.x509_cert

unfoldable pub is_raft_tls_enabled : CmdConfig → Bool
is_raft_tls_enabled c = c.raft_tls_enabled || c.encrypt

unfoldable pub is_server_tls_enabled : CmdConfig → Bool
is_server_tls_enabled c = c.server_tls_enabled || c.encrypt

unfoldable pub id_or_raft_addr : CmdConfig → Str
id_or_raft_addr c =
    if not (c.node_id == [])
    then c.node_id
    else if c.raft_adv == []
    then c.raft_addr
    else c.raft_adv

unfoldable pub determine_join_addresses : CmdConfig → List Str
unfolding split_byte
determine_join_addresses c = if c.join_addr == [] then [] else split_byte b',' c.join_addr

-- `time.ParseDuration` in nanoseconds, and `filepath.Abs`.
pub record Platform : Type 0 where
  pub parse_duration : Str → Result ℤ
  pub absolute : Str → Result Str

pub record StoreConfig : Type 0 where
  pub dir : Str
  pub id : Str
  pub snapshot_interval : ℤ
  pub leader_lease_timeout : ℤ
  pub heartbeat_timeout : ℤ
  pub election_timeout : ℤ
  pub apply_timeout : ℤ
  pub raft_log_level : Str
  pub shutdown_on_remove : Bool
  pub snapshot_threshold : ℕ

abbrev failing {ℓ} : {A : Type ℓ} → Str → Result A → Result A
failing text (ok a) = ok a
failing text (err e) = err (message (text ++ error_text e))

-- `NewServer`: the configuration of the store.
unfoldable pub new_server : Platform → CmdConfig → Result StoreConfig
unfolding id_or_raft_addr
new_server p c = if c.data_path == [] then err (message (str "no data directory set")) else do
  dir ← failing (str "failed to determine absolute data path: ") (p.absolute c.data_path)
  snap ←
      failing (str "failed to parse Raft Snapsnot interval: ")
        (p.parse_duration c.raft_snap_interval)
  lease ←
      failing (str "failed to parse Raft Leader lease timeout: ")
        (p.parse_duration c.raft_leader_lease_timeout)
  beat ←
      failing (str "failed to parse Raft heartbeat timeout: ")
        (p.parse_duration c.raft_heartbeat_timeout)
  election ←
      failing (str "failed to parse Raft election timeout: ")
        (p.parse_duration c.raft_election_timeout)
  apply ←
      failing (str "failed to parse Raft apply timeout: ") (p.parse_duration c.raft_apply_timeout)
  ok (record {
    dir = dir;
    id = id_or_raft_addr c;
    snapshot_interval = snap;
    leader_lease_timeout = lease;
    heartbeat_timeout = beat;
    election_timeout = election;
    apply_timeout = apply;
    raft_log_level = c.raft_log_level;
    shutdown_on_remove = c.raft_shutdown_on_remove;
    snapshot_threshold = c.raft_snap_threshold;
  })

-- The arguments of `newListener`; the last is whether clients must show a certificate.
pub record Listening : Type 0 where
  pub address : Str
  pub advertise : Str
  pub encrypt : Bool
  pub key_file : Str
  pub cert_file : Str
  pub ca_file : Str
  pub client_auth : Bool

-- The listeners of HTTP and gRPC, which differ in their addresses.
unfoldable pub server_listening : CmdConfig → Str → Str → Listening
unfolding is_server_tls_enabled server_key_file_of server_cert_file_of server_ca_file_of
server_listening c address advertise = record {
  address = address;
  advertise = advertise;
  encrypt = is_server_tls_enabled c;
  key_file = server_key_file_of c;
  cert_file = server_cert_file_of c;
  ca_file = server_ca_file_of c;
  client_auth = false;
}

unfoldable pub raft_listening : CmdConfig → Listening
unfolding is_raft_tls_enabled raft_key_file_of raft_cert_file_of raft_ca_file_of
raft_listening c = record {
  address = c.raft_addr;
  advertise = c.raft_adv;
  encrypt = is_raft_tls_enabled c;
  key_file = raft_key_file_of c;
  cert_file = raft_cert_file_of c;
  ca_file = raft_ca_file_of c;
  client_auth = true;
}
