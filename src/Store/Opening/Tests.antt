-- ===== src/Store/Opening/Tests.antt =====
-- The opening of a store on a disk that holds at most one path, and the theorems at it.
use casbin_mesh.Prelude.{
  Str, str, true, false, ◌==◌, nat_eq, list_eq, ◌≡◌, refl, Option, none, some, arith, pos, [], ◌++◌,
  if◌then◌else◌, eq_refl,
}
use casbin_mesh.Result.{Error, ok, message}
use casbin_mesh.Log.{LogStore, indexes, last_command_index, scan_back, latest}
use casbin_mesh.Store.Opening.{
  Disk, OpenConfig, Opened, RaftConfig, LogInfo, open_store, open_log, open_raft, is_new_node,
  set_log_info, set_log_info_lem, and_then, and_with, path_exists, raft_config,
}
use casbin_mesh.Store.Opening.Restart.{DiskLaws, open_store-not_new}

abbrev defaults : RaftConfig
defaults = record {
  local_id = [];
  log_level = str "INFO";
  shutdown_on_remove = true;
  snapshot_threshold = 8192;
  trailing_logs = 10240;
  snapshot_interval = pos 120;
  leader_lease_timeout = pos 5;
  heartbeat_timeout = pos 10;
  election_timeout = pos 10;
}

abbrev config : OpenConfig
config = record {
  dir = str "data";
  id = str "n1";
  raft_log_level = str "WARN";
  shutdown_on_remove = false;
  snapshot_threshold = 0;
  snapshot_interval = pos 0;
  leader_lease_timeout = pos 7;
  heartbeat_timeout = pos 0;
  election_timeout = pos 0;
}

-- Two entries, the first of them a command.
abbrev entries : LogStore
entries = record { first_index = ok 1; last_index = ok 2; is_command = λ i. ok (i == 1) }

abbrev looked_up : Str → Option Str → Option Error
looked_up p none = some (message (str "no such file"))
looked_up p (some q) = if p == q then none else some (message (str "no such file"))

abbrev disk : Disk (Option Str)
disk = record {
  join_path = λ dir name. dir ++ (str "/" ++ name);
  lstat = looked_up;
  is_not_exist = λ e. true;
  mkdir_all = λ p w. (w, none);
  new_file_snapshot_store = λ p w. (w, none);
  list_snapshots = λ w. (w, ok 0);
  new_badger_store = λ p w. (w, none);
  new_log = λ p w. (some p, ok entries);
  new_log_cache = λ w. (w, none);
  default_config = defaults;
  scaled = λ n. n;
  new_raft = λ c w. (w, none);
  bootstrap_cluster = λ id w. (w, none);
}

disk-Laws : DiskLaws disk
disk-Laws = record {
  made = λ p w w' l h. ground (arith, h, eq_refl p);
  cache-keeps = λ p w h. h;
  raft-keeps = λ p c w h. h;
  bootstrap-keeps = λ p id w h. h;
}

new_before : is_new_node disk (str "data") none ≡ true
unfolding is_new_node path_exists
new_before = refl

-- A time of 0 and a threshold of 0 leave raft its defaults.
configured : raft_config defaults 0 config ≡ (record {
  local_id = str "n1";
  log_level = str "WARN";
  shutdown_on_remove = false;
  snapshot_threshold = 8192;
  trailing_logs = 10240;
  snapshot_interval = pos 120;
  leader_lease_timeout = pos 7;
  heartbeat_timeout = pos 10;
  election_timeout = pos 10;
})
unfolding raft_config
configured = refl

abbrev info : LogInfo
info = record { first_idx_on_open = 1; last_idx_on_open = 2; last_command_idx_on_open = 1 }

set_log_info_lem_example : set_log_info entries ≡ some (ok info)
unfolding latest
set_log_info_lem_example =
    set_log_info_lem entries (λ i. i == 1) 1 2 refl refl (λ i above below. refl) (ground arith)
      (ground arith)

abbrev opened : Opened
opened = record { snaps_exist_on_open = false; log_info = info }

open_store-not_new_example :
    is_new_node disk (str "data") (open_store disk config true none).0 ≡ false
unfolding open_store open_log open_raft set_log_info and_then and_with last_command_index indexes
    scan_back
open_store-not_new_example = open_store-not_new disk disk-Laws config true none opened refl
