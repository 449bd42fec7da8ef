-- ===== src/Store/Opening.antt =====
-- server/store/store.go: the opening of a store. The files, the log and raft are libraries: each call
-- of them is a field of `Disk` and gives the world after it.
pub mod Restart
mod Tests
use casbin_mesh.Prelude.{
  ℕ, Str, str, Bool, true, false, not, ◌==◌, ltb, nat_eq, ◌≡◌, refl, Option, none, some, arith, ℤ,
  pos, suc, if◌then◌else◌, eq_iff, ◌≤◌, ◌<◌, ◌+◌, ◌-◌, inl, inr, sym, ◌∙◌,
}
use casbin_mesh.Result.{Error, Result, ok, err, message}
use casbin_mesh.Log
use casbin_mesh.Log.{LogStore, wrapped, last_command_index, latest, last_command_index_lem}

-- The fields of `StoreConfig` that `Open` reads.
pub record OpenConfig : Type 0 where
  pub dir : Str
  pub id : Str
  pub raft_log_level : Str
  pub shutdown_on_remove : Bool
  pub snapshot_threshold : ℕ
  pub snapshot_interval : ℤ
  pub leader_lease_timeout : ℤ
  pub heartbeat_timeout : ℤ
  pub election_timeout : ℤ

-- `raft.Config`, as far as the store sets it.
pub record RaftConfig : Type 0 where
  pub local_id : Str
  pub log_level : Str
  pub shutdown_on_remove : Bool
  pub snapshot_threshold : ℕ
  pub trailing_logs : ℕ
  pub snapshot_interval : ℤ
  pub leader_lease_timeout : ℤ
  pub heartbeat_timeout : ℤ
  pub election_timeout : ℤ

abbrev is_zero : ℤ → Bool
is_zero (pos n) = n == 0
is_zero _ = false

abbrev given : ℤ → ℤ → ℤ
given set default = if is_zero set then default else set

-- `raftConfig`, from `raft.DefaultConfig()` and the number of trailing logs.
unfoldable pub raft_config : RaftConfig → ℕ → OpenConfig → RaftConfig
raft_config default trailing c = record {
  local_id = c.id;
  log_level = c.raft_log_level;
  shutdown_on_remove = c.shutdown_on_remove;
  snapshot_threshold =
      if c.snapshot_threshold == 0 then default.snapshot_threshold else c.snapshot_threshold;
  trailing_logs = if c.snapshot_threshold == 0 then default.trailing_logs else trailing;
  snapshot_interval = given c.snapshot_interval default.snapshot_interval;
  leader_lease_timeout = given c.leader_lease_timeout default.leader_lease_timeout;
  heartbeat_timeout = given c.heartbeat_timeout default.heartbeat_timeout;
  election_timeout = given c.election_timeout default.election_timeout;
}

-- The fields of `Store` that the opening sets.
pub record LogInfo : Type 0 where
  pub first_idx_on_open : ℕ
  pub last_idx_on_open : ℕ
  pub last_command_idx_on_open : ℕ

pub record Opened : Type 0 where
  pub snaps_exist_on_open : Bool
  pub log_info : LogInfo

-- `setLogInfo`; `none` if the search for the last command is not over after one round more than the
-- last index.
unfoldable pub set_log_info : LogStore → Option (Result LogInfo)
unfolding last_command_index
set_log_info l = elim l.first_index [
  | err e ↦ some (err (wrapped (str "failed to get last index: ") e))
  | ok fi ↦ elim l.last_index [
    | err e ↦ some (err (wrapped (str "failed to get last index: ") e))
    | ok li ↦ elim (last_command_index l (suc li)) [
      | none ↦ none
      | some (err e) ↦ some (err (wrapped (str "failed to get last command index: ") e))
      | some (ok i) ↦ some (
          ok (record {
            first_idx_on_open = fi;
            last_idx_on_open = li;
            last_command_idx_on_open = i;
          }))
    ]
  ]
]

pub record Disk (W : Type 0) : Type 0 where
  pub join_path : Str → Str → Str
  -- `os.Lstat`, and whether its error says that there is no such path
  pub lstat : Str → W → Option Error
  pub is_not_exist : Error → Bool
  pub mkdir_all : Str → W → W × Option Error
  pub new_file_snapshot_store : Str → W → W × Option Error
  -- how many snapshots there are
  pub list_snapshots : W → W × Result ℕ
  pub new_badger_store : Str → W → W × Option Error
  pub new_log : Str → W → W × Result LogStore
  pub new_log_cache : W → W × Option Error
  pub default_config : RaftConfig
  -- `uint64(float64(threshold) * trailingScale)`
  pub scaled : ℕ → ℕ
  pub new_raft : RaftConfig → W → W × Option Error
  pub bootstrap_cluster : Str → W → W × Option Error

abbrev pub Opening : Type 0 → Type 0
Opening W = W × Option (Result Opened)

-- `if err != nil { return … }`, and what follows.
unfoldable pub and_then :
    {W : Type 0} → (Error → Error) → (W → Opening W) → W × Option Error → Opening W
and_then f k (w, none) = k w
and_then f k (w, some e) = (w, some (err (f e)))

unfoldable pub and_with :
    {W A : Type 0} → (Error → Error) → (A → W → Opening W) → W × Result A → Opening W
and_with f k (w, ok a) = k a w
and_with f k (w, err e) = (w, some (err (f e)))

module _ {W : Type 0} (d : Disk W) where
  unfoldable pub path_exists : Str → W → Bool
  path_exists p w = elim (d.lstat p w) [ none ↦ true | some e ↦ not (d.is_not_exist e) ]

  abbrev pub raft_path : Str → Str
  raft_path dir = d.join_path dir (str "default-raft.db")

  unfoldable pub is_new_node : Str → W → Bool
  unfolding path_exists
  is_new_node dir w = not (path_exists (raft_path dir) w)

  -- From `NewRaft` on. The error of the bootstrap is not looked at.
  unfoldable pub open_raft : OpenConfig → Bool → Opened → W → Opening W
  unfolding raft_config
  open_raft c enable_bootstrap o w =
      and_then (wrapped (str "new raft: "))
        (λ w.
          if enable_bootstrap
          then ((d.bootstrap_cluster c.id w).0, some (ok o))
          else (w, some (ok o)))
        (d.new_raft (raft_config d.default_config (d.scaled c.snapshot_threshold) c) w)

  abbrev after_info : OpenConfig → Bool → Bool → Option (Result LogInfo) → W → Opening W
  after_info c enable_bootstrap snaps none w = (w, none)
  after_info c enable_bootstrap snaps (some (err e)) w =
      (w, some (err (wrapped (str "set log info: ") e)))
  after_info c enable_bootstrap snaps (some (ok i)) w =
      open_raft c enable_bootstrap (record { snaps_exist_on_open = snaps; log_info = i }) w

  -- From the log cache on.
  unfoldable pub open_log : OpenConfig → Bool → Bool → LogStore → W → Opening W
  unfolding open_raft set_log_info
  open_log c enable_bootstrap snaps l w =
      and_then (wrapped (str "new cached store: "))
        (λ w. after_info c enable_bootstrap snaps (set_log_info l) w) (d.new_log_cache w)

  abbrev open_stores : OpenConfig → Bool → ℕ → W → Opening W
  open_stores c enable_bootstrap count w =
      and_then (wrapped (str "new state store: "))
        (λ w.
          and_with (wrapped (str "new log store: "))
            (λ l w. open_log c enable_bootstrap (ltb 0 count) l w) (d.new_log (raft_path c.dir) w))
        (d.new_badger_store (d.join_path c.dir (str "default-state.db")) w)

  unfoldable pub open_store : OpenConfig → Bool → W → Opening W
  unfolding open_log
  open_store c enable_bootstrap w =
      and_then (λ e. e)
        (λ w.
          and_then (wrapped (str "file snapshot store: "))
            (λ w.
              and_with (wrapped (str "list snapshots: "))
                (λ count w. open_stores c enable_bootstrap count w) (d.list_snapshots w))
            (d.new_file_snapshot_store c.dir w))
        (d.mkdir_all c.dir w)

-- Where the entries of the log can be read, the first index is at least 1 and the last not before it
-- by more than one, the opening finds the first index, the last, and the last of a command, and its
-- search ends.
pub set_log_info_lem :
    (l : LogStore) (command : ℕ → Bool) (fi li : ℕ)
    → l.first_index ≡ ok fi
    → l.last_index ≡ ok li
    → ((i : ℕ) → fi ≤ i → i ≤ li → l.is_command i ≡ ok (command i))
    → 1 ≤ fi
    → fi ≤ li + 1
    → set_log_info l
      ≡ some (
          ok (record {
            first_idx_on_open = fi;
            last_idx_on_open = li;
            last_command_idx_on_open = latest command fi (li + 1 - fi);
          }))
unfolding set_log_info
set_log_info_lem l command fi li first last readable low ordered =
    rw
      (
        set_log_info,
        first,
        last,
        last_command_index_lem l command (suc li) fi li first last readable low ordered
            (omega arith),
      )
      refl
