-- ===== src/Store.antt =====
-- server/store: one node. Its requests go through the Raft log to the state machine of Fsm.antt.
-- hashicorp/raft is a parameter: a call names the entries that the state machine has applied when it
-- returns, so that what other nodes wrote meanwhile is seen.
pub mod Policies
pub mod Manage
pub mod Membership
pub mod Writes
pub mod Typed
pub mod Decisions
pub mod Members
pub mod Account
pub mod Status
pub mod Opening
pub mod Closing
pub mod Fields
pub mod Transport
pub mod Logger
pub mod EnforcerState
pub mod Waiting
pub mod Servers
mod Shown
pub mod Toy
mod Tests
use casbin_mesh.Prelude.{false, ℕ, Str, Bool, Option, none, some, List, [], ◌∷◌, ℤ}
use casbin_mesh.Result.{Error, Result, ok, err, not_leader, message}
use casbin_mesh.Dict.{Dict}
use casbin_mesh.Badger.{Badger}
use casbin_mesh.Casbin.{Casbin}
use casbin_mesh.Credentials.{CredentialsStore}
use casbin_mesh.Command.{Command, Proto}
use casbin_mesh.Fsm.{Response, State, apply, replay}
use casbin_mesh.Fsm

-- The errors of raft's futures.
pub data RaftError : Type 0 where
  raft_not_leader : RaftError
  raft_failed : Str → RaftError

-- `if e.Error() == raft.ErrNotLeader { return ErrNotLeader }; return e.Error()`
unfoldable pub of_raft : RaftError → Error
of_raft raft_not_leader = not_leader
of_raft (raft_failed text) = message text

pub record Server : Type 0 where
  pub id : Str
  pub address : Str

-- What a call of raft leaves: raft's state, the entries that this node applied meanwhile, the error.
abbrev pub Future : Type 0 → Type 0
Future R = R × List Str × Option RaftError

pub record Raft : Type 1 where
  pub R : Type 0
  pub is_leader : R → Bool
  -- nanoseconds since the last contact with the leader
  pub since_contact : R → ℤ
  -- the address of the leader, blank if none is known
  pub leader : R → Str
  pub applied_index : R → ℕ
  pub last_index : R → ℕ
  pub stats : R → Dict Str
  pub submit : Str → R → Future R
  pub servers : R → Result (List Server)
  pub add_voter : Str → Str → R → Future R
  pub add_nonvoter : Str → Str → R → Future R
  pub remove_server : Str → R → Future R

-- A rules answer `([][]string, error)`, a flag or an error; `none` is a panic.
abbrev pub Answer : Type 0 → Type 0
Answer A = Option (A × Option Error)

module _ (b : Badger) (casbin : Casbin b) (proto : Proto) (raft : Raft) where
  pub record Node : Type 0 where
    pub raft_id : Str
    pub raft_state : raft.R
    pub fsm : State b casbin proto
    -- `s.cfg.CredentialsStore`
    pub credentials_store : Option CredentialsStore

  -- The node after a call of raft.
  unfoldable pub observe : raft.R → List Str → Node → Node
  observe r before n = record n { raft_state = r; fsm = replay b casbin proto before n.fsm }

  abbrev pub run_entry : Str → Node → Node × Result Response
  run_entry entry n = let (s, r) = apply b casbin proto entry n.fsm in (record n { fsm = s }, ok r)

  -- `f := s.raft.Apply(cmd, timeout)`, with the response where the future has no error.
  unfoldable pub wait : Str → Node → Node × Result Response
  unfolding observe of_raft
  wait entry n =
      let (r, before, e) = raft.submit entry n.raft_state in
      elim e [
        | some x ↦ (observe r before n, err (of_raft x))
        | none ↦ run_entry entry (observe r before n)
      ]

  -- Encode the command and wait for its entry.
  unfoldable pub request : Command → Node → Node × Result Response
  unfolding wait
  request c n = elim (proto.command.marshal c) [ err e ↦ (n, err e) | ok entry ↦ wait entry n ]

  -- `r := f.Response().(*FSMResponse)`, then a part of it.
  unfoldable pub answer_rules : Node × Result Response → Node × Answer (List (List Str))
  answer_rules (n, err e) = (n, some ([], some e))
  answer_rules (n, ok (Fsm.fsm_response e effected rules)) = (n, some (rules, e))
  answer_rules (n, ok other) = (n, none)

  unfoldable pub answer_flag : Node × Result Response → Node × Answer Bool
  answer_flag (n, err e) = (n, some (false, some e))
  answer_flag (n, ok (Fsm.fsm_response e effected rules)) = (n, some (effected, e))
  answer_flag (n, ok other) = (n, none)

  unfoldable pub answer_error : Node × Result Response → Node × Option (Option Error)
  answer_error (n, err e) = (n, some (some e))
  answer_error (n, ok (Fsm.fsm_response e effected rules)) = (n, some e)
  answer_error (n, ok other) = (n, none)
