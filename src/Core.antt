-- ===== src/Core.antt =====
-- server/core/core.go: what the services of a node are made of. The configuration that the statistics
-- read, and the library bcrypt, are arguments; the contexts are left out. `AuthType` is a parameter of
-- the services, and the level of `Enforce` has been converted.
pub mod History
use casbin_mesh.Prelude.{Str, Bool, Option, List, ℤ}
use casbin_mesh.Result.{Error, Result}
use casbin_mesh.Dict.{Dict}
use casbin_mesh.Badger.{Badger}
use casbin_mesh.Casbin.{Casbin}
use casbin_mesh.Command.{Proto, Level}
use casbin_mesh.Credentials.{Bcrypt}
use casbin_mesh.Http.Json.{Json}
use casbin_mesh.Store.{Raft, Node, Answer}
use casbin_mesh.Store.Policies
use casbin_mesh.Store.Manage
use casbin_mesh.Store.Membership
use casbin_mesh.Store.Account
use casbin_mesh.Store.Status
use casbin_mesh.Store.Status.{Settings}

-- The interface `Core`, over nodes `N`, with `P` for the parameters of a request. An answer is `none`
-- on a panic.
pub record Core (N P : Type 0) : Type 1 where
  pub check : Bcrypt → N → Str → Str → Bool
  pub list_namespaces : N → N × Answer (List Str)
  pub list_policies : Str → Str → ℤ → ℤ → Bool → N → N × Answer (List (List Str))
  pub print_model : Str → N → N × Answer Str
  pub is_leader : N → Bool
  pub leader_addr : N → Str
  pub stats : Settings → N → Result Json
  pub create_namespace : Str → N → N × Option (Option Error)
  pub set_model_from_string : Str → Str → N → N × Option (Option Error)
  pub enforce : Str → Level → ℤ → List P → N → N × Answer Bool
  pub add_policies : Str → Str → Str → List (List Str) → N → N × Answer (List (List Str))
  pub remove_policies : Str → Str → Str → List (List Str) → N → N × Answer (List (List Str))
  pub remove_filtered_policy : Str → Str → Str → ℤ → List Str → N → N × Answer (List (List Str))
  pub update_policies : Str → Str → Str → List (List Str) → List (List Str) → N → N × Answer Bool
  pub clear_policy : Str → N → N × Option (Option Error)
  pub join : Str → Str → Bool → Dict Str → N → N × Option Error
  pub remove : Str → N → N × Option Error

-- `New`: the core of a store.
abbrev pub new :
    (b : Badger) (casbin : Casbin b) (proto : Proto) (raft : Raft)
    → Core (Node b casbin proto raft) casbin.Param
new b casbin proto raft = record {
  check = λ bcrypt n username password.
      Account.check_account bcrypt b casbin proto raft n username password;
  list_namespaces = λ n. Manage.list_namespace b casbin proto raft n;
  list_policies = λ ns cursor skip limit reverse n.
      Manage.list_policies b casbin proto raft ns cursor skip limit reverse n;
  print_model = λ ns n. Manage.print_model b casbin proto raft ns n;
  is_leader = λ n. raft.is_leader n.raft_state;
  leader_addr = λ n. Status.leader_addr b casbin proto raft n;
  stats = λ set n. Status.stats b casbin proto raft set n;
  create_namespace = λ ns n. Manage.create_namespace b casbin proto raft ns n;
  set_model_from_string = λ ns text n. Manage.set_model_from_string b casbin proto raft ns text n;
  enforce =
      λ ns level freshness params n. Manage.enforce b casbin proto raft ns level freshness params n;
  add_policies =
      λ ns sec p_type rules n. Policies.add_policies b casbin proto raft ns sec p_type rules n;
  remove_policies =
      λ ns sec p_type rules n. Policies.remove_policies b casbin proto raft ns sec p_type rules n;
  remove_filtered_policy = λ ns sec p_type fi fv n.
      Policies.remove_filtered_policy b casbin proto raft ns sec p_type fi fv n;
  update_policies =
      λ ns sec p_type nr old n. Policies.update_policies b casbin proto raft ns sec p_type nr old n;
  clear_policy = λ ns n. Policies.clear_policy b casbin proto raft ns n;
  join = λ id addr voter metadata n. Membership.join b casbin proto raft id addr voter metadata n;
  remove = λ id n. Membership.remove b casbin proto raft id n;
}
