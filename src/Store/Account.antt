-- ===== src/Store/Account.antt =====
-- server/store/store.go: the configuration of authentication, and its checks.
use casbin_mesh.Prelude.{Str, Bool, false, Option, none, some}
use casbin_mesh.Result.{Error, ok, err}
use casbin_mesh.Badger.{Badger}
use casbin_mesh.Casbin.{Casbin}
use casbin_mesh.Command.{Proto}
use casbin_mesh.Credentials.{Bcrypt, check, add}
use casbin_mesh.Store.{Raft, Node}

module _ (bcrypt : Bcrypt) (b : Badger) (casbin : Casbin b) (proto : Proto) (raft : Raft) where
  -- `Check`: without a credentials store nobody is admitted.
  unfoldable pub check_account : Node b casbin proto raft → Str → Str → Bool
  unfolding check
  check_account n username password = elim n.credentials_store [
    | none ↦ false
    | some c ↦ check bcrypt c username password
  ]

  -- `InitRoot`; `none` is the panic without a credentials store.
  unfoldable pub init_root :
      Str → Str → Str → Node b casbin proto raft → Node b casbin proto raft × Option (Option Error)
  unfolding add
  init_root salt username password n = elim n.credentials_store [
    | none ↦ (n, none)
    | some c ↦ elim (add bcrypt salt username password c) [
      | err e ↦ (n, some (some e))
      | ok c' ↦ (record n { credentials_store = some c' }, some none)
    ]
  ]
