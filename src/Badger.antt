-- ===== src/Badger.antt =====
-- dgraph-io/badger, the key-value library below server/adapter: what the adapter calls, as a
-- parameter of the model, and what its documentation says of these calls. `Laws` has consequences,
-- `Table` is one concrete database that meets the laws.
pub mod Order
pub mod Sorted
pub mod Same
pub mod Text
pub mod Table
use casbin_mesh.Prelude.{
  Str, ◌≡◌, Bool, true, false, Option, none, some, List, [], ◌∷◌, ◌==◌, nat_eq, list_eq,
  if◌then◌else◌, has_prefix,
}
use casbin_mesh.Result.{Error, Result, ok, err, key_not_found}
use casbin_mesh.Dict
use Order.{str_leb, IsAscending, AllFrom}

pub record Badger : Type 1 where
  pub Db : Type 0
  pub Txn : Type 0
  -- `db.NewTransaction(true)`, and `db.View`'s transaction
  pub begin : Db → Txn
  -- `txn.Get` and the item's value
  pub get : Txn → Str → Result Str
  -- `txn.Set`, `txn.Delete`: the transaction afterwards, and the error
  pub set : Str → Str → Txn → Txn × Option Error
  pub delete : Str → Txn → Txn × Option Error
  pub discard : Txn → Txn
  -- `txn.Commit`: the database afterwards, and the error
  pub commit : Txn → Db → Db × Option Error
  -- The entries that an iterator visits from `Seek(key)` to its end, backwards if the flag is set.
  pub seek : Txn → Bool → Str → List (Str × Str)
  -- `item.ValueCopy` of the entry of a key, where it fails; and `db.View` of a database that is closed
  pub value_error : Txn → Str → Option Error
  pub view_error : Db → Option Error
  -- "Key is only valid as long as item is valid, or transaction is valid": what keys that were kept
  -- from a scan read once it has ended, by the entries of the scan.
  pub kept : List (Str × Str) → List Str → List Str
  -- `db.Backup(w, 0)` and `db.Load(r, _)`
  pub backup : Db → Result Str
  pub load : Str → Db → Db × Option Error

-- The entries as functions of the key, and what the calls do to them.
pub record BadgerLaws (b : Badger) : Type 1 where
  pub stored : b.Db → Str → Option Str
  pub content : b.Txn → Str → Option Str
  -- The transaction was begun at this database, which nobody else wrote since, and is not discarded.
  pub Live : b.Txn → b.Db → Type 0
  pub live-begin : (d : b.Db) → Live (b.begin d) d
  pub live-set : (k v : Str) (t : b.Txn) (d : b.Db) → Live t d → Live (b.set k v t).0 d
  pub live-delete : (k : Str) (t : b.Txn) (d : b.Db) → Live t d → Live (b.delete k t).0 d
  -- no write is pending
  pub is_clean : b.Txn → Bool
  pub content-begin : (d : b.Db) (k : Str) → content (b.begin d) k ≡ stored d k
  pub clean-begin : (d : b.Db) → is_clean (b.begin d) ≡ true
  pub get_found : (t : b.Txn) (k v : Str) → b.get t k ≡ ok v → content t k ≡ some v
  pub get_missing : (t : b.Txn) (k : Str) → b.get t k ≡ err key_not_found → content t k ≡ none
  pub content-set :
      (k v j : Str) (t : b.Txn)
      → (b.set k v t).1 ≡ none
      → content (b.set k v t).0 j ≡ (if k == j then some v else content t j)
  pub content-delete :
      (k j : Str) (t : b.Txn)
      → (b.delete k t).1 ≡ none
      → content (b.delete k t).0 j ≡ (if k == j then none else content t j)
  pub stored-commit :
      (t : b.Txn) (d : b.Db) (k : Str)
      → Live t d
      → (b.commit t d).1 ≡ none
      → stored (b.commit t d).0 k ≡ content t k
  pub commit_failed :
      (t : b.Txn) (d : b.Db) (e : Error) → (b.commit t d).1 ≡ some e → (b.commit t d).0 ≡ d
  pub commit_discarded : (t : b.Txn) (d : b.Db) → (b.commit (b.discard t) d).0 ≡ d
  -- "If there are no writes, return immediately."
  pub commit_clean :
      (t : b.Txn) (d : b.Db) → is_clean t ≡ true → b.commit (b.discard t) d ≡ (d, none)
  -- A forward iterator visits the keys from the sought one on, in ascending order.
  pub seek_from : (t : b.Txn) (p : Str) → AllFrom p (b.seek t false p)
  pub seek_ascending : (t : b.Txn) (p : Str) → IsAscending (b.seek t false p)
  pub lookup-seek :
      (t : b.Txn) (p k : Str)
      → Dict.lookup k (b.seek t false p) ≡ (if str_leb p k then content t k else none)

-- What is backed up at one database and loaded into an empty one is there again.
pub record BackupLaws (b : Badger) (laws : BadgerLaws b) : Type 0 where
  pub stored-load :
      (text : Str) (d empty : b.Db) (k : Str)
      → b.backup d ≡ ok text
      → ((j : Str) → laws.stored empty j ≡ none)
      → (b.load text empty).1 ≡ none
      → laws.stored (b.load text empty).0 k ≡ laws.stored d k
