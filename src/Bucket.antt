-- ===== src/Bucket.antt =====
-- server/adapter/badger.go: buckets, one for each namespace, in one key-value store. A bucket is its
-- namespace; a key of it stands in the store behind the byte 1 and the namespace.
pub mod Listing
pub mod Scan
pub mod Gc
use casbin_mesh.Prelude.{
  ℕ, Str, Bool, true, false, Option, none, some, List, [], ◌∷◌, ◌++◌, length, drop, ◌==◌, nat_eq,
  list_eq, leb, if◌then◌else◌, has_prefix, ℤ, pos, negsuc, ltb_ℤ, add64, suc,
}
use casbin_mesh.Result.{Error, Result, ok, err, key_not_found}
use casbin_mesh.Badger.{Badger}
use casbin_mesh.Badger.Order.{while_prefix}

abbrev pub prefix_namespace : Str
prefix_namespace = 0 ∷ []

abbrev pub prefix_policies : Str
prefix_policies = 1 ∷ []

unfoldable pub with_prefix : Str → Str → Str
with_prefix namespace key = prefix_policies ++ (namespace ++ key)

-- `k[n:]`, which panics beyond the end (`none`).
unfoldable pub slice_from : ℕ → Str → Option Str
slice_from n k = if leb n (length k) then some (drop n k) else none

-- The rows that `List` returns, and its error; `none` is a panic.
abbrev pub Listed : Type 0
Listed = Option (List (Str × Str) × Option Error)

abbrev pub cons_row : Str × Str → Listed → Listed
cons_row r none = none
cons_row r (some (rs, e)) = some (r ∷ rs, e)

-- `count > limit+skip-1`, in int64
unfoldable pub is_full : ℤ → ℤ → ℕ → Bool
is_full limit skip count = ltb_ℤ (add64 (add64 limit skip) (negsuc 0)) (pos count)

-- The loop of `List` over the entries from `Seek` on, with the error of copying the value of a key.
unfoldable pub list_rows : (Str → Option Error) → ℕ → ℤ → ℤ → ℕ → List (Str × Str) → Listed
unfolding is_full
list_rows bad width skip limit count [] = some ([], none)
list_rows bad width skip limit count ((k, v) ∷ rest) =
    let later = list_rows bad width skip limit (suc count) rest in
    if ltb_ℤ (pos count) skip then later else elim (bad k) [
      | some e ↦ some ([], some e)
      | none ↦ elim (slice_from width k) [
        | none ↦ none
        | some key ↦
            cons_row (key, v) (if is_full limit skip (suc count) then some ([], none) else later)
      ]
    ]

-- `k[len(prefix):]` for each entry of a scan
unfoldable pub strip : ℕ → List (Str × Str) → List (Str × Str)
strip n [] = []
strip n ((k, v) ∷ m) = (drop n k, v) ∷ strip n m

module _ (b : Badger) where
  open b use {Db, Txn}

  -- The body of a transaction: it goes on from what it left, also when it fails.
  abbrev pub Tx : Type 0
  Tx = Txn → Txn × Option Error

  unfoldable pub done : Tx
  done t = (t, none)

  unfoldable pub fail : Error → Tx
  fail e t = (t, some e)

  -- `if err := m; err != nil { return err }; k`
  abbrev go_on : Tx → Txn × Option Error → Txn × Option Error
  go_on k (t, none) = k t
  go_on k (t, some e) = (t, some e)

  unfoldable pub seq : Tx → Tx → Tx
  seq m k t = go_on k (m t)

  -- The name itself is looked up, and not the key that is written.
  unfoldable pub create_bucket_if_not_exists : Str → Tx
  create_bucket_if_not_exists name t = elim (b.get t name) [
    | ok v ↦ (t, none)
    | err e ↦ elim e [
      | key_not_found ↦ b.set (prefix_namespace ++ name) [] t
      | other ↦ (t, some other)
    ]
  ]

  -- `Get` gives no error.
  unfoldable pub exist : Str → Str → Txn → Bool
  exist namespace key t = elim (b.get t (with_prefix namespace key)) [ ok v ↦ true | err e ↦ false ]

  unfoldable pub put : Str → Str → Str → Tx
  put namespace key value = b.set (with_prefix namespace key) value

  unfoldable pub delete : Str → Str → Tx
  delete namespace key = b.delete (with_prefix namespace key)

  -- On an error the transaction is discarded, and committed all the same: what is returned is the
  -- error of the commit.
  abbrev to_commit : Txn × Option Error → Txn
  to_commit (t, none) = t
  to_commit (t, some e) = b.discard t

  unfoldable pub update : Tx → Db → Db × Option Error
  update fn db = b.commit (to_commit (fn (b.begin db))) db

  -- `View` of badger.go runs the same statements.
  unfoldable pub view : Tx → Db → Db × Option Error
  view fn db = b.commit (to_commit (fn (b.begin db))) db

  unfoldable pub list : Str → Str → ℤ → ℤ → Bool → Db → Listed
  list namespace cursor skip limit reverse db = elim (b.view_error db) [
    | some e ↦ some ([], some e)
    | none ↦
        list_rows (b.value_error (b.begin db)) (length (with_prefix namespace [])) skip limit 0
          (b.seek (b.begin db) reverse (with_prefix namespace cursor))
  ]

  -- The entries that `Bucket.ForEach` hands to its function: keys without the prefix.
  unfoldable pub bucket_entries : Str → Db → List (Str × Str)
  unfolding strip
  bucket_entries namespace db =
      let p = with_prefix namespace [] in
      strip (length p) (while_prefix p (b.seek (b.begin db) false p))

  -- The names that `BadgerStore.ForEach` hands to its function.
  unfoldable pub namespaces : Db → List (Str × Str)
  unfolding strip
  namespaces db =
      strip (length prefix_namespace)
        (while_prefix prefix_namespace (b.seek (b.begin db) false prefix_namespace))
