-- ===== src/Adapter.antt =====
-- server/adapter/adapter.go: the casbin policy adapter over one bucket. Every operation is one
-- transaction of the key-value store. JSON for a rule and casbin's model are parameters.
pub mod Table
pub mod Writes
pub mod Keys
mod Tests
use mathlib.Core.Option
use casbin_mesh.Prelude.{
  zero, ◌||◌, ℕ, suc, ◌+◌, Str, str, join, Bool, true, false, ◌&&◌, not, Option, none, some, List,
  [], ◌∷◌, ◌++◌, length, drop, get_elem?, ◌==◌, nat_eq, list_eq, ltb, leb, if◌then◌else◌,
  has_prefix, contains, split_colons, trim_space, split_byte, ℤ, pos, negsuc,
}
use casbin_mesh.Result.{Error, Result, ok, err, invalid_rules_len, message}
use casbin_mesh.Badger.{Badger}
use casbin_mesh.Badger.Order.{while_prefix}
use casbin_mesh.Bucket
use casbin_mesh.Bucket.{with_prefix, slice_from, bucket_entries, Tx}

-- encoding/json for `CasbinRule`, a list of strings.
pub record RuleCodec : Type 0 where
  pub marshal : List Str → Result Str
  pub unmarshal : Str → Result (List Str)

-- casbin's model as a policy load sees it, and the CSV reader of the built-in policy.
pub record PolicyModel : Type 1 where
  pub Model : Type 0
  pub load_policy_line : Str → Model → Model
  -- `model[sec][key].Policy = append(…)`; `none` where there is no such assertion
  pub append_policy : Str → Str → List Str → Model → Option Model
  pub read_csv : Str → Result (List Str)

unfoldable pub convert_rule : Str → List Str → List Str
convert_rule ptype line = ptype ∷ line

unfoldable pub get_key : List Str → Str
get_key rule = join (str "::") rule

-- `CasbinRule.filter`
unfoldable pub filter_text : List Str → Str
filter_text rule = join (str "::") rule

module _ (b : Badger) where
  -- `NewAdapter` registers its namespace.
  unfoldable pub new_adapter : Str → b.Db → b.Db × Option Error
  unfolding Bucket.create_bucket_if_not_exists Bucket.update
  new_adapter bucket db =
      if bucket == []
      then (db, some (message (str "must provide a namespace")))
      else Bucket.update b (Bucket.create_bucket_if_not_exists b bucket) db

module _ (b : Badger) (j : RuleCodec) where
  open b use {Db, Txn}

  -- Marshal the line, and put it under its key.
  unfoldable pub put_line : Str → List Str → Tx b
  unfolding Bucket.put Bucket.fail
  put_line ns line = elim (j.marshal line) [
    | err e ↦ Bucket.fail b e
    | ok bts ↦ Bucket.put b ns (get_key line) bts
  ]

  unfoldable pub add_policy : Str → Str → List Str → Db → Db × Option Error
  unfolding put_line Bucket.update
  add_policy ns ptype rule = Bucket.update b (put_line ns (convert_rule ptype rule))

  unfoldable pub add_all : Str → Str → List (List Str) → Tx b
  unfolding put_line Bucket.done Bucket.seq
  add_all ns ptype [] = Bucket.done b
  add_all ns ptype (r ∷ rules) =
      Bucket.seq b (put_line ns (convert_rule ptype r)) (add_all ns ptype rules)

  unfoldable pub add_policies : Str → Str → List (List Str) → Db → Db × Option Error
  unfolding add_all Bucket.update
  add_policies ns ptype rules = Bucket.update b (add_all ns ptype rules)

  unfoldable pub delete_line : Str → List Str → Tx b
  unfolding Bucket.delete
  delete_line ns line = Bucket.delete b ns (get_key line)

  unfoldable pub remove_policy : Str → Str → List Str → Db → Db × Option Error
  unfolding delete_line Bucket.update
  remove_policy ns ptype line = Bucket.update b (delete_line ns (convert_rule ptype line))

  unfoldable pub remove_all : Str → Str → List (List Str) → Tx b
  unfolding delete_line Bucket.done Bucket.seq
  remove_all ns ptype [] = Bucket.done b
  remove_all ns ptype (r ∷ rules) =
      Bucket.seq b (delete_line ns (convert_rule ptype r)) (remove_all ns ptype rules)

  unfoldable pub remove_policies : Str → Str → List (List Str) → Db → Db × Option Error
  unfolding remove_all Bucket.update
  remove_policies ns ptype rules = Bucket.update b (remove_all ns ptype rules)

  -- Replace one rule, if it is there.
  unfoldable pub replace_line : Str → List Str → List Str → Tx b
  unfolding put_line delete_line Bucket.done Bucket.seq Bucket.exist
  replace_line ns old_line new_line t =
      if Bucket.exist b ns (get_key old_line) t
      then Bucket.seq b (delete_line ns old_line) (put_line ns new_line) t
      else (t, none)

  unfoldable pub update_policy : Str → Str → List Str → List Str → Db → Db × Option Error
  unfolding replace_line Bucket.update
  update_policy ns ptype old_rule new_policy =
      Bucket.update b
        (replace_line ns (convert_rule ptype old_rule) (convert_rule ptype new_policy))

  unfoldable pub replace_all : Str → Str → List (List Str) → List (List Str) → Tx b
  unfolding replace_line Bucket.done Bucket.seq
  replace_all ns ptype (o ∷ olds) (n ∷ news) =
      Bucket.seq b (replace_line ns (convert_rule ptype o) (convert_rule ptype n))
        (replace_all ns ptype olds news)
  replace_all ns ptype _ _ = Bucket.done b

  unfoldable pub update_policies :
      Str → Str → List (List Str) → List (List Str) → Db → Db × Option Error
  unfolding replace_all Bucket.update Bucket.fail
  update_policies ns ptype old_rules new_rules = Bucket.update b (
      if length old_rules == length new_rules
      then replace_all ns ptype old_rules new_rules
      else Bucket.fail b invalid_rules_len)

  -- `tx.txn.Delete(k)` for each matched key
  unfoldable pub delete_keys : List Str → Tx b
  unfolding Bucket.done Bucket.seq
  delete_keys [] = Bucket.done b
  delete_keys (k ∷ ks) = Bucket.seq b (b.delete k) (delete_keys ks)

  -- The test on one key of the scan at a field index above 0. The result is `none` on a panic: a
  -- key that is shorter than the namespace, or no field value to compare.
  unfoldable pub field_matches : Str → ℕ → List Str → Str → Option Bool
  field_matches ns index values k =
      if contains (join (str "::") values) k
      then elim (slice_from (length ns) k) [
        | none ↦ none
        | some text ↦ elim (get_elem? (split_colons false text) (index + 1)) [
          | none ↦ some false
          | some found ↦ elim values [ [] ↦ none | v ∷ vs ↦ some (found == v) ]
        ]
      ]
      else some false

  abbrev keep_key : Option Bool → Str → Option (List Str) → Option (List Str)
  keep_key none k ks = none
  keep_key (some true) k none = none
  keep_key (some true) k (some ks) = some (k ∷ ks)
  keep_key (some false) k ks = ks

  unfoldable pub match_fields : Str → ℕ → List Str → List (Str × Str) → Option (List Str)
  unfolding field_matches
  match_fields ns index values [] = some []
  match_fields ns index values ((k, v) ∷ rows) =
      keep_key (field_matches ns index values k) k (match_fields ns index values rows)

  unfoldable pub keys_of : List (Str × Str) → List Str
  keys_of [] = []
  keys_of ((k, v) ∷ rows) = k ∷ keys_of rows

  abbrev kept_of : List (Str × Str) → Option (List Str) → Option (List Str)
  kept_of rows none = none
  kept_of rows (some ks) = some (b.kept rows ks)

  -- The keys that `RemoveFilteredPolicy` collects from a scan of the store, as they read after it.
  unfoldable pub matched : Str → Str → ℤ → List Str → Db → Option (List Str)
  unfolding match_fields keys_of
  matched ns ptype (pos zero) values db =
      let prefix = with_prefix ns (join (str "::") (ptype ∷ values)) in
      let rows = while_prefix prefix (b.seek (b.begin db) false prefix) in
      some (b.kept rows (keys_of rows))
  matched ns ptype (pos (suc i)) values db =
      let prefix = with_prefix ns ptype in
      let rows = while_prefix prefix (b.seek (b.begin db) false prefix) in
      kept_of rows (match_fields ns (suc i) values rows)
  matched ns ptype (negsuc i) values db = some []

  -- The scan runs in a transaction of its own that writes nothing, and is committed.
  abbrev scanned : ℤ → Db → Option Error
  scanned (negsuc i) db = none
  scanned (pos n) db = (b.commit (b.begin db) db).1

  -- Field values of `nil` are refused. The result is `none` on a panic.
  unfoldable pub remove_filtered_policy :
      Str → Str → ℤ → Option (List Str) → Db → Option (Db × Option Error)
  unfolding matched delete_keys Bucket.update
  remove_filtered_policy ns ptype index none db =
      some (db, some (message (str "empty filed values")))
  remove_filtered_policy ns ptype index (some values) db = elim (matched ns ptype index values db) [
    | none ↦ none
    | some ks ↦ elim (scanned index db) [
      | some e ↦ some (db, some e)
      | none ↦ some (Bucket.update b (delete_keys ks) db)
    ]
  ]

unfoldable pub save_policy : Option Error
save_policy = some (message (str "not supported: must use auto-save with this adapter"))

-- A load changes the model line by line; the lines before an error stay loaded. `none` is a panic.
module _ (p : PolicyModel) where
  open p use {Model}

  unfoldable pub load_csv_policy_line : Str → Model → Option (Model × Option Error)
  load_csv_policy_line line m =
      if line == [] || has_prefix (str "#") line then some (m, none) else elim (p.read_csv line) [
        | err e ↦ some (m, some e)
        | ok [] ↦ none
        | ok ([] ∷ rest) ↦ none
        | ok ((c ∷ cs) ∷ rest) ↦
            Option.map (λ m'. (m', none)) (p.append_policy (c ∷ []) (c ∷ cs) rest m)
      ]

  -- `for … { if err := …; err != nil { return err } }`
  abbrev then_load :
      (Model → Option (Model × Option Error))
      → Option (Model × Option Error)
      → Option (Model × Option Error)
  then_load k none = none
  then_load k (some (m, none)) = k m
  then_load k (some (m, some e)) = some (m, some e)

  unfoldable pub load_builtin : List Str → Model → Option (Model × Option Error)
  unfolding load_csv_policy_line
  load_builtin [] m = some (m, none)
  load_builtin (line ∷ lines) m =
      then_load (load_builtin lines) (load_csv_policy_line (trim_space line) m)

  -- `loadPolicy` joins the fields by commas into a line of text.
  unfoldable pub load_rule : List Str → Model → Model
  load_rule rule = p.load_policy_line (join (str ",") rule)

  unfoldable pub load_entries : RuleCodec → List (Str × Str) → Model → Model × Option Error
  unfolding load_rule
  load_entries j [] m = (m, none)
  load_entries j ((k, v) ∷ rows) m = elim (j.unmarshal v) [
    | err e ↦ (m, some e)
    | ok line ↦ load_entries j rows (load_rule line m)
  ]

  -- The scan runs in a `View`, which returns the error of its commit and not that of the scan.
  abbrev close_view : (b : Badger) → b.Db → Model × Option Error → Model × Option Error
  close_view b db (m, none) = (m, (b.commit (b.begin db) db).1)
  close_view b db (m, some e) = (m, (b.commit (b.discard (b.begin db)) db).1)

  unfoldable pub load_policy :
      (b : Badger) → RuleCodec → Str → Str → b.Db → Model → Option (Model × Option Error)
  unfolding load_builtin load_entries
  load_policy b j ns builtin_policy db m =
      then_load (λ m'. some (close_view b db (load_entries j (bucket_entries b ns db) m')))
        (if builtin_policy == []
          then some (m, none)
          else load_builtin (split_byte 10 builtin_policy) m)
