-- ===== src/Adapter/Tests.antt =====
-- Runs of the adapter on a concrete database, and the theorems at them.
use casbin_mesh.Prelude.{
  drop, take, false, Str, str, join, ◌≡◌, refl, none, List, [], ◌∷◌, arith, nat_eq, list_eq,
  list_beq, ◌⊎◌, length, has_prefix, pos, split_byte,
}
use casbin_mesh.Result.{Error, ok, err, key_not_found}
use casbin_mesh.Dict
use casbin_mesh.Dict.{Dict}
use casbin_mesh.Badger.Table.{TableTxn, table_badger, table_laws}
use casbin_mesh.Bucket
use casbin_mesh.Bucket.{with_prefix, bucket_entries, Tx}
use casbin_mesh.Bucket.Listing.{list_lem, cut_rows}
use casbin_mesh.Adapter.{
  add_all, RuleCodec, convert_rule, get_key, add_policies, remove_policies, update_policies,
}
use casbin_mesh.Adapter.Table.{added}
use casbin_mesh.Adapter.Writes.{add_policies_done, add_policies_atomic, update_policies_lengths}
use casbin_mesh.Adapter.Keys.{namespaces-Apart, namespaces_overlap}

abbrev csv_rules : RuleCodec
csv_rules = record {
  marshal = λ line. ok (join (str ",") line);
  unmarshal = λ s. ok (split_byte b',' s);
}

abbrev reader : List Str
reader = str "alice" ∷ (str "read" ∷ [])

abbrev writer : List Str
writer = str "alice" ∷ (str "write" ∷ [])

-- A rule of the namespace `hr`.
abbrev one_rule : Dict Str
one_rule = (with_prefix (str "hr") (str "p::alice::read"), str "p,alice,read") ∷ []

add_run : (add_policies table_badger csv_rules (str "hr") (str "p") (reader ∷ []) []).0 ≡ one_rule
unfolding add_policies with_prefix list_beq Dict.insert get_key join convert_rule
add_run = refl

table_reads :
    (t : TableTxn) (k : Str) (e : Error) → table_badger.get t k ≡ err e → e ≡ key_not_found
table_reads t k e h = ground arith

add_policies_atomic_example :
    let db' = (add_policies table_badger csv_rules (str "hr") (str "p") (writer ∷ []) one_rule).0 in
    (table_laws.stored db'
      ≡ added csv_rules (str "hr") (str "p") (writer ∷ []) (table_laws.stored one_rule))
    ⊎ (db' ≡ one_rule)
add_policies_atomic_example =
    add_policies_atomic table_badger table_laws csv_rules (str "hr") (str "p") (writer ∷ [])
      one_rule

add_policies_done_example :
    let (db', e) =
      add_policies table_badger csv_rules (str "hr") (str "p") (writer ∷ []) one_rule in
    (table_laws.stored db'
      ≡ added csv_rules (str "hr") (str "p") (writer ∷ []) (table_laws.stored one_rule))
    × (e ≡ none)
unfolding add_all
add_policies_done_example =
    add_policies_done table_badger table_laws csv_rules (str "hr") (str "p") (writer ∷ []) one_rule
      refl refl

update_policies_lengths_example :
    update_policies table_badger csv_rules (str "hr") (str "p") (reader ∷ []) [] one_rule
    ≡ (one_rule, none)
update_policies_lengths_example =
    update_policies_lengths table_badger table_laws csv_rules (str "hr") (str "p") (reader ∷ []) []
      one_rule (omega arith)

namespaces-Apart_example :
    let k = str "p::alice::read" in
    (table_laws.stored
        (add_policies table_badger csv_rules (str "it") (str "p") (writer ∷ []) one_rule).0
        (with_prefix (str "hr") k)
      ≡ table_laws.stored one_rule (with_prefix (str "hr") k))
    × (table_laws.stored
          (remove_policies table_badger csv_rules (str "it") (str "p") (writer ∷ []) one_rule).0
          (with_prefix (str "hr") k)
        ≡ table_laws.stored one_rule (with_prefix (str "hr") k))
unfolding has_prefix
namespaces-Apart_example =
    namespaces-Apart table_badger table_laws csv_rules (str "it") (str "hr") (str "p")
      (str "p::alice::read") (writer ∷ []) one_rule (refl, refl)

namespaces_overlap_example :
    Dict.lookup (str "rp::alice::read") (bucket_entries table_badger (str "h") one_rule)
    ≡ Dict.lookup (str "p::alice::read") (bucket_entries table_badger (str "hr") one_rule)
namespaces_overlap_example =
    namespaces_overlap table_badger table_laws (str "h") (str "r") (str "p::alice::read") one_rule

list_lem_example :
    Bucket.list table_badger (str "hr") [] (pos 0) (pos 1) false one_rule
    ≡ cut_rows
        (λ k. none)
        (length (with_prefix (str "hr") []))
        (take 1 (
          drop 0
            (table_badger.seek (table_badger.begin one_rule) false (with_prefix (str "hr") []))))
list_lem_example = list_lem table_badger (str "hr") [] 0 1 false one_rule (omega arith)
