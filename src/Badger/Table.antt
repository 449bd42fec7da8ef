-- ===== src/Badger/Table.antt =====
-- A database that is an association list, and meets the laws: so the laws can hold.
use mathlib.Core.List.{reverse}
use casbin_mesh.Prelude.{
  sym, ap, ◌∙◌, Str, str, ◌≡◌, refl, Bool, true, false, Option, none, some, [], ◌++◌, ◌∷◌, arith,
  ◌∙◌, ap, sym, nat_eq, list_eq, if◌then◌else◌,
}
use casbin_mesh.Result.{Error, Result, ok, err, key_not_found, message}
use casbin_mesh.Dict
use casbin_mesh.Dict.{Dict, lookup-insert, lookup-delete}
use casbin_mesh.Badger.{str_leb, Badger, BadgerLaws, BackupLaws}
use casbin_mesh.Badger.Text.{to_text, of_text, of_text-to_text}
use casbin_mesh.Badger.Sorted.{
  in_order, from_key, in_order-IsAscending, lookup-in_order, from_key-IsAscending, from_key-AllFrom,
  lookup-from_key,
}

pub record TableTxn : Type 0 where
  pub entries : Dict Str
  pub clean : Bool
  pub discarded : Bool

abbrev found : Option Str → Result Str
found none = err key_not_found
found (some v) = ok v

abbrev pub table_badger : Badger
table_badger = record {
  Db = Dict Str;
  Txn = TableTxn;
  begin = λ d. record { entries = d; clean = true; discarded = false };
  get = λ t k. found (Dict.lookup k t.entries);
  set = λ k v t. (record t { entries = Dict.insert k v t.entries; clean = false }, none);
  delete = λ k t. (record t { entries = Dict.delete k t.entries; clean = false }, none);
  discard = λ t. record t { discarded = true };
  commit = λ t d.
      if t.discarded
      then (d, if t.clean then none else some (message (str "Trying to commit a discarded txn")))
      else (t.entries, none);
  seek = λ t back p. if back then reverse (in_order t.entries) else from_key p (in_order t.entries);
  value_error = λ t k. none;
  view_error = λ d. none;
  kept = λ rows ks. ks;
  backup = λ d. ok (to_text d);
  load = λ s d. (of_text s ++ d, none);
}

found_ok : (o : Option Str) (v : Str) → found o ≡ ok v → o ≡ some v
found_ok o v h = ground arith

found_missing : (o : Option Str) (e : Error) → found o ≡ err e → o ≡ none
found_missing o e h = ground arith

commit_failed_table :
    (t : TableTxn) (d : Dict Str) (e : Error)
    → (table_badger.commit t d).1 ≡ some e
    → (table_badger.commit t d).0 ≡ d
commit_failed_table t d e h = ground arith

commit_clean_table :
    (t : TableTxn) (d : Dict Str)
    → t.clean ≡ true
    → table_badger.commit (table_badger.discard t) d ≡ (d, none)
commit_clean_table t d h = ground arith

stored-commit_table :
    (t : TableTxn) (d : Dict Str) (k : Str)
    → t.discarded ≡ false
    → (table_badger.commit t d).1 ≡ none
    → Dict.lookup k (table_badger.commit t d).0 ≡ Dict.lookup k t.entries
stored-commit_table t d k live h = ground arith

lookup-seek_table :
    (m : Dict Str) (p k : Str)
    → Dict.lookup k (from_key p (in_order m)) ≡ (if str_leb p k then Dict.lookup k m else none)
lookup-seek_table m p k = ground (arith, lookup-from_key p k (in_order m), lookup-in_order k m)

pub table_laws : BadgerLaws table_badger
table_laws = record {
  stored = λ d k. Dict.lookup k d;
  content = λ t k. Dict.lookup k t.entries;
  Live = λ t d. t.discarded ≡ false;
  live-begin = λ d. refl;
  live-set = λ k v t d h. h;
  live-delete = λ k t d h. h;
  is_clean = λ t. t.clean;
  content-begin = λ d k. refl;
  clean-begin = λ d. refl;
  get_found = λ t k v. found_ok (Dict.lookup k t.entries) v;
  get_missing = λ t k. found_missing (Dict.lookup k t.entries) key_not_found;
  content-set = λ k v j t h. lookup-insert k j v t.entries;
  content-delete = λ k j t h. lookup-delete k j t.entries;
  stored-commit = stored-commit_table;
  commit_failed = commit_failed_table;
  commit_discarded = λ t d. refl;
  commit_clean = commit_clean_table;
  seek_from = λ t p. from_key-AllFrom p (in_order t.entries);
  seek_ascending =
      λ t p. from_key-IsAscending p (in_order t.entries) (in_order-IsAscending t.entries);
  lookup-seek = λ t p k. lookup-seek_table t.entries p k;
}

lookup-append :
    (k : Str) (m n : Dict Str) → Dict.lookup k n ≡ none → Dict.lookup k (m ++ n) ≡ Dict.lookup k m
unfolding Dict.lookup
lookup-append k [] n h = h
lookup-append k ((j, w) ∷ m) n h = ground (arith, lookup-append k m n h)

stored-load_table :
    (text : Str) (d empty : Dict Str) (k : Str)
    → table_badger.backup d ≡ ok text
    → ((j : Str) → Dict.lookup j empty ≡ none)
    → (table_badger.load text empty).1 ≡ none
    → Dict.lookup k (table_badger.load text empty).0 ≡ Dict.lookup k d
stored-load_table text d empty k saved blank loaded =
    let same : to_text d ≡ text = ground (arith, saved) in
    lookup-append k (of_text text) empty (blank k)
    ∙ ap (λ t. Dict.lookup k (of_text t)) (sym same)
    ∙ ap (Dict.lookup k) (of_text-to_text d)

pub table_backup : BackupLaws table_badger table_laws
unfolding table_laws
table_backup = record { stored-load = stored-load_table }

pub stored_table : (d : Dict Str) (k : Str) → table_laws.stored d k ≡ Dict.lookup k d
unfolding table_laws
stored_table d k = refl
