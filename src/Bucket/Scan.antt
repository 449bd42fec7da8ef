-- ===== src/Bucket/Scan.antt =====
-- `Bucket.ForEach` and `BadgerStore.ForEach` visit exactly the entries under their prefix.
use casbin_mesh.Prelude.{
  Str, ◌≡◌, refl, true, false, List, [], ◌∷◌, ◌++◌, length, drop, arith, has_prefix,
  has_prefix-append, nat_eq, list_eq, eq_iff,
}
use casbin_mesh.Dict
use casbin_mesh.Badger.{Badger, BadgerLaws}
use casbin_mesh.Badger.Order.{while_prefix, lookup-while_prefix, prefix-le}
use casbin_mesh.Bucket.{with_prefix, strip, bucket_entries, namespaces, prefix_namespace}

-- Every key has the prefix.
abbrev pub AllUnder : Str → List (Str × Str) → Type 0
AllUnder p [] = Unit
AllUnder p ((k, v) ∷ m) = (has_prefix p k ≡ true) × AllUnder p m

while_prefix-AllUnder : (p : Str) (m : List (Str × Str)) → AllUnder p (while_prefix p m)
unfolding while_prefix
while_prefix-AllUnder p [] = tt
while_prefix-AllUnder p ((k, v) ∷ m) = ground (arith, while_prefix-AllUnder p m)

-- A key with the prefix is the prefix and what is left of it.
split_prefix : (p k : Str) → has_prefix p k ≡ true → p ++ drop (length p) k ≡ k
unfolding has_prefix
split_prefix [] k h = refl
split_prefix (x ∷ p) [] h = cc
split_prefix (x ∷ p) (y ∷ k) h = ground (arith, split_prefix p k, eq_iff x y)

append_cancel : (p a b : Str) → p ++ a ≡ p ++ b → a ≡ b
append_cancel [] a b e = e
append_cancel (x ∷ p) a b e = append_cancel p a b (ground arith)

lookup-strip :
    (p j : Str) (m : List (Str × Str))
    → AllUnder p m
    → Dict.lookup j (strip (length p) m) ≡ Dict.lookup (p ++ j) m
unfolding Dict.lookup strip
lookup-strip p j [] u = refl
lookup-strip p j ((k, v) ∷ m) u = ground (
  arith,
  lookup-strip p j m u.1,
  split_prefix p k u.0,
  append_cancel p (drop (length p) k) j,
  eq_iff k (p ++ j),
  eq_iff (drop (length p) k) j,
)

module _ (b : Badger) (laws : BadgerLaws b) where
  scan_lem :
      (p j : Str) (db : b.Db)
      → Dict.lookup j (strip (length p) (while_prefix p (b.seek (b.begin db) false p)))
        ≡ laws.stored db (p ++ j)
  scan_lem p j db = ground (
    arith,
    lookup-strip p j (while_prefix p (b.seek (b.begin db) false p)) (while_prefix-AllUnder p _),
    lookup-while_prefix p (p ++ j) (b.seek (b.begin db) false p)
        (laws.seek_ascending (b.begin db) p) (laws.seek_from (b.begin db) p),
    laws.lookup-seek (b.begin db) p (p ++ j),
    has_prefix-append p j,
    prefix-le p (p ++ j),
    laws.content-begin db (p ++ j),
  )

  -- The function that is given to `Bucket.ForEach` sees a key with a value exactly if the store has
  -- it behind the bucket's prefix.
  pub bucket_entries_lem :
      (namespace j : Str) (db : b.Db)
      → Dict.lookup j (bucket_entries b namespace db)
        ≡ laws.stored db (with_prefix namespace [] ++ j)
  unfolding bucket_entries
  bucket_entries_lem namespace j db = scan_lem (with_prefix namespace []) j db

  -- `BadgerStore.ForEach` visits a name exactly if the store has the name's registration.
  pub namespaces_lem :
      (name : Str) (db : b.Db)
      → Dict.lookup name (namespaces b db) ≡ laws.stored db (prefix_namespace ++ name)
  unfolding namespaces
  namespaces_lem name db = scan_lem prefix_namespace name db
