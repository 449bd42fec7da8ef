-- ===== src/Adapter/Keys.antt =====
-- Which entries an operation of the adapter can reach: namespaces side by side in one store, and the
-- filtered removal.
use mathlib.Core.List.{append-nil, append_assoc}
use casbin_mesh.Prelude.{
  Str, ◌≡◌, ◌≢◌, refl, sym, ap, ◌∙◌, false, Option, none, List, [], ◌∷◌, ◌++◌, arith, ◌==◌, nat_eq,
  list_eq, eq_iff, inl, inr, Bool-cases, has_prefix,
}
use casbin_mesh.Dict
use casbin_mesh.Badger.{Badger, BadgerLaws}
use casbin_mesh.Bucket
use casbin_mesh.Bucket.{with_prefix, bucket_entries, prefix_policies}
use casbin_mesh.Bucket.Scan.{bucket_entries_lem}
use casbin_mesh.Adapter.{RuleCodec, convert_rule, get_key, add_policies, remove_policies}
use casbin_mesh.Adapter.Table.{Table, write, rule_key, added, removed}
use casbin_mesh.Adapter.Writes.{add_policies_atomic, remove_policies_atomic}

-- Neither name begins with the other.
abbrev pub Apart : Str → Str → Type 0
Apart m n = (has_prefix m n ≡ false) × (has_prefix n m ≡ false)

append-Apart : (m n a c : Str) → Apart m n → m ++ a ≢ n ++ c
unfolding has_prefix
append-Apart [] n a c h e = cc h.0
append-Apart (x ∷ m) [] a c h e = cc h.1
append-Apart (x ∷ m) (y ∷ n) a c h e =
    append-Apart m n a c (ground (arith, eq_iff x y, eq_iff y x)) (ground arith)

rule_key-Apart :
    (m n : Str) (line : List Str) (k : Str)
    → Apart m n
    → (rule_key m line == with_prefix n k) ≡ false
unfolding with_prefix
rule_key-Apart m n line k h = elim (Bool-cases (rule_key m line == with_prefix n k)) [
  | inl hit ↦ absurd (
      append-Apart m n (get_key line) k h
        (ground (arith, eq_iff (rule_key m line) (with_prefix n k))))
  | inr miss ↦ miss
]

module _ (m n : Str) (h : Apart m n) (k : Str) where
  write-Apart :
      (line : List Str) (o : Option Str) (c : Table)
      → write (rule_key m line) o c (with_prefix n k) ≡ c (with_prefix n k)
  unfolding write
  write-Apart line o c = rw (rule_key-Apart m n line k h)

  added-Apart :
      (j : RuleCodec) (ptype : Str) (rules : List (List Str)) (c : Table)
      → added j m ptype rules c (with_prefix n k) ≡ c (with_prefix n k)
  unfolding added
  added-Apart j ptype [] c = refl
  added-Apart j ptype (r ∷ rules) c =
      added-Apart j ptype rules _ ∙ write-Apart (convert_rule ptype r) _ c

  removed-Apart :
      (ptype : Str) (rules : List (List Str)) (c : Table)
      → removed m ptype rules c (with_prefix n k) ≡ c (with_prefix n k)
  unfolding removed
  removed-Apart ptype [] c = refl
  removed-Apart ptype (r ∷ rules) c =
      removed-Apart ptype rules _ ∙ write-Apart (convert_rule ptype r) none c

-- Adding and removing rules in a namespace leaves every entry of another namespace alone, if
-- neither name begins with the other.
pub namespaces-Apart :
    (b : Badger) (laws : BadgerLaws b) (j : RuleCodec) (m n ptype k : Str) (rules : List (List Str))
    (db : b.Db)
    → Apart m n
    → (laws.stored (add_policies b j m ptype rules db).0 (with_prefix n k)
        ≡ laws.stored db (with_prefix n k))
      × (laws.stored (remove_policies b j m ptype rules db).0 (with_prefix n k)
          ≡ laws.stored db (with_prefix n k))
namespaces-Apart b laws j m n ptype k rules db h = (
  elim (add_policies_atomic b laws j m ptype rules db) [
    | inl made ↦ ap (λ c. c (with_prefix n k)) made ∙ added-Apart m n h k j ptype rules _
    | inr kept ↦ ap (λ d. laws.stored d (with_prefix n k)) kept
  ],
  elim (remove_policies_atomic b laws j m ptype rules db) [
    | inl made ↦ ap (λ c. c (with_prefix n k)) made ∙ removed-Apart m n h k ptype rules _
    | inr kept ↦ ap (λ d. laws.stored d (with_prefix n k)) kept
  ],
)

-- Nothing parts a namespace from its keys: a namespace holds every entry of each longer namespace
-- that begins with it, under a key with the rest of the longer name in front.
pub namespaces_overlap :
    (b : Badger) (laws : BadgerLaws b) (n rest k : Str) (db : b.Db)
    → Dict.lookup (rest ++ k) (bucket_entries b n db)
      ≡ Dict.lookup k (bucket_entries b (n ++ rest) db)
unfolding with_prefix
namespaces_overlap b laws n rest k db =
    bucket_entries_lem b laws n (rest ++ k) db
    ∙ ap (laws.stored db) same_key
    ∙ sym (bucket_entries_lem b laws (n ++ rest) k db)
  where
    same_key : with_prefix n [] ++ (rest ++ k) ≡ with_prefix (n ++ rest) [] ++ k
    same_key = simp (append-nil, append_assoc)
