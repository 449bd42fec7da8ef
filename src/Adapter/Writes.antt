-- ===== src/Adapter/Writes.antt =====
-- The adapter's writes: each is all or nothing, and what each means for the stored entries.
use casbin_mesh.Prelude.{
  sym, Str, ◌≡◌, ◌≢◌, ap, ◌∙◌, none, List, [], ◌∷◌, arith, length, nat_eq, list_eq, eq_iff, ◌⊎◌,
  inl, inr,
}
use casbin_mesh.Result.{ok, Error, err, key_not_found, Result-cases}
use casbin_mesh.Badger.{Badger, BadgerLaws}
use casbin_mesh.Bucket
use casbin_mesh.Bucket.{with_prefix, Tx}
use casbin_mesh.Adapter.{
  RuleCodec, convert_rule, put_line, add_all, add_policies, remove_all, remove_policies,
  delete_line, replace_line, replace_all, update_policies, delete_keys,
}
use casbin_mesh.Adapter.Table.{
  write, rule_key, bytes_of, added, removed, replaced, replaced_all, cleared, Implements,
  Implements-done, Implements-fail, Implements-set, Implements-delete, Implements-seq,
  update_atomic, update_done,
}

module _ (b : Badger) (laws : BadgerLaws b) (j : RuleCodec) where
  put_line_lem :
      (ns : Str) (line : List Str)
      → Implements b laws
          (put_line b j ns line)
          (write (rule_key ns line) (bytes_of (j.marshal line)))
  unfolding put_line Bucket.put
  put_line_lem ns line = elim (Result-cases (j.marshal line)) [
    | inl (v, e) ↦ rw (e, put_line) (Implements-set b laws (rule_key ns line) v)
    | inr (x, e) ↦ rw (e, put_line) (Implements-fail b laws x _)
  ]

  delete_line_lem :
      (ns : Str) (line : List Str)
      → Implements b laws (delete_line b j ns line) (write (rule_key ns line) none)
  unfolding delete_line Bucket.delete
  delete_line_lem ns line = Implements-delete b laws (rule_key ns line)

  add_all_lem :
      (ns ptype : Str) (rules : List (List Str))
      → Implements b laws (add_all b j ns ptype rules) (added j ns ptype rules)
  unfolding add_all added
  add_all_lem ns ptype [] = Implements-done b laws
  add_all_lem ns ptype (r ∷ rules) =
      Implements-seq b laws (put_line b j ns (convert_rule ptype r)) (add_all b j ns ptype rules) _
        _ (put_line_lem ns (convert_rule ptype r)) (add_all_lem ns ptype rules)

  remove_all_lem :
      (ns ptype : Str) (rules : List (List Str))
      → Implements b laws (remove_all b j ns ptype rules) (removed ns ptype rules)
  unfolding remove_all removed
  remove_all_lem ns ptype [] = Implements-done b laws
  remove_all_lem ns ptype (r ∷ rules) =
      Implements-seq b laws (delete_line b j ns (convert_rule ptype r))
        (remove_all b j ns ptype rules) _ _ (delete_line_lem ns (convert_rule ptype r))
        (remove_all_lem ns ptype rules)

  pub delete_keys_lem : (ks : List Str) → Implements b laws (delete_keys b j ks) (cleared ks)
  unfolding delete_keys cleared
  delete_keys_lem [] = Implements-done b laws
  delete_keys_lem (k ∷ ks) =
      Implements-seq b laws (b.delete k) (delete_keys b j ks) _ _ (Implements-delete b laws k)
        (delete_keys_lem ks)

  -- `AddPolicies` is all or nothing: afterwards the store has, behind the namespace, the JSON of every
  -- rule of the batch under the rule's key, and all else as before; or it is the store from before.
  pub add_policies_atomic :
      (ns ptype : Str) (rules : List (List Str)) (db : b.Db)
      → let db' = (add_policies b j ns ptype rules db).0 in
        (laws.stored db' ≡ added j ns ptype rules (laws.stored db)) ⊎ (db' ≡ db)
  unfolding add_policies
  add_policies_atomic ns ptype rules db =
      update_atomic b laws (add_all b j ns ptype rules) (added j ns ptype rules) db
        (add_all_lem ns ptype rules)

  -- `AddPolicies` makes the whole change and returns no error, if no step of its transaction fails and
  -- the commit does not.
  pub add_policies_done :
      (ns ptype : Str) (rules : List (List Str)) (db : b.Db)
      → let t = add_all b j ns ptype rules (b.begin db) in
        t.1 ≡ none
        → (b.commit t.0 db).1 ≡ none
        → let (db', e) = add_policies b j ns ptype rules db in
          (laws.stored db' ≡ added j ns ptype rules (laws.stored db)) × (e ≡ none)
  unfolding add_policies
  add_policies_done ns ptype rules db fine committed =
      update_done b laws (add_all b j ns ptype rules) (added j ns ptype rules) db
        (add_all_lem ns ptype rules) fine committed

  -- `RemovePolicies` is all or nothing: afterwards the store has no entry under the key of any rule of
  -- the batch, and all else as before; or it is the store from before.
  pub remove_policies_atomic :
      (ns ptype : Str) (rules : List (List Str)) (db : b.Db)
      → let db' = (remove_policies b j ns ptype rules db).0 in
        (laws.stored db' ≡ removed ns ptype rules (laws.stored db)) ⊎ (db' ≡ db)
  unfolding remove_policies
  remove_policies_atomic ns ptype rules db =
      update_atomic b laws (remove_all b j ns ptype rules) (removed ns ptype rules) db
        (remove_all_lem ns ptype rules)

module _ (b : Badger) (laws : BadgerLaws b) (j : RuleCodec)
    (reads : (t : b.Txn) (k : Str) (e : Error) → b.get t k ≡ err e → e ≡ key_not_found) where
  -- A read that finds nothing is the only read that fails, so `Exist` tells what the table has.
  replace_line_lem :
      (ns : Str) (o n : List Str) → Implements b laws (replace_line b j ns o n) (replaced j ns o n)
  unfolding replace_line replaced
  replace_line_lem ns o n = record {
    at = λ d t live h. elim (Result-cases (b.get t (rule_key ns o))) [
      | inl (v, e) ↦ present d t live v e h
      | inr (x, e) ↦
          let missing =
            laws.get_missing t (rule_key ns o) (e ∙ ap err (reads t (rule_key ns o) x e)) in
          (ground (arith, missing), ground (arith, missing, live))
    ];
  }
    where
      swap :
          Implements b laws
            (Bucket.seq b (delete_line b j ns o) (put_line b j ns n))
            (λ c. write (rule_key ns n) (bytes_of (j.marshal n)) (write (rule_key ns o) none c))
      swap =
          Implements-seq b laws (delete_line b j ns o) (put_line b j ns n) _ _
            (delete_line_lem b laws j ns o) (put_line_lem b laws j ns n)

      present :
          (d : b.Db) (t : b.Txn)
          → laws.Live t d
          → (v : Str) → b.get t (rule_key ns o) ≡ ok v
          → (replace_line b j ns o n t).1 ≡ none
          → (laws.content (replace_line b j ns o n t).0 ≡ replaced j ns o n (laws.content t))
            × laws.Live (replace_line b j ns o n t).0 d
      present d t live v e h =
          let there = laws.get_found t (rule_key ns o) v e in
          let swapped : replace_line b j ns o n t
              ≡ Bucket.seq b (delete_line b j ns o) (put_line b j ns n) t =
            ground arith in
          let both = swap.at d t live (sym (ap (λ r. r.1) swapped) ∙ h) in
          rw swapped (both.0 ∙ ground (arith, there), both.1)

  replace_all_lem :
      (ns ptype : Str) (olds news : List (List Str))
      → Implements b laws (replace_all b j ns ptype olds news) (replaced_all j ns ptype olds news)
  unfolding replace_all replaced_all
  replace_all_lem ns ptype (o ∷ olds) (n ∷ news) =
      Implements-seq b laws (replace_line b j ns (convert_rule ptype o) (convert_rule ptype n))
        (replace_all b j ns ptype olds news) _ _
        (replace_line_lem ns (convert_rule ptype o) (convert_rule ptype n))
        (replace_all_lem ns ptype olds news)
  replace_all_lem ns ptype [] news = Implements-done b laws
  replace_all_lem ns ptype (o ∷ olds) [] = Implements-done b laws

  -- `UpdatePolicies` with as many new rules as old ones is all or nothing, where a read fails only for
  -- a missing key: each old rule that is there when its turn comes is replaced by the new rule at its
  -- place, or the store is as it was.
  pub update_policies_atomic :
      (ns ptype : Str) (olds news : List (List Str)) (db : b.Db)
      → length olds ≡ length news
      → let db' = (update_policies b j ns ptype olds news db).0 in
        (laws.stored db' ≡ replaced_all j ns ptype olds news (laws.stored db)) ⊎ (db' ≡ db)
  unfolding update_policies
  update_policies_atomic ns ptype olds news db same =
      rw ((eq_iff (length olds) (length news)).1 same) (
        update_atomic b laws (replace_all b j ns ptype olds news)
          (replaced_all j ns ptype olds news) db (replace_all_lem ns ptype olds news))

  -- `UpdatePolicies` with as many new rules as old ones makes the whole change and returns no error, if
  -- no step of its transaction fails, the commit does not, and a read fails only for a missing key.
  pub update_policies_done :
      (ns ptype : Str) (olds news : List (List Str)) (db : b.Db)
      → length olds ≡ length news
      → let t = replace_all b j ns ptype olds news (b.begin db) in
        t.1 ≡ none
        → (b.commit t.0 db).1 ≡ none
        → let (db', e) = update_policies b j ns ptype olds news db in
          (laws.stored db' ≡ replaced_all j ns ptype olds news (laws.stored db)) × (e ≡ none)
  unfolding update_policies
  update_policies_done ns ptype olds news db same fine committed =
      rw ((eq_iff (length olds) (length news)).1 same) (
        update_done b laws (replace_all b j ns ptype olds news) (replaced_all j ns ptype olds news)
          db (replace_all_lem ns ptype olds news) fine committed)

-- With lists of different lengths the body of `UpdatePolicies` fails and nothing is written, but the
-- caller gets no error: `Update` returns what the commit of the discarded transaction returns.
pub update_policies_lengths :
    (b : Badger) (laws : BadgerLaws b) (j : RuleCodec) (ns ptype : Str)
    (olds news : List (List Str)) (db : b.Db)
    → length olds ≢ length news
    → update_policies b j ns ptype olds news db ≡ (db, none)
unfolding update_policies Bucket.update Bucket.fail
update_policies_lengths b laws j ns ptype olds news db differ = ground (
  arith,
  eq_iff (length olds) (length news),
  laws.commit_clean (b.begin db) db (laws.clean-begin db),
)
