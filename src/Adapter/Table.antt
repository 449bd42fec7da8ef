-- ===== src/Adapter/Table.antt =====
-- What the adapter's operations mean for the stored entries, seen as a function of the key. A
-- transaction body `Implements` a change of that function; an update then makes it, or nothing.
use casbin_mesh.Prelude.{
  ◌∙◌, Str, ◌≡◌, refl, ap, fun_ext, true, Option, none, some, List, [], ◌∷◌, arith, ◌==◌, nat_eq,
  list_eq, if◌then◌else◌, ◌⊎◌, inl, inr, Option-cases,
}
use casbin_mesh.Result.{Error, Result, ok, err}
use casbin_mesh.Badger.{Badger, BadgerLaws}
use casbin_mesh.Bucket
use casbin_mesh.Bucket.{with_prefix, Tx}
use casbin_mesh.Adapter.{RuleCodec, convert_rule, get_key}

abbrev pub Table : Type 0
Table = Str → Option Str

-- One entry is set, or removed.
unfoldable pub write : Str → Option Str → Table → Table
write k o c j = if k == j then o else c j

-- The key of a rule in the store, and the bytes that stand for it.
abbrev pub rule_key : Str → List Str → Str
rule_key ns line = with_prefix ns (get_key line)

abbrev pub bytes_of : Result Str → Option Str
bytes_of (ok v) = some v
bytes_of (err e) = none

unfoldable pub added : RuleCodec → Str → Str → List (List Str) → Table → Table
added j ns ptype [] c = c
added j ns ptype (r ∷ rules) c =
    let line = convert_rule ptype r in
    added j ns ptype rules (write (rule_key ns line) (bytes_of (j.marshal line)) c)

unfoldable pub removed : Str → Str → List (List Str) → Table → Table
removed ns ptype [] c = c
removed ns ptype (r ∷ rules) c =
    removed ns ptype rules (write (rule_key ns (convert_rule ptype r)) none c)

-- A rule that is not there is not replaced.
unfoldable pub replaced : RuleCodec → Str → List Str → List Str → Table → Table
replaced j ns o n c = elim (c (rule_key ns o)) [
  | none ↦ c
  | some v ↦ write (rule_key ns n) (bytes_of (j.marshal n)) (write (rule_key ns o) none c)
]

unfoldable pub replaced_all :
    RuleCodec → Str → Str → List (List Str) → List (List Str) → Table → Table
unfolding replaced
replaced_all j ns ptype (o ∷ olds) (n ∷ news) c =
    replaced_all j ns ptype olds news
      (replaced j ns (convert_rule ptype o) (convert_rule ptype n) c)
replaced_all j ns ptype _ _ c = c

unfoldable pub cleared : List Str → Table → Table
cleared [] c = c
cleared (k ∷ ks) c = cleared ks (write k none c)

module _ (b : Badger) (laws : BadgerLaws b) where
  pub record Implements (m : Tx b) (f : Table → Table) : Type 0 where
    pub at :
        (d : b.Db) (t : b.Txn)
        → laws.Live t d
        → (m t).1 ≡ none
        → (laws.content (m t).0 ≡ f (laws.content t)) × laws.Live (m t).0 d

  pub Implements-done : Implements (Bucket.done b) (λ c. c)
  unfolding Bucket.done
  Implements-done = record { at = λ d t live h. (refl, live) }

  pub Implements-fail : (e : Error) (f : Table → Table) → Implements (Bucket.fail b e) f
  unfolding Bucket.fail
  Implements-fail e f = record { at = λ d t live h. cc }

  pub Implements-set : (k v : Str) → Implements (b.set k v) (write k (some v))
  unfolding write
  Implements-set k v = record {
    at = λ d t live h. (fun_ext (λ j. laws.content-set k v j t h), laws.live-set k v t d live);
  }

  pub Implements-delete : (k : Str) → Implements (b.delete k) (write k none)
  unfolding write
  Implements-delete k = record {
    at = λ d t live h. (fun_ext (λ j. laws.content-delete k j t h), laws.live-delete k t d live);
  }

  seq_cases :
      (m n : Tx b) (t : b.Txn)
      → (Bucket.seq b m n t).1 ≡ none
      → ((m t).1 ≡ none) × ((n (m t).0).1 ≡ none) × (Bucket.seq b m n t ≡ n (m t).0)
  unfolding Bucket.seq
  seq_cases m n t h = ground arith

  pub Implements-seq :
      (m n : Tx b) (f g : Table → Table)
      → Implements m f
      → Implements n g
      → Implements (Bucket.seq b m n) (λ c. g (f c))
  Implements-seq m n f g im ig = record {
    at = λ d t live h.
        let (first, second, both) = seq_cases m n t h in
        let (e, live') = im.at d t live first in
        let (e', live'') = ig.at d (m t).0 live' second in rw both (e' ∙ ap g e, live'');
  }

  stored-begin : (db : b.Db) → laws.content (b.begin db) ≡ laws.stored db
  stored-begin db = fun_ext λ k. laws.content-begin db k

  -- The commit of a transaction writes all of it or none.
  pub commit_cases :
      (t : b.Txn) (db : b.Db)
      → laws.Live t db
      → (laws.stored (b.commit t db).0 ≡ laws.content t) ⊎ ((b.commit t db).0 ≡ db)
  commit_cases t db live = elim (Option-cases (b.commit t db).1) [
    | inl fine ↦ inl (fun_ext λ k. laws.stored-commit t db k live fine)
    | inr (e, bad) ↦ inr (laws.commit_failed t db e bad)
  ]

  pub update_fine :
      (m : Tx b) (db : b.Db)
      → (m (b.begin db)).1 ≡ none
      → Bucket.update b m db ≡ b.commit (m (b.begin db)).0 db
  unfolding Bucket.update
  update_fine m db h = ground arith

  -- An error of the body leaves the database as it is, and is not what the update returns: that is
  -- the error of the commit, and nothing if the body had written nothing.
  pub update_failed :
      (m : Tx b) (db : b.Db) (e : Error)
      → (m (b.begin db)).1 ≡ some e
      → ((Bucket.update b m db).0 ≡ db)
        × (laws.is_clean (m (b.begin db)).0 ≡ true → (Bucket.update b m db).1 ≡ none)
  unfolding Bucket.update
  update_failed m db e bad = (
    ground (arith, laws.commit_discarded (m (b.begin db)).0 db),
    λ clean. ground (arith, laws.commit_clean (m (b.begin db)).0 db clean),
  )

  -- All or nothing: the update made the whole change, or the database is as it was.
  pub update_atomic :
      (m : Tx b) (f : Table → Table) (db : b.Db)
      → Implements m f
      → (laws.stored (Bucket.update b m db).0 ≡ f (laws.stored db))
        ⊎ ((Bucket.update b m db).0 ≡ db)
  update_atomic m f db im = elim (Option-cases (m (b.begin db)).1) [
    | inl fine ↦
        let (e, live) = im.at db (b.begin db) (laws.live-begin db) fine in
        rw (update_fine m db fine) (elim (commit_cases (m (b.begin db)).0 db live) [
          | inl made ↦ inl (made ∙ e ∙ ap f (stored-begin db))
          | inr kept ↦ inr kept
        ])
    | inr (e, bad) ↦ inr (update_failed m db e bad).0
  ]

  -- An update without an error of its body or of its commit made the whole change.
  pub update_done :
      (m : Tx b) (f : Table → Table) (db : b.Db)
      → Implements m f
      → (m (b.begin db)).1 ≡ none
      → (b.commit (m (b.begin db)).0 db).1 ≡ none
      → (laws.stored (Bucket.update b m db).0 ≡ f (laws.stored db))
        × ((Bucket.update b m db).1 ≡ none)
  update_done m f db im fine done =
      let (e, live) = im.at db (b.begin db) (laws.live-begin db) fine in
      rw (update_fine m db fine) (
        fun_ext (λ k. laws.stored-commit (m (b.begin db)).0 db k live done)
            ∙ e
            ∙ ap f (stored-begin db),
        done,
      )
