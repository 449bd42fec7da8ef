-- ===== src/Fsm/Snapshot/Rebuild.antt =====
-- How `Restore` makes the enforcers anew: each from the text of its model and the entries of its
-- namespace.
use casbin_mesh.Prelude.{
  ◌∙◌, sym, ap, Str, ◌≡◌, refl, true, Option, none, some, List, [], ◌∷◌, arith, ◌==◌, nat_eq,
  list_eq, eq_iff, if◌then◌else◌, has_prefix, length, list_beq, Option-cases, Bool-cases, inl, inr,
}
use casbin_mesh.Result.{Error, ok, err}
use casbin_mesh.Dict
use casbin_mesh.Dict.{Dict, or_else, lookup-insert}
use casbin_mesh.Badger.{Badger, BadgerLaws}
use casbin_mesh.Badger.Same.{scan_same}
use casbin_mesh.Bucket
use casbin_mesh.Bucket.{with_prefix}
use casbin_mesh.Adapter.{new_adapter}
use casbin_mesh.Adapter.Table.{update_fine, update_failed, commit_cases}
use casbin_mesh.Casbin.{Casbin}
use casbin_mesh.Command.{Proto}
use casbin_mesh.Fsm.{State}
use casbin_mesh.Fsm.Snapshot.{SnapshotCodec, restore_namespace, restore_all}

-- An enforcer is initialised through its adapter, so by the entries of its namespace alone.
pub record ReadsItsNamespace {b : Badger} (casbin : Casbin b) : Type 0 where
  pub init_same :
      (m : casbin.Model) (ns : Str) (d d' : b.Db) (e : casbin.Enforcer)
      → Bucket.bucket_entries b ns d ≡ Bucket.bucket_entries b ns d'
      → casbin.init_with_model_and_adapter m ns d e ≡ casbin.init_with_model_and_adapter m ns d' e

module _ (b : Badger) (laws : BadgerLaws b) where
  -- The two databases have the same policies, in every namespace.
  abbrev pub SamePolicies : b.Db → b.Db → Type 0
  SamePolicies d d' = (k : Str) → laws.stored d (1 ∷ k) ≡ laws.stored d' (1 ∷ k)

  under_namespace :
      (ns k : Str) (d d' : b.Db)
      → SamePolicies d d'
      → has_prefix (with_prefix ns []) k ≡ true
      → laws.stored d k ≡ laws.stored d' k
  unfolding with_prefix has_prefix
  under_namespace ns [] d d' same under = cc
  under_namespace ns (c ∷ k) d d' same under = ground (arith, same k, eq_iff 1 c)

  pub bucket_entries_same :
      (ns : Str) (d d' : b.Db)
      → SamePolicies d d'
      → Bucket.bucket_entries b ns d ≡ Bucket.bucket_entries b ns d'
  unfolding Bucket.bucket_entries with_prefix
  bucket_entries_same ns d d' same =
      ap (Bucket.strip (length (with_prefix ns []))) (
        scan_same b laws (with_prefix ns []) d d' (λ k under. under_namespace ns k d d' same under))

  create_bucket-keeps :
      (ns k : Str) (t : b.Txn)
      → (Bucket.create_bucket_if_not_exists b ns t).1 ≡ none
      → laws.content (Bucket.create_bucket_if_not_exists b ns t).0 (1 ∷ k) ≡ laws.content t (1 ∷ k)
  unfolding Bucket.create_bucket_if_not_exists list_beq
  create_bucket-keeps ns k t h = ground (arith, laws.content-set (0 ∷ ns) [] (1 ∷ k) t)

  create_bucket-Live :
      (ns : Str) (t : b.Txn) (d : b.Db)
      → laws.Live t d
      → laws.Live (Bucket.create_bucket_if_not_exists b ns t).0 d
  unfolding Bucket.create_bucket_if_not_exists
  create_bucket-Live ns t d live = ground (arith, live, laws.live-set (0 ∷ ns) [] t d live)

  update-keeps :
      (m : Bucket.Tx b) (d : b.Db) (k : Str)
      → ((m (b.begin d)).1 ≡ none → laws.content (m (b.begin d)).0 k ≡ laws.content (b.begin d) k)
      → laws.Live (m (b.begin d)).0 d
      → laws.stored (Bucket.update b m d).0 k ≡ laws.stored d k
  update-keeps m d k same live = elim (Option-cases (m (b.begin d)).1) [
    | inr (e, bad) ↦ ap (λ d. laws.stored d k) (update_failed b laws m d e bad).0
    | inl fine ↦
        rw (update_fine b laws m d fine) (elim (commit_cases b laws (m (b.begin d)).0 d live) [
          | inl made ↦ ap (λ c. c k) made ∙ same fine ∙ laws.content-begin d k
          | inr kept ↦ ap (λ d. laws.stored d k) kept
        ])
  ]

  -- To register a namespace writes no policy.
  new_adapter_same : (ns : Str) (d : b.Db) → SamePolicies (new_adapter b ns d).0 d
  unfolding new_adapter
  new_adapter_same ns d k = elim (Bool-cases (ns == [])) [
    | inl blank ↦ rw (new_adapter, blank) refl
    | inr named ↦
        rw (new_adapter, named)
          (update-keeps (Bucket.create_bucket_if_not_exists b ns) d (1 ∷ k)
            (create_bucket-keeps ns k (b.begin d))
            (create_bucket-Live ns (b.begin d) d (laws.live-begin d)))
  ]

module _ (b : Badger) (casbin : Casbin b) where
  abbrev initialised : casbin.Enforcer × Option Error → Option casbin.Enforcer
  initialised (e, none) = some e
  initialised (e, some x) = none

  -- A new enforcer with the model of this text and the policies that the database has for the
  -- namespace.
  unfoldable pub built : Str → Str → b.Db → Option casbin.Enforcer
  built ns text db = elim casbin.new_distributed_enforcer [
    | err x ↦ none
    | ok e ↦ elim (casbin.new_model_from_string text) [
      | err x ↦ none
      | ok m ↦ initialised (casbin.init_with_model_and_adapter m ns db e)
    ]
  ]

  abbrev pub built_from : Str → Option Str → b.Db → Option casbin.Enforcer
  built_from ns none db = none
  built_from ns (some text) db = built ns text db

module _ (b : Badger) (laws : BadgerLaws b) (casbin : Casbin b) (reads : ReadsItsNamespace casbin)
    (proto : Proto) (j : SnapshotCodec) where
  built_same :
      (ns : Str) (o : Option Str) (d d' : b.Db)
      → SamePolicies b laws d d'
      → built_from b casbin ns o d ≡ built_from b casbin ns o d'
  unfolding built
  built_same ns none d d' same = refl
  built_same ns (some text) d d' same = grind (
    arith,
    λ (m : casbin.Model) (e : casbin.Enforcer).
        reads.init_same m ns d d' e (bucket_entries_same b laws ns d d' same),
  )

  restore_namespace_same :
      (models : Dict Str) (name : Str) (s : State b casbin proto)
      → SamePolicies b laws (restore_namespace b casbin proto j models name s).0.db s.db
  unfolding restore_namespace
  restore_namespace_same models name s k = ground (arith, new_adapter_same b laws name s.db k)

  restore_namespace-enforcers :
      (models : Dict Str) (name other : Str) (s : State b casbin proto)
      → (restore_namespace b casbin proto j models name s).1 ≡ none
      → Dict.lookup other (restore_namespace b casbin proto j models name s).0.enforcers ≡ (
          if name == other
          then or_else
              (built_from b casbin name (Dict.lookup name models) (new_adapter b name s.db).0)
              (Dict.lookup other s.enforcers)
          else Dict.lookup other s.enforcers)
  unfolding restore_namespace built
  restore_namespace-enforcers models name other s h =
      grind (arith, lookup-insert, eq_iff name other)

  pub restore_all_same :
      (models : Dict Str) (rows : List (Str × Str)) (s : State b casbin proto)
      → SamePolicies b laws (restore_all b casbin proto j models rows s).0.db s.db
  unfolding restore_all
  restore_all_same models [] s k = refl
  restore_all_same models ((name, v) ∷ rows) s k = ground (
    arith,
    restore_namespace_same models name s k,
    restore_all_same models rows (restore_namespace b casbin proto j models name s).0 k,
  )

  one_step :
      (models : Dict Str) (name v : Str) (rows : List (Str × Str)) (s : State b casbin proto)
      → (restore_all b casbin proto j models ((name, v) ∷ rows) s).1 ≡ none
      → ((restore_namespace b casbin proto j models name s).1 ≡ none)
        × (restore_all b casbin proto j models ((name, v) ∷ rows) s
            ≡ restore_all b casbin proto j models rows
                (restore_namespace b casbin proto j models name s).0)
  unfolding restore_all
  one_step models name v rows s h = ground arith

  pub restore_all-enforcers :
      (models : Dict Str) (rows : List (Str × Str)) (name : Str) (s : State b casbin proto)
      (d : b.Db)
      → SamePolicies b laws s.db d
      → (restore_all b casbin proto j models rows s).1 ≡ none
      → Dict.lookup name (restore_all b casbin proto j models rows s).0.enforcers
        ≡ or_else
            (if Dict.has name rows
              then built_from b casbin name (Dict.lookup name models) d
              else none)
            (Dict.lookup name s.enforcers)
  unfolding restore_all Dict.has Dict.lookup
  restore_all-enforcers models [] name s d same h = refl
  restore_all-enforcers models ((k, v) ∷ rows) name s d same h =
      let (first, both) = one_step models k v rows s h in
      let s' = (restore_namespace b casbin proto j models k s).0 in
      let same' : SamePolicies b laws s'.db d = λ i. restore_namespace_same models k s i ∙ same i in
      let made =
        built_same k (Dict.lookup k models) (new_adapter b k s.db).0 d
          (λ i. new_adapter_same b laws k s.db i ∙ same i) in
      ground (
        arith,
        first,
        both,
        made,
        restore_namespace-enforcers models k name s first,
        restore_all-enforcers models rows name s' d same' (ap (λ r. r.1) (sym both) ∙ h),
        eq_iff k name,
      )
