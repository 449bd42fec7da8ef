-- ===== src/Fsm/Snapshot/RoundTrip.antt =====
-- `Restore` of what `Snapshot` and `Persist` wrote, at a node whose database is empty.
use casbin_mesh.Prelude.{
  ◌∙◌, sym, ap, Str, ◌≡◌, refl, Option, none, some, [], ◌∷◌, ◌++◌, arith, nat_eq, list_eq,
  Option-cases, inl, inr, if◌then◌else◌,
}
use casbin_mesh.Result.{Result-cases, ok}
use casbin_mesh.Dict
use casbin_mesh.Dict.{Dict, or_else}
use casbin_mesh.Badger.{Badger, BadgerLaws, BackupLaws}
use casbin_mesh.Bucket
use casbin_mesh.Bucket.{slice_from}
use casbin_mesh.Bucket.Scan.{namespaces_lem}
use casbin_mesh.Casbin.{Casbin}
use casbin_mesh.Command.{Proto}
use casbin_mesh.Fsm.{State}
use casbin_mesh.Fsm.Snapshot.{
  SnapshotCodec, PersistData, snapshot, snapshot_hdr, persist, models_of, restore, restore_data,
  restore_all, restore_credentials,
}
use casbin_mesh.Fsm.Snapshot.Restored.{meta-restore_data}
use casbin_mesh.Fsm.Snapshot.Rebuild.{
  ReadsItsNamespace, SamePolicies, built_from, restore_all_same, restore_all-enforcers,
}

-- JSON reads back what it wrote; of texts, only those in UTF-8. A map comes back with its entries in
-- some order.
pub record SnapshotCodecLaws (j : SnapshotCodec) : Type 1 where
  pub IsText : Dict Str → Type 0
  pub decoded : (d : PersistData) (t : Str) → j.marshal_data d ≡ ok t → j.unmarshal_data t ≡ ok d
  pub lookup-decoded :
      (m m' : Dict Str) (t name : Str)
      → IsText m
      → j.marshal_models m ≡ ok t
      → j.unmarshal_models t ≡ ok m'
      → Dict.lookup name m' ≡ Dict.lookup name m

slice_header : (t : Str) → slice_from 8 (snapshot_hdr ++ t) ≡ some t
unfolding slice_from snapshot_hdr
slice_header t = ground arith

module _ (b : Badger) (casbin : Casbin b) (proto : Proto) (j : SnapshotCodec) where
  abbrev model_text : Option casbin.Model → Option Str
  model_text none = none
  model_text (some m) = some (casbin.to_text m)

  abbrev pub text_of : Option casbin.Enforcer → Option Str
  text_of none = none
  text_of (some e) = model_text (casbin.get_model e)

  lookup-models_of :
      (name : Str) (es : Dict casbin.Enforcer) (texts : Dict Str)
      → models_of b casbin proto j es ≡ some texts
      → Dict.lookup name texts ≡ text_of (Dict.lookup name es)
  unfolding models_of Dict.lookup
  lookup-models_of name [] texts h = ground (arith, h)
  lookup-models_of name ((k, e) ∷ es) texts h = elim (Option-cases (casbin.get_model e)) [
    | inl unset ↦ ground (arith, h, unset)
    | inr (m, set) ↦ elim (Option-cases (models_of b casbin proto j es)) [
      | inl panics ↦ ground (arith, h, set, panics)
      | inr (rest, fine) ↦ ground (arith, h, set, fine, lookup-models_of name es rest fine)
    ]
  ]

  -- What a snapshot without an error or a panic holds.
  snapshot_parts :
      (s : State b casbin proto) (f : PersistData)
      → snapshot b casbin proto j s ≡ some (ok f)
      → (b.backup s.db ≡ ok f.state)
        × ((texts : Dict Str) × (models_of b casbin proto j s.enforcers ≡ some texts)
            × (j.marshal_models texts ≡ ok f.models))
  unfolding snapshot
  snapshot_parts s f h = elim (Option-cases (models_of b casbin proto j s.enforcers)) [
    | inl panics ↦ ground (arith, h, panics)
    | inr (texts, fine) ↦ (ground (arith, h, fine), (texts, fine, ground (arith, h, fine)))
  ]

  restored_text :
      (codec : SnapshotCodecLaws j) (f : PersistData) (text : Str) (s : State b casbin proto)
      → persist j f ≡ ok text
      → restore b casbin proto j text s ≡ some (restore_data b casbin proto j f s)
  unfolding persist restore
  restored_text codec f text s h = elim (Result-cases (j.marshal_data f)) [
    | inr (e, bad) ↦ ground (arith, h, bad)
    | inl (t, fine) ↦
        let same : snapshot_hdr ++ t ≡ text = ground (arith, h, fine) in
        rw (restore, sym same, slice_header t, codec.decoded f t fine) refl
  ]

module _ (b : Badger) (laws : BadgerLaws b) (backup : BackupLaws b laws) (casbin : Casbin b)
    (reads : ReadsItsNamespace casbin) (proto : Proto) (j : SnapshotCodec)
    (codec : SnapshotCodecLaws j) where
  has-namespaces_same :
      (name : Str) (d d' : b.Db)
      → laws.stored d (0 ∷ name) ≡ laws.stored d' (0 ∷ name)
      → Dict.has name (Bucket.namespaces b d) ≡ Dict.has name (Bucket.namespaces b d')
  unfolding Dict.has
  has-namespaces_same name d d' same =
      ground (arith, namespaces_lem b laws name d, namespaces_lem b laws name d', same)

  -- The database after the load, and how the restore goes on there.
  loaded_parts :
      (f : PersistData) (s : State b casbin proto)
      → (restore_data b casbin proto j f s).1 ≡ none
      → let d = (b.load f.state s.db).0 in
        ((b.load f.state s.db).1 ≡ none)
        × ((models : Dict Str) × (j.unmarshal_models f.models ≡ ok models)
            × (let r =
                  restore_all b casbin proto j models
                    (Bucket.namespaces b d)
                    (record s { enforcers = []; db = d }) in
                (r.1 ≡ none)
                × ((restore_data b casbin proto j f s).0.db ≡ r.0.db)
                × ((restore_data b casbin proto j f s).0.enforcers ≡ r.0.enforcers)))
  unfolding restore_data restore_credentials
  loaded_parts f s h = elim (Option-cases (b.load f.state s.db).1) [
    | inr (e, bad) ↦ ground (arith, h, bad)
    | inl fine ↦ elim (Result-cases (j.unmarshal_models f.models)) [
      | inr (e, bad) ↦ ground (arith, h, fine, bad)
      | inl (models, decoded) ↦ (
        fine,
        (
          models,
          decoded,
          (
            ground (arith, h, fine, decoded),
            ground (arith, h, fine, decoded),
            ground (arith, h, fine, decoded),
          ),
        ),
      )
    ]
  ]

  -- A snapshot is taken without a panic, written, and restored at a node whose database is empty. Where that ends without an
  -- error, the text is read back as it was, every policy is there, and the node has an enforcer for
  -- exactly the namespaces that are registered in the database of the snapshot and have an enforcer
  -- there: a new one, from the text of the model and the policies. The metadata are those that the
  -- node had before. Names and models must be texts in UTF-8.
  pub restore-snapshot :
      (s s2 : State b casbin proto) (f : PersistData) (text name : Str)
      → snapshot b casbin proto j s ≡ some (ok f)
      → ((kept : Dict Str) → models_of b casbin proto j s.enforcers ≡ some kept → codec.IsText kept)
      → persist j f ≡ ok text
      → ((k : Str) → laws.stored s2.db k ≡ none)
      → (restore_data b casbin proto j f s2).1 ≡ none
      → let s' = (restore_data b casbin proto j f s2).0 in
        (restore b casbin proto j text s2 ≡ some (s', none))
        × (Dict.lookup name s'.enforcers ≡ (
            if Dict.has name (Bucket.namespaces b s.db)
            then built_from b casbin name
                (text_of b casbin proto j (Dict.lookup name s.enforcers))
                s.db
            else none))
        × SamePolicies b laws s'.db s.db
        × (s'.meta ≡ s2.meta)
  unfolding Dict.lookup
  restore-snapshot s s2 f text name taken texts written blank fine =
      let (saved, (kept, all_set, marshalled)) = snapshot_parts b casbin proto j s f taken in
      let (loaded, (models, decoded, (all_fine, same_db, same_enforcers))) =
        loaded_parts f s2 fine in
      let d = (b.load f.state s2.db).0 in
      let restored : (k : Str) → laws.stored d k ≡ laws.stored s.db k =
        λ k. backup.stored-load f.state s.db s2.db k saved blank loaded in
      let fresh : State b casbin proto = record s2 { enforcers = []; db = d } in
      let rows = Bucket.namespaces b d in
      (
        restored_text b casbin proto j codec f text s2 written
            ∙ ap (λ e. some ((restore_data b casbin proto j f s2).0, e)) fine,
        ground (
          arith,
          same_enforcers,
          restore_all-enforcers b laws casbin reads proto j models rows name fresh s.db
              (λ k. restored (1 ∷ k)) all_fine,
          has-namespaces_same name d s.db (restored (0 ∷ name)),
          codec.lookup-decoded kept models f.models name (texts kept all_set) marshalled decoded,
          lookup-models_of b casbin proto j name s.enforcers kept all_set,
        ),
        λ k.
            ap (λ d. laws.stored d (1 ∷ k)) same_db
            ∙ restore_all_same b laws casbin reads proto j models rows fresh k
            ∙ restored (1 ∷ k),
        meta-restore_data b casbin proto j f s2,
      )
