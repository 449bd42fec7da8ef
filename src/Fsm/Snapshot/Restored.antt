-- ===== src/Fsm/Snapshot/Restored.antt =====
-- What a restore leaves.
use casbin_mesh.Prelude.{
  Str, ◌≡◌, refl, ◌&&◌, ◌||◌, Option, none, some, List, [], ◌∷◌, arith, ◌==◌, nat_eq, list_eq,
  eq_iff,
}
use casbin_mesh.Result.{Error, ok}
use casbin_mesh.Dict
use casbin_mesh.Dict.{Dict, lookup-insert}
use casbin_mesh.Badger.{Badger}
use casbin_mesh.Bucket
use casbin_mesh.Casbin.{Casbin}
use casbin_mesh.Command.{Proto}
use casbin_mesh.Fsm.{State}
use casbin_mesh.Fsm.Snapshot.{
  SnapshotCodec, PersistData, restore_namespace, restore_all, restore_credentials, restore_data,
  restore,
}

module _ (b : Badger) (casbin : Casbin b) (proto : Proto) (j : SnapshotCodec) where
  has-restore_namespace :
      (models : Dict Str) (name other : Str) (s : State b casbin proto)
      → (restore_namespace b casbin proto j models name s).1 ≡ none
      → Dict.has other (restore_namespace b casbin proto j models name s).0.enforcers
        ≡ (Dict.has other s.enforcers || (name == other && Dict.has other models))
  unfolding restore_namespace Dict.has
  has-restore_namespace models name other s h = grind (arith, lookup-insert, eq_iff name other)

  has-restore_all :
      (models : Dict Str) (rows : List (Str × Str)) (name : Str) (s : State b casbin proto)
      → (restore_all b casbin proto j models rows s).1 ≡ none
      → Dict.has name (restore_all b casbin proto j models rows s).0.enforcers
        ≡ (Dict.has name s.enforcers || (Dict.has name rows && Dict.has name models))
  unfolding restore_all Dict.has Dict.lookup
  has-restore_all models [] name s h = ground arith
  has-restore_all models ((k, v) ∷ rows) name s h = ground (
    arith,
    has-restore_namespace models k name s,
    has-restore_all models rows name (restore_namespace b casbin proto j models k s).0,
    eq_iff k name,
  )

  -- After a restore without an error, the namespaces of the node are exactly those that are registered
  -- in the loaded database and have a model in the snapshot.
  pub restored_namespaces :
      (persisted : PersistData) (models : Dict Str) (name : Str) (s : State b casbin proto)
      → j.unmarshal_models persisted.models ≡ ok models
      → (restore_data b casbin proto j persisted s).1 ≡ none
      → Dict.has name (restore_data b casbin proto j persisted s).0.enforcers ≡ (
          Dict.has name (Bucket.namespaces b (b.load persisted.state s.db).0)
          && Dict.has name models)
  unfolding restore_data restore_credentials Dict.has Dict.lookup
  restored_namespaces persisted models name s decoded h = ground (
    arith,
    decoded,
    has-restore_all models (Bucket.namespaces b (b.load persisted.state s.db).0) name
        (record s { enforcers = []; db = (b.load persisted.state s.db).0 }),
  )

  meta-restore_namespace :
      (models : Dict Str) (name : Str) (s : State b casbin proto)
      → (restore_namespace b casbin proto j models name s).0.meta ≡ s.meta
  unfolding restore_namespace
  meta-restore_namespace models name s = ground arith

  meta-restore_all :
      (models : Dict Str) (rows : List (Str × Str)) (s : State b casbin proto)
      → (restore_all b casbin proto j models rows s).0.meta ≡ s.meta
  unfolding restore_all
  meta-restore_all models [] s = refl
  meta-restore_all models ((k, v) ∷ rows) s = ground (
    arith,
    meta-restore_namespace models k s,
    meta-restore_all models rows (restore_namespace b casbin proto j models k s).0,
  )

  pub meta-restore_data :
      (persisted : PersistData) (s : State b casbin proto)
      → (restore_data b casbin proto j persisted s).0.meta ≡ s.meta
  unfolding restore_data restore_credentials
  meta-restore_data persisted s = grind (arith, meta-restore_all)

  -- No restore reads the metadata of the snapshot: whatever the text says, and also after an error, the
  -- node has the metadata of the members that it had before.
  pub restore-meta :
      (snap : Str) (s s' : State b casbin proto) (e : Option Error)
      → restore b casbin proto j snap s ≡ some (s', e)
      → s'.meta ≡ s.meta
  unfolding restore
  restore-meta snap s s' e h = grind (arith, meta-restore_data)
