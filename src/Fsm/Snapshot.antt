-- ===== src/Fsm/Snapshot.antt =====
-- server/store/fsm.go: `Snapshot`, `Persist` and `Restore`. JSON is a parameter. Writing to the sink
-- and reading from it are left out: what is persisted is a text.
pub mod Restored
pub mod Rebuild
pub mod RoundTrip
mod Tests
use casbin_mesh.Prelude.{
  ℕ, Str, Option, none, some, List, [], ◌∷◌, ◌++◌, length, drop, leb, if◌then◌else◌,
}
use casbin_mesh.Result.{Error, Result, ok, err, ◌>>=◌}
use casbin_mesh.Dict
use casbin_mesh.Dict.{Dict}
use casbin_mesh.Badger.{Badger}
use casbin_mesh.Bucket
use casbin_mesh.Bucket.{slice_from}
use casbin_mesh.Adapter.{new_adapter}
use casbin_mesh.Casbin.{Casbin}
use casbin_mesh.Command.{Proto}
use casbin_mesh.Credentials
use casbin_mesh.Credentials.{CredentialsStore, MapCodec, new_credentials_store}
use casbin_mesh.Fsm.{State}

-- `persistData`; a nil slice is `none`.
pub record PersistData : Type 0 where
  pub models : Str
  pub state : Str
  pub meta : Str
  pub credential_store : Option Str

-- encoding/json for what a snapshot holds.
pub record SnapshotCodec : Type 0 where
  pub marshal_data : PersistData → Result Str
  pub unmarshal_data : Str → Result PersistData
  pub marshal_meta : Dict (Dict Str) → Result Str
  pub marshal_models : Dict Str → Result Str
  pub unmarshal_models : Str → Result (Dict Str)
  pub credentials : MapCodec

-- The version 1, in 8 bytes.
unfoldable pub snapshot_hdr : Str
snapshot_hdr = 1 ∷ (0 ∷ (0 ∷ (0 ∷ (0 ∷ (0 ∷ (0 ∷ (0 ∷ [])))))))

unfoldable pub persist : SnapshotCodec → PersistData → Result Str
unfolding snapshot_hdr
persist j f = elim (j.marshal_data f) [
  | err e ↦ err e
  | ok persisted ↦ ok (snapshot_hdr ++ persisted)
]

module _ (b : Badger) (casbin : Casbin b) (proto : Proto) (j : SnapshotCodec) where
  abbrev put_text : Str → casbin.Model → Option (Dict Str) → Option (Dict Str)
  put_text ns m none = none
  put_text ns m (some texts) = some ((ns, casbin.to_text m) ∷ texts)

  -- The texts of the models; `ToText` of a model that is nil panics.
  unfoldable pub models_of : Dict casbin.Enforcer → Option (Dict Str)
  models_of [] = some []
  models_of ((ns, e) ∷ enforcers) =
      let rest = models_of enforcers in
      elim (casbin.get_model e) [ none ↦ none | some m ↦ put_text ns m rest ]

  -- A `bytes.Buffer`, whose `Write` has no error.
  abbrev buffer : Str → Str → Str × Option Error
  buffer text written = (written ++ text, none)

  -- An error is logged, and nothing kept.
  abbrev snapshot_text : Str × Option Error → Option Str
  snapshot_text (written, none) = some written
  snapshot_text (written, some e) = none

  abbrev credentials_text : Option CredentialsStore → Option Str
  credentials_text none = none
  credentials_text (some c) = snapshot_text (Credentials.snapshot j.credentials buffer c [])

  abbrev encoded : Str → Dict Str → Option CredentialsStore → Dict (Dict Str) → Result PersistData
  encoded state texts store metadata = do
    meta ← j.marshal_meta metadata
    models ← j.marshal_models texts
    ok (record {
      models = models;
      state = state;
      meta = meta;
      credential_store = credentials_text store;
    })

  -- The result is `none` on a panic.
  unfoldable pub snapshot : State b casbin proto → Option (Result PersistData)
  unfolding models_of Credentials.snapshot
  snapshot s = elim (b.backup s.db) [
    | err e ↦ some (err e)
    | ok state ↦ elim (models_of s.enforcers) [
      | none ↦ none
      | some texts ↦ some (encoded state texts s.auth_cred_store s.meta)
    ]
  ]

  -- One registered name: without a model in the snapshot it is passed over.
  unfoldable pub restore_namespace :
      Dict Str → Str → State b casbin proto → State b casbin proto × Option Error
  unfolding new_adapter
  restore_namespace models name s = elim (Dict.lookup name models) [
    | none ↦ (s, none)
    | some text ↦ elim casbin.new_distributed_enforcer [
      | err e ↦ (s, some e)
      | ok enforcer ↦
          let (db', x) = new_adapter b name s.db in
          elim x [
            | some e ↦ (record s { db = db' }, some e)
            | none ↦ elim (casbin.new_model_from_string text) [
              | err e ↦ (record s { db = db' }, some e)
              | ok model ↦
                  let (enforcer', y) = casbin.init_with_model_and_adapter model name db' enforcer in
                  elim y [
                    | some e ↦ (record s { db = db' }, some e)
                    | none ↦ (
                      record s { enforcers = Dict.insert name enforcer' s.enforcers; db = db' },
                      none,
                    )
                  ]
            ]
          ]
    ]
  ]

  abbrev go_on :
      (State b casbin proto → State b casbin proto × Option Error)
      → State b casbin proto × Option Error
      → State b casbin proto × Option Error
  go_on k (s, none) = k s
  go_on k (s, some e) = (s, some e)

  -- The first error ends the scan.
  unfoldable pub restore_all :
      Dict Str → List (Str × Str) → State b casbin proto → State b casbin proto × Option Error
  unfolding restore_namespace
  restore_all models [] s = (s, none)
  restore_all models ((name, v) ∷ rows) s =
      go_on (restore_all models rows) (restore_namespace models name s)

  unfoldable pub restore_credentials :
      Option Str → State b casbin proto → State b casbin proto × Option Error
  unfolding Credentials.load new_credentials_store
  restore_credentials none s = (s, none)
  restore_credentials (some text) s =
      elim (Credentials.load j.credentials text new_credentials_store) [
        | err e ↦ (record s { auth_cred_store = some new_credentials_store }, some e)
        | ok c ↦ (record s { auth_cred_store = some c }, none)
      ]

  -- Once the database is loaded, the enforcers are made anew.
  unfoldable pub restore_data :
      PersistData → State b casbin proto → State b casbin proto × Option Error
  unfolding restore_all restore_credentials Bucket.namespaces
  restore_data persisted s =
      let (db', x) = b.load persisted.state s.db in
      elim x [
        | some e ↦ (record s { db = db' }, some e)
        | none ↦
            let s' : State b casbin proto = record s { enforcers = []; db = db' } in
            elim (j.unmarshal_models persisted.models) [
              | err e ↦ (s', some e)
              | ok models ↦
                  go_on (restore_credentials persisted.credential_store)
                    (restore_all models (Bucket.namespaces b db') s')
            ]
      ]

  -- The result is `none` on a panic: a text that is shorter than the header.
  unfoldable pub restore : Str → State b casbin proto → Option (State b casbin proto × Option Error)
  unfolding restore_data
  restore snap s = elim (slice_from 8 snap) [
    | none ↦ none
    | some text ↦ elim (j.unmarshal_data text) [
      | err e ↦ some (s, some e)
      | ok persisted ↦ some (restore_data persisted s)
    ]
  ]
