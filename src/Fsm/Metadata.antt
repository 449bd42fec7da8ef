-- ===== src/Fsm/Metadata.antt =====
-- The metadata of the nodes: `Store.Metadata` of server/store/store.go reads what the log entries
-- wrote.
use casbin_mesh.Prelude.{
  Str, ◌≡◌, Option, none, some, [], arith, ◌==◌, nat_eq, list_eq, if◌then◌else◌, eq_iff,
}
use casbin_mesh.Result.{ok}
use casbin_mesh.Dict
use casbin_mesh.Dict.{Dict, lookup-insert, lookup-delete, lookup-insert_all, or_else}
use casbin_mesh.Badger.{Badger}
use casbin_mesh.Casbin.{Casbin}
use casbin_mesh.Command.{Proto, MetadataSet}
use casbin_mesh.Fsm.{State, apply_metadata_set, apply_metadata_delete, succeeded, or_empty}

abbrev pub text_of : Option Str → Str
text_of none = []
text_of (some v) = v

abbrev value_of : Str → Option (Dict Str) → Str
value_of key none = []
value_of key (some m) = text_of (Dict.lookup key m)

module _ (b : Badger) (casbin : Casbin b) (proto : Proto) where
  -- A blank text where the node or the key is missing.
  unfoldable pub metadata : Str → Str → State b casbin proto → Str
  metadata id key s = value_of key (Dict.lookup id s.meta)

  abbrev added : MetadataSet → State b casbin proto → Dict Str
  added ms s = Dict.insert_all ms.entries (or_empty b casbin proto (Dict.lookup ms.raft_id s.meta))

  abbrev pub new_value : Option Str → Str → Str
  new_value none old = old
  new_value (some v) old = v

  set_value :
      (payload : Str) (ms : MetadataSet) (s : State b casbin proto)
      → proto.metadata.unmarshal payload ≡ ok ms
      → Dict.IsUnique ms.entries
      → (id key : Str)
      → metadata id key (apply_metadata_set b casbin proto payload s).0 ≡ (
          if ms.raft_id == id
          then new_value (Dict.lookup key ms.entries) (metadata id key s)
          else metadata id key s)
  unfolding apply_metadata_set metadata Dict.lookup
  set_value payload ms s e unique id key = ground (
    arith,
    lookup-insert ms.raft_id id (added ms s) s.meta,
    lookup-insert_all key ms.entries (or_empty b casbin proto (Dict.lookup ms.raft_id s.meta))
        unique,
    eq_iff ms.raft_id id,
  )

  -- A METADATA_SET entry adds its values to those of its node, over what they had, and leaves the
  -- metadata of the other nodes, the enforcers and the database alone.
  pub metadata_set_lem :
      (payload : Str) (ms : MetadataSet) (s : State b casbin proto)
      → proto.metadata.unmarshal payload ≡ ok ms
      → Dict.IsUnique ms.entries
      → let (s', r) = apply_metadata_set b casbin proto payload s in
        ((id key : Str)
          → metadata id key s' ≡ (
              if ms.raft_id == id
              then new_value (Dict.lookup key ms.entries) (metadata id key s)
              else metadata id key s))
        × (s'.enforcers ≡ s.enforcers)
        × (s'.db ≡ s.db)
        × (r ≡ succeeded)
  unfolding apply_metadata_set metadata
  metadata_set_lem payload ms s e unique =
      (λ id key. set_value payload ms s e unique id key, ground arith, ground arith, ground arith)

  -- After a METADATA_DELETE entry its node has no metadata; the others have theirs.
  pub metadata_delete_lem :
      (payload removed id key : Str) (s : State b casbin proto)
      → proto.metadata_id.unmarshal payload ≡ ok removed
      → metadata id key (apply_metadata_delete b casbin proto payload s).0
        ≡ (if removed == id then [] else metadata id key s)
  unfolding apply_metadata_delete metadata
  metadata_delete_lem payload removed id key s e = ground (arith, lookup-delete removed id s.meta)
