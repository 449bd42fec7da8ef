-- ===== src/Store/Members.antt =====
-- Joining, leaving, and the metadata of the members.
use casbin_mesh.Prelude.{
  Str, Bool, true, false, ◌≡◌, ◌≢◌, refl, none, some, List, [], ◌∷◌, arith, nat_eq, list_eq, eq_iff,
  eq_refl, Option-cases, Bool-cases, ◌⊎◌, inl, inr,
}
use casbin_mesh.Result.{ok, not_leader}
use casbin_mesh.Dict
use casbin_mesh.Dict.{Dict}
use casbin_mesh.Badger.{Badger}
use casbin_mesh.Casbin.{Casbin}
use casbin_mesh.Command
use casbin_mesh.Command.{Command, Proto, MetadataSet}
use casbin_mesh.Fsm.{apply_metadata_set, apply_command, apply}
use casbin_mesh.Fsm.Metadata.{metadata, metadata_set_lem, text_of}
use casbin_mesh.Store.{Raft, Server, Node, observe, wait}
use casbin_mesh.Store.Membership.{
  join, agrees, has_metadata, set_metadata, remove, scan_servers, already_member,
}
use casbin_mesh.Store.Writes.{Sent}

-- The server is in the list, and no server before it has its id or its address.
abbrev pub Member : Server → List Server → Type 0
Member s [] = ⊥
Member s (t ∷ servers) = (t ≡ s) ⊎ ((t.id ≢ s.id) × (t.address ≢ s.address) × Member s servers)

agrees-lookup :
    (md old : Dict Str) (key v : Str)
    → agrees md old ≡ true
    → Dict.lookup key md ≡ some v
    → text_of (Dict.lookup key old) ≡ v
unfolding agrees Dict.lookup
agrees-lookup [] old key v h e = cc
agrees-lookup ((k, w) ∷ md) old key v h e =
    ground (arith, agrees-lookup md old key v, eq_iff k key, eq_iff (text_of (Dict.lookup k old)) w)

module _ (b : Badger) (casbin : Casbin b) (proto : Proto) (raft : Raft) where
  -- Only the leader changes the members: another node refuses to join or to remove one, and nothing
  -- has changed.
  pub followers_refuse :
      (id addr : Str) (voter : Bool) (md : Dict Str) (n : Node b casbin proto raft)
      → raft.is_leader n.raft_state ≡ false
      → (join b casbin proto raft id addr voter md n ≡ (n, some not_leader))
        × (remove b casbin proto raft id n ≡ (n, some not_leader))
  unfolding join remove
  followers_refuse id addr voter md n h = (ground arith, ground arith)

  scan-Member :
      (id addr : Str) (servers : List Server) (n : Node b casbin proto raft)
      → Member (record { id = id; address = addr }) servers
      → scan_servers b casbin proto raft id addr servers n ≡ already_member n
  unfolding scan_servers
  scan-Member id addr [] n h = absurd h
  scan-Member id addr (t ∷ servers) n (inl same) =
      ground (arith, same, eq_iff t.id id, eq_iff t.address addr)
  scan-Member id addr (t ∷ servers) n (inr (i, a, h)) =
      ground (arith, scan-Member id addr servers n h, i, a, eq_iff t.id id, eq_iff t.address addr)

  -- A member that joins again, with its id and its address, changes nothing: neither the members nor
  -- its metadata, and it gets no error.
  pub join-Member :
      (id addr : Str) (voter : Bool) (md : Dict Str) (servers : List Server)
      (n : Node b casbin proto raft)
      → raft.is_leader n.raft_state ≡ true
      → raft.servers n.raft_state ≡ ok servers
      → Member (record { id = id; address = addr }) servers
      → join b casbin proto raft id addr voter md n ≡ (n, none)
  unfolding join
  join-Member id addr voter md servers n leads known h =
      ground (arith, scan-Member id addr servers n h)

  known-read :
      (id key v : Str) (md : Dict Str) (n : Node b casbin proto raft)
      → has_metadata b casbin proto raft id md n ≡ true
      → Dict.lookup key md ≡ some v
      → metadata b casbin proto id key n.fsm ≡ v
  unfolding has_metadata metadata
  known-read id key v md n h there = elim (Option-cases (Dict.lookup id n.fsm.meta)) [
    | inl none_there ↦ ground (arith, none_there)
    | inr (m, e) ↦ ground (arith, e, agrees-lookup md m key v)
  ]

  module _ (id payload entry : Str) (md : Dict Str) (n : Node b casbin proto raft) (r : raft.R)
      (before : List Str)
      (encoded : proto.metadata.marshal (record { raft_id = id; entries = md }) ≡ ok payload)
      (decoded : proto.metadata.unmarshal payload ≡ ok (record { raft_id = id; entries = md }))
      (sent : Sent b casbin proto raft
        (record { kind = Command.metadata_set; namespace = []; payload = payload })
        entry)
      (committed : raft.submit entry n.raft_state ≡ (r, before, none)) where
    set_metadata-committed :
        has_metadata b casbin proto raft id md n ≡ false
        → let n' = observe b casbin proto raft r before n in
          set_metadata b casbin proto raft id md n
          ≡ (record n' { fsm = (apply_metadata_set b casbin proto payload n'.fsm).0 }, none)
    unfolding set_metadata wait apply apply_command
    set_metadata-committed new = ground (arith, new, sent.encoded, sent.decoded)

    -- If raft commits the entry, and messages are decoded as they were encoded, `setMetadata` returns no
    -- error, and then the metadata of the node has every entry of `md`, a map with one value for each
    -- key: at once if it had them before, and otherwise since the entry wrote them.
    pub set_metadata-read :
        (key v : Str)
        → Dict.IsUnique md
        → Dict.lookup key md ≡ some v
        → let (n', e) = set_metadata b casbin proto raft id md n in
          (metadata b casbin proto id key n'.fsm ≡ v) × (e ≡ none)
    unfolding set_metadata
    set_metadata-read key v unique there =
        elim (Bool-cases (has_metadata b casbin proto raft id md n)) [
          | inl known ↦
              (ground (arith, known, known-read id key v md n known there), ground (arith, known))
          | inr new ↦ rw (set_metadata-committed new) (
            ground (
              arith,
              there,
              eq_refl id,
              (metadata_set_lem b casbin proto payload (record { raft_id = id; entries = md })
                    (observe b casbin proto raft r before n).fsm decoded unique).0
                  id key,
            ),
            refl,
          )
        ]
