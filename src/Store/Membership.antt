-- ===== src/Store/Membership.antt =====
-- server/store/store.go and enforcer.go: the members of the cluster and their metadata.
use casbin_mesh.Prelude.{
  Str, Bool, true, false, ◌&&◌, ◌||◌, Option, none, some, List, [], ◌∷◌, ◌==◌, nat_eq, list_eq,
  if◌then◌else◌,
}
use casbin_mesh.Result.{Error, Result, ok, err, not_leader}
use casbin_mesh.Dict
use casbin_mesh.Dict.{Dict}
use casbin_mesh.Badger.{Badger}
use casbin_mesh.Casbin.{Casbin}
use casbin_mesh.Command
use casbin_mesh.Command.{Command, Proto}
use casbin_mesh.Fsm.{Response}
use casbin_mesh.Fsm.Metadata.{text_of}
use casbin_mesh.Store.{Raft, Server, Future, Node, of_raft, observe, wait}

-- A missing key reads as blank in `s.meta[id][k] != v`.
unfoldable pub agrees : Dict Str → Dict Str → Bool
unfolding Dict.lookup
agrees [] old = true
agrees ((k, v) ∷ md) old = (text_of (Dict.lookup k old) == v) && agrees md old

module _ (b : Badger) (casbin : Casbin b) (proto : Proto) (raft : Raft) where
  -- The error of the future; the response is not read.
  abbrev pub future_error :
      Node b casbin proto raft × Result Response → Node b casbin proto raft × Option Error
  future_error (n, err e) = (n, some e)
  future_error (n, ok r) = (n, none)

  unfoldable pub has_metadata : Str → Dict Str → Node b casbin proto raft → Bool
  unfolding agrees
  has_metadata id md n = elim (Dict.lookup id n.fsm.meta) [ none ↦ false | some m ↦ agrees md m ]

  -- Nothing is sent if this node has the same data already.
  unfoldable pub set_metadata :
      Str → Dict Str → Node b casbin proto raft → Node b casbin proto raft × Option Error
  unfolding has_metadata wait
  set_metadata id md n =
      if has_metadata id md n
      then (n, none)
      else elim (proto.metadata.marshal (record { raft_id = id; entries = md })) [
        | err e ↦ (n, some e)
        | ok payload ↦
            elim (proto.command.marshal
              (record { kind = Command.metadata_set; namespace = []; payload = payload })) [
                | err e ↦ (n, some e)
                | ok entry ↦ future_error (wait b casbin proto raft entry n)
              ]
      ]

  -- Of an error of the last call only "not the leader" is returned.
  abbrev pub only_not_leader :
      Node b casbin proto raft × Result Response → Node b casbin proto raft × Option Error
  only_not_leader (n, ok r) = (n, none)
  only_not_leader (n, err not_leader) = (n, some not_leader)
  only_not_leader (n, err e) = (n, none)

  unfoldable pub delete_metadata :
      Str → Node b casbin proto raft → Node b casbin proto raft × Option Error
  unfolding wait
  delete_metadata id n = elim (proto.metadata_id.marshal id) [
    | err e ↦ (n, some e)
    | ok payload ↦
        elim (proto.command.marshal
          (record { kind = Command.metadata_delete; namespace = []; payload = payload })) [
            | err e ↦ (n, some e)
            | ok entry ↦ only_not_leader (wait b casbin proto raft entry n)
          ]
  ]

  -- After a call of raft: its error, or what is next.
  abbrev pub after_future :
      (Node b casbin proto raft → Node b casbin proto raft × Option Error)
      → Future raft.R
      → Node b casbin proto raft
      → Node b casbin proto raft × Option Error
  after_future k (r, before, some x) n = (observe b casbin proto raft r before n, some (of_raft x))
  after_future k (r, before, none) n = k (observe b casbin proto raft r before n)

  unfoldable pub remove : Str → Node b casbin proto raft → Node b casbin proto raft × Option Error
  unfolding delete_metadata observe of_raft
  remove id n =
      if raft.is_leader n.raft_state
      then after_future (delete_metadata id) (raft.remove_server id n.raft_state) n
      else (n, some not_leader)

  -- Where the loop of `Join` over the configuration ends.
  pub data Scan : Type 0 where
    already_member : Node b casbin proto raft → Scan
    remove_failed : Node b casbin proto raft → Error → Scan
    scan_done : Node b casbin proto raft → Scan

  abbrev pub scan_on :
      (Node b casbin proto raft → Scan) → Node b casbin proto raft × Option Error → Scan
  scan_on k (n, none) = k n
  scan_on k (n, some e) = remove_failed n e

  -- A server with the joining id or address, but not both, makes it remove the joining id.
  unfoldable pub scan_servers : Str → Str → List Server → Node b casbin proto raft → Scan
  unfolding remove
  scan_servers id addr [] n = scan_done n
  scan_servers id addr (srv ∷ servers) n =
      if srv.id == id || srv.address == addr
      then (if srv.address == addr && srv.id == id
          then already_member n
          else scan_on (scan_servers id addr servers) (remove id n))
      else scan_servers id addr servers n

  -- The `AddVoter` or `AddNonvoter` call, and the metadata.
  unfoldable pub add_member :
      Str
      → Str
      → Bool
      → Dict Str
      → Node b casbin proto raft
      → Node b casbin proto raft × Option Error
  unfolding set_metadata observe of_raft
  add_member id addr voter md n =
      after_future (set_metadata id md)
        (if voter
          then raft.add_voter id addr n.raft_state
          else raft.add_nonvoter id addr n.raft_state)
        n

  abbrev pub after_scan :
      Str → Str → Bool → Dict Str → Scan → Node b casbin proto raft × Option Error
  after_scan id addr voter md (already_member n) = (n, none)
  after_scan id addr voter md (remove_failed n e) = (n, some e)
  after_scan id addr voter md (scan_done n) = add_member id addr voter md n

  unfoldable pub join :
      Str
      → Str
      → Bool
      → Dict Str
      → Node b casbin proto raft
      → Node b casbin proto raft × Option Error
  unfolding scan_servers add_member
  join id addr voter md n =
      if raft.is_leader n.raft_state
      then elim (raft.servers n.raft_state) [
        | err e ↦ (n, some e)
        | ok servers ↦ after_scan id addr voter md (scan_servers id addr servers n)
      ]
      else (n, some not_leader)
