-- ===== src/Core/History/Joined.antt =====
-- The changes of the members: entries of the log again, for the metadata.
use casbin_mesh.Prelude.{
  refl, Str, Bool, ◌≡◌, Option, none, some, List, [], ◌∷◌, arith, Bool-cases, inl, inr, ◌&&◌, ◌||◌,
  ◌==◌, nat_eq, list_eq, if◌then◌else◌,
}
use casbin_mesh.Result.{Error, Result, Result-cases}
use casbin_mesh.Dict.{Dict}
use casbin_mesh.Badger.{Badger}
use casbin_mesh.Casbin.{Casbin}
use casbin_mesh.Command
use casbin_mesh.Command.{Proto}
use casbin_mesh.Fsm
use casbin_mesh.Store.{Raft, Node, Server, Future, observe, wait}
use casbin_mesh.Store.Membership
use casbin_mesh.Core.History.{
  Commits, member_added, member_removed, ByEntries, unchanged, further, moved, observe-ByEntries,
  wait-ByEntries,
}

module _ (b : Badger) (casbin : Casbin b) (proto : Proto) (raft : Raft) where
  abbrev NodeOf : Type 0
  NodeOf = Node b casbin proto raft

  abbrev Keeps : (NodeOf → NodeOf × Option Error) → Type 0
  Keeps m = (n : NodeOf) → ByEntries b casbin proto raft n (m n).0

  -- An entry is waited for, and its response read.
  waited :
      (answer : NodeOf × Result Fsm.Response → NodeOf × Option Error)
      → ((r : NodeOf × Result Fsm.Response) → (answer r).0 ≡ r.0)
      → (entry : Str) → Keeps (λ n. answer (wait b casbin proto raft entry n))
  waited answer same entry n =
      moved b casbin proto raft n (wait b casbin proto raft entry n).0
        (answer (wait b casbin proto raft entry n)).0 (same (wait b casbin proto raft entry n))
        (wait-ByEntries b casbin proto raft entry n)

  future_error-node :
      (r : NodeOf × Result Fsm.Response) → (Membership.future_error b casbin proto raft r).0 ≡ r.0
  future_error-node r = ground arith

  only_not_leader-node :
      (r : NodeOf × Result Fsm.Response)
      → (Membership.only_not_leader b casbin proto raft r).0 ≡ r.0
  only_not_leader-node r = ground arith

  set_metadata-ByEntries :
      (id : Str) (md : Dict Str) → Keeps (Membership.set_metadata b casbin proto raft id md)
  unfolding Membership.set_metadata
  set_metadata-ByEntries id md n =
      elim (Bool-cases (Membership.has_metadata b casbin proto raft id md n)) [
        | inl there ↦ rw (Membership.set_metadata, there) (unchanged b casbin proto raft n)
        | inr new ↦
            elim (Result-cases (proto.metadata.marshal (record { raft_id = id; entries = md }))) [
              | inr (e, bad) ↦
                  rw (Membership.set_metadata, new, bad) (unchanged b casbin proto raft n)
              | inl (payload, fine) ↦
                  elim (Result-cases (
                    proto.command.marshal (record {
                      kind = Command.metadata_set;
                      namespace = [];
                      payload = payload;
                    }))) [
                      | inr (e, bad) ↦
                          rw (Membership.set_metadata, new, fine, bad)
                            (unchanged b casbin proto raft n)
                      | inl (entry, made) ↦
                          rw (Membership.set_metadata, new, fine, made)
                            (waited (Membership.future_error b casbin proto raft) future_error-node
                              entry n)
                    ]
            ]
      ]

  delete_metadata-ByEntries : (id : Str) → Keeps (Membership.delete_metadata b casbin proto raft id)
  unfolding Membership.delete_metadata
  delete_metadata-ByEntries id n = elim (Result-cases (proto.metadata_id.marshal id)) [
    | inr (e, bad) ↦ rw (Membership.delete_metadata, bad) (unchanged b casbin proto raft n)
    | inl (payload, fine) ↦
        elim (Result-cases (
          proto.command.marshal
            (record { kind = Command.metadata_delete; namespace = []; payload = payload }))) [
              | inr (e, bad) ↦
                  rw (Membership.delete_metadata, fine, bad) (unchanged b casbin proto raft n)
              | inl (entry, made) ↦
                  rw (Membership.delete_metadata, fine, made)
                    (waited (Membership.only_not_leader b casbin proto raft) only_not_leader-node
                      entry n)
            ]
  ]

  -- What a call of raft that changes the members committed.
  abbrev Called : Future raft.R → NodeOf → Type 0
  Called (r, before, e) n = Commits raft n.raft_state before r

  after_future-ByEntries :
      (k : NodeOf → NodeOf × Option Error)
      → Keeps k
      → (f : Future raft.R) (n : NodeOf) → Called f n
      → ByEntries b casbin proto raft n (Membership.after_future b casbin proto raft k f n).0
  after_future-ByEntries k keeps (r, before, some x) n called =
      observe-ByEntries b casbin proto raft r before n called
  after_future-ByEntries k keeps (r, before, none) n called =
      let seen = observe b casbin proto raft r before n in
      further b casbin proto raft n seen (k seen).0
        (observe-ByEntries b casbin proto raft r before n called) (keeps seen)

  pub remove-ByEntries : (id : Str) → Keeps (Membership.remove b casbin proto raft id)
  unfolding Membership.remove
  remove-ByEntries id n = elim (Bool-cases (raft.is_leader n.raft_state)) [
    | inr follows ↦ rw (Membership.remove, follows) (unchanged b casbin proto raft n)
    | inl leads ↦
        rw (Membership.remove, leads)
          (after_future-ByEntries (Membership.delete_metadata b casbin proto raft id)
            (delete_metadata-ByEntries id) (raft.remove_server id n.raft_state) n
            (let f = raft.remove_server id n.raft_state in
              member_removed id n.raft_state f.0 f.1 f.2 refl))
  ]

  abbrev left_by : Membership.Scan b casbin proto raft → NodeOf
  left_by (Membership.already_member n) = n
  left_by (Membership.remove_failed n e) = n
  left_by (Membership.scan_done n) = n

  scan_on-ByEntries :
      (k : NodeOf → Membership.Scan b casbin proto raft)
      → ((n : NodeOf) → ByEntries b casbin proto raft n (left_by (k n)))
      → (n : NodeOf) (r : NodeOf × Option Error) → ByEntries b casbin proto raft n r.0
      → ByEntries b casbin proto raft n (left_by (Membership.scan_on b casbin proto raft k r))
  scan_on-ByEntries k keeps n (n', none) so_far =
      further b casbin proto raft n n' (left_by (k n')) so_far (keeps n')
  scan_on-ByEntries k keeps n (n', some e) so_far = so_far

  scan_servers-ByEntries :
      (id addr : Str) (servers : List Server) (n : NodeOf)
      → ByEntries b casbin proto raft n
          (left_by (Membership.scan_servers b casbin proto raft id addr servers n))
  unfolding Membership.scan_servers
  scan_servers-ByEntries id addr [] n = unchanged b casbin proto raft n
  scan_servers-ByEntries id addr (srv ∷ servers) n =
      let rest = scan_servers-ByEntries id addr servers in
      elim (Bool-cases (srv.id == id || srv.address == addr)) [
        | inr other ↦ rw (Membership.scan_servers, other) (rest n)
        | inl meets ↦ elim (Bool-cases (srv.address == addr && srv.id == id)) [
          | inl member ↦
              rw (Membership.scan_servers, meets, member) (unchanged b casbin proto raft n)
          | inr half ↦
              rw (Membership.scan_servers, meets, half)
                (scan_on-ByEntries (Membership.scan_servers b casbin proto raft id addr servers)
                  rest n (Membership.remove b casbin proto raft id n) (remove-ByEntries id n))
        ]
      ]

  add_member-ByEntries :
      (id addr : Str) (voter : Bool) (md : Dict Str)
      → Keeps (Membership.add_member b casbin proto raft id addr voter md)
  unfolding Membership.add_member
  add_member-ByEntries id addr voter md n =
      after_future-ByEntries (Membership.set_metadata b casbin proto raft id md)
        (set_metadata-ByEntries id md)
        (if voter
          then raft.add_voter id addr n.raft_state
          else raft.add_nonvoter id addr n.raft_state)
        n
        (let f =
            if voter
            then raft.add_voter id addr n.raft_state
            else raft.add_nonvoter id addr n.raft_state in
          member_added voter id addr n.raft_state f.0 f.1 f.2 refl)

  scanned :
      (id addr : Str) (voter : Bool) (md : Dict Str) (n : NodeOf)
      (scan : Membership.Scan b casbin proto raft)
      → ByEntries b casbin proto raft n (left_by scan)
      → ByEntries b casbin proto raft n
          (Membership.after_scan b casbin proto raft id addr voter md scan).0
  scanned id addr voter md n (Membership.already_member n') so_far = so_far
  scanned id addr voter md n (Membership.remove_failed n' e) so_far = so_far
  scanned id addr voter md n (Membership.scan_done n') so_far =
      further b casbin proto raft n n'
        (Membership.add_member b casbin proto raft id addr voter md n').0 so_far
        (add_member-ByEntries id addr voter md n')

  pub join-ByEntries :
      (id addr : Str) (voter : Bool) (md : Dict Str)
      → Keeps (Membership.join b casbin proto raft id addr voter md)
  unfolding Membership.join
  join-ByEntries id addr voter md n = elim (Bool-cases (raft.is_leader n.raft_state)) [
    | inr follows ↦ rw (Membership.join, follows) (unchanged b casbin proto raft n)
    | inl leads ↦ elim (Result-cases (raft.servers n.raft_state)) [
      | inr (e, bad) ↦ rw (Membership.join, leads, bad) (unchanged b casbin proto raft n)
      | inl (servers, known) ↦
          rw (Membership.join, leads, known)
            (scanned id addr voter md n
              (Membership.scan_servers b casbin proto raft id addr servers n)
              (scan_servers-ByEntries id addr servers n))
    ]
  ]
