-- ===== src/Store/Decisions.antt =====
-- The consistency levels of `Enforce`.
use casbin_mesh.Prelude.{Str, ◌≡◌, none, List, arith, ℤ}
use casbin_mesh.Result.{ok}
use casbin_mesh.Badger.{Badger}
use casbin_mesh.Casbin.{Casbin}
use casbin_mesh.Command
use casbin_mesh.Command.{Command, Proto, EnforcePayload}
use casbin_mesh.Fsm.{parse_params, apply_command, apply_enforce_request}
use casbin_mesh.Store.{Raft, Node, observe}
use casbin_mesh.Store.Manage.{
  enforce, enforce_local, enforce_strong, marshal_params, answer_enforce,
}
use casbin_mesh.Store.Writes.{Sent, request-committed}

module _ (b : Badger) (casbin : Casbin b) (proto : Proto) (raft : Raft) where
  -- A strong read is the decision of the enforcer that all entries before the read's own left: once
  -- the entry is committed, the answer is that of a read of this node's enforcer at that state, and
  -- the read itself changes nothing. JSON must keep the request's values.
  pub enforce_strong-committed :
      (ns payload entry : Str) (freshness : ℤ) (params : List casbin.Param) (texts : List Str)
      (n : Node b casbin proto raft) (r : raft.R) (before : List Str)
      → let p : EnforcePayload = record {
        b = texts;
        level = Command.strong;
        freshness = freshness;
      } in
        marshal_params b casbin proto raft params ≡ ok texts
        → parse_params b casbin proto texts ≡ ok params
        → proto.enforce.marshal p ≡ ok payload
        → proto.enforce.unmarshal payload ≡ ok p
        → Sent b casbin proto raft
            (record { kind = Command.enforce_request; namespace = ns; payload = payload })
            entry
        → raft.submit entry n.raft_state ≡ (r, before, none)
        → enforce b casbin proto raft ns Command.strong freshness params n
          ≡ enforce_local b casbin proto raft ns params (observe b casbin proto raft r before n)
  unfolding enforce enforce_strong enforce_local apply_enforce_request apply_command answer_enforce
  enforce_strong-committed ns payload entry freshness params texts n r before printed parsed encoded
        decoded sent committed =
      ground (arith, request-committed b casbin proto raft _ entry n r before sent committed)
