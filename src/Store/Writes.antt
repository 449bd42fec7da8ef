-- ===== src/Store/Writes.antt =====
-- What a request that writes policies amounts to, once its entry is committed or refused.
use casbin_mesh.Prelude.{Str, false, ◌≡◌, none, some, List, [], arith}
use casbin_mesh.Result.{ok, err}
use casbin_mesh.Dict
use casbin_mesh.Badger.{Badger}
use casbin_mesh.Casbin.{Casbin}
use casbin_mesh.Command
use casbin_mesh.Command.{
  Command, CommandType, Proto, to_string_array, to_string_array-new_string_array,
}
use casbin_mesh.Fsm.{
  apply, apply_command, apply_add_policies, apply_update_policies, apply_remove_policies,
  put_enforcer,
}
use casbin_mesh.Store.{
  Raft, RaftError, Node, of_raft, observe, wait, request, answer_rules, answer_flag,
}
use casbin_mesh.Store.Policies.{
  rules_payload, update_payload, add_policies, remove_policies, update_policies,
}

module _ (b : Badger) (casbin : Casbin b) (proto : Proto) (raft : Raft) where
  -- The command `c` is encoded as `entry`, which is decoded as `c`.
  pub record Sent (c : Command) (entry : Str) : Type 0 where
    pub encoded : proto.command.marshal c ≡ ok entry
    pub decoded : proto.command.unmarshal entry ≡ ok c

  pub request-committed :
      (c : Command) (entry : Str) (n : Node b casbin proto raft) (r : raft.R) (before : List Str)
      → Sent c entry
      → raft.submit entry n.raft_state ≡ (r, before, none)
      → let n' = observe b casbin proto raft r before n in
        let (s, a) = apply_command b casbin proto c.kind c.namespace c.payload n'.fsm in
        request b casbin proto raft c n ≡ (record n' { fsm = s }, ok a)
  unfolding request wait apply
  request-committed c entry n r before sent committed = ground (arith, sent.encoded, sent.decoded)

  request-refused :
      (c : Command) (entry : Str) (n : Node b casbin proto raft) (r : raft.R) (before : List Str)
      (x : RaftError)
      → Sent c entry
      → raft.submit entry n.raft_state ≡ (r, before, some x)
      → request b casbin proto raft c n ≡ (observe b casbin proto raft r before n, err (of_raft x))
  unfolding request wait
  request-refused c entry n r before x sent refused = ground (arith, sent.encoded)

  module _ (ns sec p_type payload entry : Str) (rules : List (List Str))
      (n : Node b casbin proto raft) (r : raft.R) (before : List Str)
      (encoded : proto.rules.marshal (rules_payload sec p_type rules) ≡ ok payload) where
    -- Once its entry is committed, a request to add rules to a namespace that has a model by then makes
    -- exactly casbin's own call with these rules, on the enforcer and the database that the entries
    -- before it left: the node keeps what the call left, and the caller gets what it returned. Messages
    -- must be decoded as they were encoded.
    pub add_policies-committed :
        (e : casbin.Enforcer) (m : casbin.Model)
        → proto.rules.unmarshal payload ≡ ok (rules_payload sec p_type rules)
        → Sent (record { kind = Command.add_policies; namespace = ns; payload = payload }) entry
        → raft.submit entry n.raft_state ≡ (r, before, none)
        → let n' = observe b casbin proto raft r before n in
          Dict.lookup ns n'.fsm.enforcers ≡ some e
          → casbin.get_model e ≡ some m
          → let (e', db', made) = casbin.add_policies_self sec p_type rules e n'.fsm.db in
            add_policies b casbin proto raft ns sec p_type rules n ≡ (
              record n' { fsm = put_enforcer b casbin proto ns e' db' n'.fsm },
              some (elim made [ ok added ↦ (added, none) | err x ↦ ([], some x) ]),
            )
    unfolding add_policies apply_add_policies apply_command answer_rules
    add_policies-committed e m decoded sent committed there modelled = ground (
      arith,
      request-committed _ entry n r before sent committed,
      to_string_array-new_string_array rules,
    )

    -- Once its entry is committed, a request to remove rules from a namespace that exists makes exactly
    -- casbin's own call with these rules, on the enforcer and the database that the entries before it
    -- left: the node keeps what the call left, and the caller gets what it returned. Messages must be
    -- decoded as they were encoded.
    pub remove_policies-committed :
        (e : casbin.Enforcer)
        → proto.rules.unmarshal payload ≡ ok (rules_payload sec p_type rules)
        → Sent (record { kind = Command.remove_policies; namespace = ns; payload = payload }) entry
        → raft.submit entry n.raft_state ≡ (r, before, none)
        → let n' = observe b casbin proto raft r before n in
          Dict.lookup ns n'.fsm.enforcers ≡ some e
          → let (e', db', gone) = casbin.remove_policies_self sec p_type rules e n'.fsm.db in
            remove_policies b casbin proto raft ns sec p_type rules n ≡ (
              record n' { fsm = put_enforcer b casbin proto ns e' db' n'.fsm },
              some (elim gone [ ok removed ↦ (removed, none) | err x ↦ ([], some x) ]),
            )
    unfolding remove_policies apply_remove_policies apply_command answer_rules
    remove_policies-committed e decoded sent committed there = ground (
      arith,
      request-committed _ entry n r before sent committed,
      to_string_array-new_string_array rules,
    )

    -- Where raft refuses the entry, the node has seen the entries that came before and nothing else,
    -- and the caller gets the error, with `ErrNotLeader` for raft's.
    pub add_policies-refused :
        (x : RaftError)
        → Sent (record { kind = Command.add_policies; namespace = ns; payload = payload }) entry
        → raft.submit entry n.raft_state ≡ (r, before, some x)
        → add_policies b casbin proto raft ns sec p_type rules n
          ≡ (observe b casbin proto raft r before n, some ([], some (of_raft x)))
    unfolding add_policies answer_rules
    add_policies-refused x sent refused =
        ground (arith, request-refused _ entry n r before x sent refused)

  -- A request to update rules in a namespace that exists, once committed, makes casbin replace the old
  -- rules by the new ones: the new ones come first in the request and second in casbin's call. The node
  -- keeps what the call left. Messages must be decoded as they were encoded.
  pub update_policies-committed :
      (ns sec p_type payload entry : Str) (nr old : List (List Str)) (n : Node b casbin proto raft)
      (r : raft.R) (before : List Str) (e : casbin.Enforcer)
      → proto.update.marshal (update_payload sec p_type nr old) ≡ ok payload
      → proto.update.unmarshal payload ≡ ok (update_payload sec p_type nr old)
      → Sent (record { kind = Command.update_policies; namespace = ns; payload = payload }) entry
      → raft.submit entry n.raft_state ≡ (r, before, none)
      → let n' = observe b casbin proto raft r before n in
        Dict.lookup ns n'.fsm.enforcers ≡ some e
        → let (e', db', done) = casbin.update_policies_self sec p_type old nr e n'.fsm.db in
          update_policies b casbin proto raft ns sec p_type nr old n ≡ (
            record n' { fsm = put_enforcer b casbin proto ns e' db' n'.fsm },
            some (elim done [ ok effected ↦ (effected, none) | err x ↦ (false, some x) ]),
          )
  unfolding update_policies apply_update_policies apply_command answer_flag
  update_policies-committed ns sec p_type payload entry nr old n r before e encoded decoded sent
        committed there =
      ground (
        arith,
        request-committed _ entry n r before sent committed,
        to_string_array-new_string_array old,
        to_string_array-new_string_array nr,
      )
