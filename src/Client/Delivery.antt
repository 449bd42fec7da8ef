-- ===== src/Client/Delivery.antt =====
-- Requests of the client library at a node, from end to end.
use casbin_mesh.Prelude.{
  Str, Bool, ◌≡◌, ◌≢◌, refl, Option, none, some, List, [], arith, false, nat_eq, list_eq, eq_iff,
  eq_refl, true, ◌==◌,
}
use casbin_mesh.Result.{Error, Result, ok, err, error_text, message}
use casbin_mesh.Badger.{Badger}
use casbin_mesh.Casbin.{Casbin}
use casbin_mesh.Command
use casbin_mesh.Command.{Command, Proto, new_string_array, to_string_array-new_string_array}
use casbin_mesh.Store.{Raft, Node}
use casbin_mesh.Store.Policies
use casbin_mesh.Store.Policies.{rules_payload, update_payload}
use casbin_mesh.Grpc.{
  GrpcResponse, format_response, rules_response, flag_response, dispatch, request,
}
use casbin_mesh.Client.{Connection, read_response, add_policies, update_policies}

-- The answer of a store, as its client sees it.
abbrev pub seen {ℓ} : {A : Type ℓ} → A → Option Error → Result A
seen a none = ok a
seen a (some e) = err (message (error_text e))

abbrev add_command : Str → Str → Command
add_command ns payload = record { kind = Command.add_policies; namespace = ns; payload = payload }

abbrev update_command : Str → Str → Command
update_command ns payload = record {
  kind = Command.update_policies;
  namespace = ns;
  payload = payload;
}

module _ (b : Badger) (casbin : Casbin b) (proto : Proto) (raft : Raft) where
  -- What a handler returns is what the caller gets: gRPC changes no message.
  pub record Delivers (c : Connection (Node b casbin proto raft)) : Type 0 where
    pub delivered :
        (cmd : Command) (n n' : Node b casbin proto raft) (resp : GrpcResponse)
        → request b casbin proto raft cmd n ≡ (n', some (some resp))
        → c.request cmd n ≡ (n', ok resp)

  abbrev blank : Str
  blank = []

  no_error : (blank == blank) ≡ true
  no_error = eq_refl blank

  abbrev added_response : List (List Str) → GrpcResponse
  added_response added = record {
    error = [];
    effected = false;
    effected_rules = new_string_array added;
  }

  module _ (c : Connection (Node b casbin proto raft)) (d : Delivers c) (ns sec ptype payload : Str)
      (n n' : Node b casbin proto raft) where
    -- From end to end: a client that adds rules gets what the node's store answers for these very
    -- rules, the added rules if it succeeds, and otherwise an error with the same text, which must not
    -- be blank. The node is as the store left it.
    pub add_policies-delivered :
        (rules added : List (List Str)) (failure : Option Error)
        → proto.rules.marshal (rules_payload sec ptype rules) ≡ ok payload
        → proto.rules.unmarshal payload ≡ ok (rules_payload sec ptype rules)
        → Policies.add_policies b casbin proto raft ns sec ptype rules n
          ≡ (n', some (added, failure))
        → ((e : Error) → failure ≡ some e → error_text e ≢ [])
        → add_policies proto c ns sec ptype rules n ≡ (n', seen added failure)
    unfolding add_policies read_response request dispatch rules_response format_response
    add_policies-delivered rules added none encoded decoded made told = ground (
      arith,
      encoded,
      no_error,
      to_string_array-new_string_array added,
      d.delivered (add_command ns payload) n n' (added_response added)
          (ground (arith, decoded, to_string_array-new_string_array rules, made)),
    )
    add_policies-delivered rules added (some e) encoded decoded failed told = ground (
      arith,
      encoded,
      told e refl,
      eq_iff (error_text e) [],
      d.delivered (add_command ns payload) n n' (format_response (some e))
          (ground (arith, decoded, to_string_array-new_string_array rules, failed)),
    )

    -- From end to end: a client that updates rules gets what the node's store answers for its old rules
    -- and its new ones, each in their place, or an error with the same text, which must not be blank.
    -- The node is as the store left it.
    pub update_policies-delivered :
        (old new : List (List Str)) (effected : Bool) (failure : Option Error)
        → proto.update.marshal (update_payload sec ptype new old) ≡ ok payload
        → proto.update.unmarshal payload ≡ ok (update_payload sec ptype new old)
        → Policies.update_policies b casbin proto raft ns sec ptype new old n
          ≡ (n', some (effected, failure))
        → ((e : Error) → failure ≡ some e → error_text e ≢ [])
        → update_policies proto c ns sec ptype old new n ≡ (n', seen effected failure)
    unfolding update_policies read_response request dispatch flag_response format_response
    update_policies-delivered old new effected none encoded decoded made told = ground (
      arith,
      encoded,
      no_error,
      d.delivered (update_command ns payload) n n'
          (record { error = []; effected = effected; effected_rules = [] })
          (ground (
            arith,
            decoded,
            to_string_array-new_string_array old,
            to_string_array-new_string_array new,
            made,
          )),
    )
    update_policies-delivered old new effected (some e) encoded decoded failed told = ground (
      arith,
      encoded,
      told e refl,
      eq_iff (error_text e) [],
      d.delivered (update_command ns payload) n n' (format_response (some e)) (
          ground (
            arith,
            decoded,
            to_string_array-new_string_array old,
            to_string_array-new_string_array new,
            failed,
          )),
    )
