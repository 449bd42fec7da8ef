-- ===== src/Grpc.antt =====
-- server/core/grpc.go: the gRPC service of a node, on the Core of server/core/core.go, whose methods
-- are the store's. The result of a handler is `none` on a panic.

pub mod Effects
pub mod Auth
mod AuthTests
use casbin_mesh.Prelude.{Str, Bool, true, false, Option, none, some, List, [], ◌∷◌, pos}
use casbin_mesh.Result.{Error, Result, ok, err, unmarshal_failed, error_text}
use casbin_mesh.Badger.{Badger}
use casbin_mesh.Casbin.{Casbin}
use casbin_mesh.Command
use casbin_mesh.Command.{
  Command, CommandType, Proto, StringArray, EnforcePayload, new_string_array, to_string_array,
}
use casbin_mesh.Fsm.{parse_params}
use casbin_mesh.Store.{Raft, Node, Answer}
use casbin_mesh.Core.{new}

-- The message `Response`; an empty `error` stands for none.
pub record GrpcResponse : Type 0 where
  pub error : Str
  pub effected : Bool
  pub effected_rules : List StringArray

-- `EnforceResponse`
pub record EnforceResponse : Type 0 where
  pub allowed : Bool
  pub error : Str

unfoldable pub format_response : Option Error → GrpcResponse
unfolding error_text
format_response none = record { error = []; effected = false; effected_rules = [] }
format_response (some e) = record { error = error_text e; effected = false; effected_rules = [] }

module _ (b : Badger) (casbin : Casbin b) (proto : Proto) (raft : Raft) where
  -- `command.ToInterfaces`: no values at all if one of them is no JSON
  unfoldable pub to_interfaces : List Str → List casbin.Param
  unfolding parse_params
  to_interfaces input = elim (parse_params b casbin proto input) [ err e ↦ [] | ok ps ↦ ps ]

  unfoldable pub enforce :
      Str
      → EnforcePayload
      → Node b casbin proto raft
      → Node b casbin proto raft × Option EnforceResponse
  unfolding to_interfaces error_text
  enforce ns p n =
      let (n', a) =
        (new b casbin proto raft).enforce ns p.level p.freshness (to_interfaces p.b) n in
      elim a [
        | none ↦ (n', none)
        | some (allowed, none) ↦ (n', some (record { allowed = allowed; error = [] }))
        | some (allowed, some e) ↦ (n', some (record { allowed = false; error = error_text e }))
      ]

  -- After a call that answers with rules, a flag, or an error alone.
  unfoldable pub rules_response :
      Node b casbin proto raft × Answer (List (List Str))
      → Node b casbin proto raft × Option (Option GrpcResponse)
  unfolding format_response new_string_array
  rules_response (n, none) = (n, none)
  rules_response (n, some (rules, some e)) = (n, some (some (format_response (some e))))
  rules_response (n, some (rules, none)) = (
    n,
    some (some (record { error = []; effected = false; effected_rules = new_string_array rules })),
  )

  unfoldable pub flag_response :
      Node b casbin proto raft × Answer Bool
      → Node b casbin proto raft × Option (Option GrpcResponse)
  unfolding format_response
  flag_response (n, none) = (n, none)
  flag_response (n, some (effected, some e)) = (n, some (some (format_response (some e))))
  flag_response (n, some (effected, none)) =
      (n, some (some (record { error = []; effected = effected; effected_rules = [] })))

  unfoldable pub error_response :
      Node b casbin proto raft × Option (Option Error)
      → Node b casbin proto raft × Option (Option GrpcResponse)
  unfolding format_response
  error_response (n, none) = (n, none)
  error_response (n, some e) = (n, some (some (format_response e)))

  -- `FormatResponse(UnmarshalFailed)`
  abbrev undecoded :
      Node b casbin proto raft → Node b casbin proto raft × Option (Option GrpcResponse)
  undecoded n = (n, some (some (format_response (some unmarshal_failed))))

  -- `some none` is a nil response without an error, for the commands that are not in the switch.
  unfoldable pub dispatch :
      CommandType
      → Str
      → Str
      → Node b casbin proto raft
      → Node b casbin proto raft × Option (Option GrpcResponse)
  unfolding rules_response flag_response error_response
  dispatch Command.create_namespace ns payload n =
      error_response ((new b casbin proto raft).create_namespace ns n)
  dispatch Command.set_model ns payload n = elim (proto.model_text.unmarshal payload) [
    | err e ↦ undecoded n
    | ok text ↦ error_response ((new b casbin proto raft).set_model_from_string ns text n)
  ]
  dispatch Command.add_policies ns payload n = elim (proto.rules.unmarshal payload) [
    | err e ↦ undecoded n
    | ok p ↦
        rules_response
          ((new b casbin proto raft).add_policies ns p.sec p.p_type (to_string_array p.rules) n)
  ]
  dispatch Command.update_policies ns payload n = elim (proto.update.unmarshal payload) [
    | err e ↦ undecoded n
    | ok p ↦ flag_response (
        (new b casbin proto raft).update_policies ns p.sec p.p_type (to_string_array p.new_rules)
          (to_string_array p.old_rules) n)
  ]
  dispatch Command.remove_policies ns payload n = elim (proto.rules.unmarshal payload) [
    | err e ↦ undecoded n
    | ok p ↦
        rules_response
          ((new b casbin proto raft).remove_policies ns p.sec p.p_type (to_string_array p.rules) n)
  ]
  dispatch Command.remove_filtered_policy ns payload n = elim (proto.filtered.unmarshal payload) [
    | err e ↦ undecoded n
    | ok p ↦ rules_response (
        (new b casbin proto raft).remove_filtered_policy ns p.sec p.p_type p.field_index
          p.field_values n)
  ]
  -- The node of that name is removed from the cluster, and the policies stay.
  dispatch Command.clear_policy ns payload n =
      let (n', e) = (new b casbin proto raft).remove ns n in error_response (n', some e)
  dispatch other ns payload n = (n, some none)

  unfoldable pub request :
      Command → Node b casbin proto raft → Node b casbin proto raft × Option (Option GrpcResponse)
  unfolding dispatch
  request cmd n = dispatch cmd.kind cmd.namespace cmd.payload n

  -- The other handlers return the store's error as the call's error.
  abbrev returned {ℓ} : {A : Type ℓ} → A × Option Error → Result A
  returned (a, none) = ok a
  returned (a, some e) = err e

  abbrev value_of :
      {A : Type 0}
      → Node b casbin proto raft × Answer A
      → Node b casbin proto raft × Option (Result A)
  value_of (n, none) = (n, none)
  value_of (n, some a) = (n, some (returned a))

  unfoldable pub list_namespaces :
      Node b casbin proto raft → Node b casbin proto raft × Option (Result (List Str))
  list_namespaces n = value_of ((new b casbin proto raft).list_namespaces n)

  unfoldable pub print_model :
      Str → Node b casbin proto raft → Node b casbin proto raft × Option (Result Str)
  print_model ns n = value_of ((new b casbin proto raft).print_model ns n)

  -- The first 1000 policies, from the beginning.
  unfoldable pub list_policies :
      Str → Node b casbin proto raft → Node b casbin proto raft × Option (Result (List (List Str)))
  list_policies ns n =
      value_of ((new b casbin proto raft).list_policies ns [] (pos 0) (pos 1000) false n)
