-- ===== src/Store/Tests.antt =====
-- The theorems on requests, at a cluster of one node.
use casbin_mesh.Prelude.{
  str, true, ◌≡◌, ◌≢◌, refl, none, some, [], ◌∷◌, nat_eq, list_eq, list_beq, pos,
}
use casbin_mesh.Result.{ok, err}
use casbin_mesh.Dict
use casbin_mesh.Dict.{Dict}
use casbin_mesh.Badger.Table.{table_badger}
use casbin_mesh.Command
use casbin_mesh.Command.{Command, CommandType}
use casbin_mesh.Fsm.{put_enforcer, replay, parse_params}
use casbin_mesh.Fsm.Toy.{toy_casbin, toy_proto, command_codec-RoundTrips}
use casbin_mesh.Store.{observe}
use casbin_mesh.Store.Toy.{one_node, engine, leader, entry_of, alice, node'}
use casbin_mesh.Store.Policies.{
  add_policies, remove_policies, update_policies, remove_filtered_policy, clear_policy,
}
use casbin_mesh.Store.Manage.{
  create_namespace, set_model_from_string, enforce, enforce_local, marshal_params,
}
use casbin_mesh.Store.Writes.{add_policies-committed}
use casbin_mesh.Store.Typed.{writes_return}
use casbin_mesh.Store.Decisions.{enforce_strong-committed}

add_policies-committed_example :
    let (e', db', made) =
      toy_casbin.add_policies_self (str "p") (str "p") alice engine node'.fsm.db in
    add_policies table_badger toy_casbin toy_proto one_node
      (str "hr")
      (str "p")
      (str "p")
      alice
      leader
    ≡ (
      record node' {
        fsm = put_enforcer table_badger toy_casbin toy_proto (str "hr") e' db' node'.fsm;
      },
      some (elim made [ ok added ↦ (added, none) | err x ↦ ([], some x) ]),
    )
unfolding list_beq Dict.lookup replay observe Command.new_string_array
add_policies-committed_example =
    add_policies-committed table_badger toy_casbin toy_proto one_node (str "hr") (str "p") (str "p")
      (7 ∷ []) (entry_of Command.add_policies (str "hr") (7 ∷ [])) alice leader true [] refl engine
      (str "model") refl (record { encoded = refl; decoded = refl }) refl refl refl

writes_return_example :
    ((add_policies table_badger toy_casbin toy_proto one_node
        (str "hr")
        (str "p")
        (str "p")
        alice
        leader).1
      ≢ none)
    × ((remove_policies table_badger toy_casbin toy_proto one_node
          (str "hr")
          (str "p")
          (str "p")
          alice
          leader).1
        ≢ none)
    × ((remove_filtered_policy table_badger toy_casbin toy_proto one_node
          (str "hr")
          (str "p")
          (str "p")
          (pos 0)
          []
          leader).1
        ≢ none)
    × ((update_policies table_badger toy_casbin toy_proto one_node
          (str "hr")
          (str "p")
          (str "p")
          alice
          []
          leader).1
        ≢ none)
    × ((clear_policy table_badger toy_casbin toy_proto one_node (str "hr") leader).1 ≢ none)
    × ((create_namespace table_badger toy_casbin toy_proto one_node (str "hr") leader).1 ≢ none)
    × ((set_model_from_string table_badger toy_casbin toy_proto one_node
          (str "hr")
          (str "m")
          leader).1
        ≢ none)
writes_return_example =
    writes_return table_badger toy_casbin toy_proto one_node command_codec-RoundTrips (str "hr")
      (str "p") (str "p") (str "m") (pos 0) alice [] [] leader

enforce_strong-committed_example :
    enforce table_badger toy_casbin toy_proto one_node
      (str "hr")
      Command.strong
      (pos 0)
      (str "alice" ∷ [])
      leader
    ≡ enforce_local table_badger toy_casbin toy_proto one_node (str "hr") (str "alice" ∷ []) node'
unfolding list_beq marshal_params parse_params
enforce_strong-committed_example =
    enforce_strong-committed table_badger toy_casbin toy_proto one_node (str "hr") (7 ∷ [])
      (entry_of Command.enforce_request (str "hr") (7 ∷ [])) (pos 0) (str "alice" ∷ [])
      (str "alice" ∷ []) leader true [] refl refl refl refl
      (record { encoded = refl; decoded = refl }) refl
