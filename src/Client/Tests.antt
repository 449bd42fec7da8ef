-- ===== src/Client/Tests.antt =====
-- Requests of a client at a cluster of one node, and the theorems at them.
use casbin_mesh.Prelude.{str, ◌≡◌, refl, some, none, Option, [], ◌∷◌, ◌++◌, arith, list_beq}
use casbin_mesh.Result.{Error, Result, ok, err, message, error_text}
use casbin_mesh.Dict
use casbin_mesh.Badger.Table.{table_badger}
use casbin_mesh.Command
use casbin_mesh.Command.{Command, new_string_array}
use casbin_mesh.Fsm.{apply, apply_add_policies, replay}
use casbin_mesh.Fsm.Toy.{toy_casbin, toy_proto}
use casbin_mesh.Store.Toy.{one_node, leader, ANode, alice}
use casbin_mesh.Store.Policies
use casbin_mesh.Grpc.{request, enforce}
use casbin_mesh.Client.{Connection, add_policies}
use casbin_mesh.Client.Queries
use casbin_mesh.Store.Manage
use casbin_mesh.Http.Toy.{settings}
use casbin_mesh.Client.Delivery.{seen, Delivers, add_policies-delivered}

-- A connection straight to the node; a panic or a nil response is an error of the call.
abbrev answered : {A : Type 0} → Option (Option A) → Result A
answered (some (some a)) = ok a
answered (some none) = err (message (str "nil"))
answered none = err (message (str "unavailable"))

abbrev direct : Connection ANode
direct = record {
  request = λ c n.
      let (n', r) = request table_badger toy_casbin toy_proto one_node c n in (n', answered r);
  enforce = λ ns p n.
      let (n', r) = enforce table_badger toy_casbin toy_proto one_node ns p n in
      (n', answered (elim r [ none ↦ none | some a ↦ some (some a) ]));
}

direct-Delivers : Delivers table_badger toy_casbin toy_proto one_node direct
direct-Delivers = record { delivered = λ cmd n n' resp h. ground arith }

-- The node after the request to add: the rule is in the engine of `hr`.
abbrev after_add : ANode
after_add =
    (Policies.add_policies table_badger toy_casbin toy_proto one_node (str "hr") (str "p") (str "p")
      alice leader).0

add_policies-delivered_example :
    add_policies toy_proto direct (str "hr") (str "p") (str "p") alice leader
    ≡ (after_add, seen alice none)
unfolding Policies.add_policies list_beq apply apply_add_policies Dict.lookup replay
    Command.to_string_array new_string_array
add_policies-delivered_example =
    add_policies-delivered table_badger toy_casbin toy_proto one_node direct direct-Delivers
      (str "hr") (str "p") (str "p") (7 ∷ []) leader after_add alice alice none refl refl refl
      (λ e h. cc)

-- A handler's error as a client sees it.
abbrev as_status : Error → Error
as_status e = message (str "rpc error: code = Unknown desc = " ++ error_text e)

-- The connection on which the requests that read are made.
abbrev the_node : Queries.Queries ANode
the_node =
    Queries.node_queries table_badger toy_casbin toy_proto one_node settings (λ v. []) as_status
