-- ===== src/Core/History/Sessions/Tests.antt =====
-- A node that creates a namespace, adds a rule to another and decides by it.
use casbin_mesh.Prelude.{Str, str, ◌≡◌, true, List, [], ◌∷◌, pos}
use casbin_mesh.Badger.Table.{table_badger}
use casbin_mesh.Command
use casbin_mesh.Fsm.{replay}
use casbin_mesh.Fsm.Toy.{toy_casbin, toy_proto}
use casbin_mesh.Store.Toy.{one_node, leader, alice}
use casbin_mesh.Core.{new}
use casbin_mesh.Core.History.{Commits}
use casbin_mesh.Core.History.Sessions.{
  Request, create_namespace, add_policies, enforce, join, clear_policy, serve, serve-replays,
}

abbrev requests : List (Request toy_casbin.Param)
requests =
    create_namespace (str "ops")
    ∷ (add_policies (str "hr") (str "p") (str "p") alice
        ∷ (enforce (str "hr") Command.weak (pos 0) []
            ∷ (join (str "n2") (str "h:2") true [] ∷ (clear_policy (str "ops") ∷ []))))

serve-replays_example :
    let n' = serve (new table_badger toy_casbin toy_proto one_node) requests leader in
    (log : List Str) × Commits one_node leader.raft_state log n'.raft_state
    × (n'.fsm ≡ replay table_badger toy_casbin toy_proto log leader.fsm)
serve-replays_example = serve-replays table_badger toy_casbin toy_proto one_node requests leader
