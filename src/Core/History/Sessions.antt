-- ===== src/Core/History/Sessions.antt =====
-- Any requests of the core at a node, one after the other.
mod Tests
use casbin_mesh.Prelude.{Str, Bool, ◌≡◌, List, [], ◌∷◌, ℤ}
use casbin_mesh.Dict.{Dict}
use casbin_mesh.Badger.{Badger}
use casbin_mesh.Casbin.{Casbin}
use casbin_mesh.Command.{Proto, Level}
use casbin_mesh.Fsm.{replay}
use casbin_mesh.Store.{Raft, Node}
use casbin_mesh.Core.{Core, new}
use casbin_mesh.Core.History.{Commits, ByEntries, unchanged, further}
use casbin_mesh.Core.History.Served.{
  create_namespace-ByEntries, set_model_from_string-ByEntries, clear_policy-ByEntries,
  print_model-ByEntries, add_policies-ByEntries, remove_policies-ByEntries,
  remove_filtered_policy-ByEntries, update_policies-ByEntries, list_policies-ByEntries,
  list_namespace-ByEntries, enforce-ByEntries,
}
use casbin_mesh.Core.History.Joined.{remove-ByEntries, join-ByEntries}

-- The methods of `Core` that get or change what the node keeps, with their arguments.
pub data Request (P : Type 0) : Type 0 where
  list_namespaces : Request P
  list_policies : Str → Str → ℤ → ℤ → Bool → Request P
  print_model : Str → Request P
  create_namespace : Str → Request P
  set_model_from_string : Str → Str → Request P
  enforce : Str → Level → ℤ → List P → Request P
  add_policies : Str → Str → Str → List (List Str) → Request P
  remove_policies : Str → Str → Str → List (List Str) → Request P
  remove_filtered_policy : Str → Str → Str → ℤ → List Str → Request P
  update_policies : Str → Str → Str → List (List Str) → List (List Str) → Request P
  clear_policy : Str → Request P
  join : Str → Str → Bool → Dict Str → Request P
  remove : Str → Request P

-- The node after a request, whatever the answer was.
unfoldable pub serve_one : {N P : Type 0} → Core N P → Request P → N → N
serve_one c list_namespaces n = (c.list_namespaces n).0
serve_one c (list_policies ns cursor skip limit reverse) n =
    (c.list_policies ns cursor skip limit reverse n).0
serve_one c (print_model ns) n = (c.print_model ns n).0
serve_one c (create_namespace ns) n = (c.create_namespace ns n).0
serve_one c (set_model_from_string ns text) n = (c.set_model_from_string ns text n).0
serve_one c (enforce ns level freshness params) n = (c.enforce ns level freshness params n).0
serve_one c (add_policies ns sec p_type rules) n = (c.add_policies ns sec p_type rules n).0
serve_one c (remove_policies ns sec p_type rules) n = (c.remove_policies ns sec p_type rules n).0
serve_one c (remove_filtered_policy ns sec p_type fi fv) n =
    (c.remove_filtered_policy ns sec p_type fi fv n).0
serve_one c (update_policies ns sec p_type nr old) n = (c.update_policies ns sec p_type nr old n).0
serve_one c (clear_policy ns) n = (c.clear_policy ns n).0
serve_one c (join id addr voter metadata) n = (c.join id addr voter metadata n).0
serve_one c (remove id) n = (c.remove id n).0

unfoldable pub serve : {N P : Type 0} → Core N P → List (Request P) → N → N
unfolding serve_one
serve c [] n = n
serve c (r ∷ rs) n = serve c rs (serve_one c r n)

module _ (b : Badger) (casbin : Casbin b) (proto : Proto) (raft : Raft) where
  serve_one-ByEntries :
      (r : Request casbin.Param) (n : Node b casbin proto raft)
      → ByEntries b casbin proto raft n (serve_one (new b casbin proto raft) r n)
  unfolding serve_one
  serve_one-ByEntries list_namespaces n = list_namespace-ByEntries b casbin proto raft n
  serve_one-ByEntries (list_policies ns cursor skip limit reverse) n =
      list_policies-ByEntries b casbin proto raft ns cursor skip limit reverse n
  serve_one-ByEntries (print_model ns) n = print_model-ByEntries b casbin proto raft ns n
  serve_one-ByEntries (create_namespace ns) n = create_namespace-ByEntries b casbin proto raft ns n
  serve_one-ByEntries (set_model_from_string ns text) n =
      set_model_from_string-ByEntries b casbin proto raft ns text n
  serve_one-ByEntries (enforce ns level freshness params) n =
      enforce-ByEntries b casbin proto raft ns level freshness params n
  serve_one-ByEntries (add_policies ns sec p_type rules) n =
      add_policies-ByEntries b casbin proto raft ns sec p_type rules n
  serve_one-ByEntries (remove_policies ns sec p_type rules) n =
      remove_policies-ByEntries b casbin proto raft ns sec p_type rules n
  serve_one-ByEntries (remove_filtered_policy ns sec p_type fi fv) n =
      remove_filtered_policy-ByEntries b casbin proto raft ns sec p_type fi fv n
  serve_one-ByEntries (update_policies ns sec p_type nr old) n =
      update_policies-ByEntries b casbin proto raft ns sec p_type nr old n
  serve_one-ByEntries (clear_policy ns) n = clear_policy-ByEntries b casbin proto raft ns n
  serve_one-ByEntries (join id addr voter metadata) n =
      join-ByEntries b casbin proto raft id addr voter metadata n
  serve_one-ByEntries (remove id) n = remove-ByEntries b casbin proto raft id n

  -- Whatever requests a node gets, in whatever order: there is one log of entries that raft committed
  -- meanwhile, by the calls that took raft from its state before to its state after, and what the
  -- state machine keeps at the end is what this log, each entry once and in its order, makes of what it
  -- kept before. An entry that raft refused, or never got, has no part in it.
  pub serve-replays :
      (rs : List (Request casbin.Param)) (n : Node b casbin proto raft)
      → let n' = serve (new b casbin proto raft) rs n in
        (log : List Str) × Commits raft n.raft_state log n'.raft_state
        × (n'.fsm ≡ replay b casbin proto log n.fsm)
  unfolding serve
  serve-replays [] n = unchanged b casbin proto raft n
  serve-replays (r ∷ rs) n =
      let n' = serve_one (new b casbin proto raft) r n in
      further b casbin proto raft n n' (serve (new b casbin proto raft) rs n')
        (serve_one-ByEntries r n) (serve-replays rs n')
