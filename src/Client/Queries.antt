-- ===== src/Client/Queries.antt =====
-- client/v2/client.go: the requests that read. Each is a call of its own on the connection; a response
-- has a text for an error, blank for none.
use casbin_mesh.Prelude.{
  Str, str, Option, none, some, List, [], ◌==◌, nat_eq, list_eq, if◌then◌else◌,
}
use casbin_mesh.Result.{Error, Result, ok, err, message}
use casbin_mesh.Badger.{Badger}
use casbin_mesh.Casbin.{Casbin}
use casbin_mesh.Command.{Proto, StringArray, new_string_array, to_string_array}
use casbin_mesh.Store.{Raft, Node, Answer}
use casbin_mesh.Store.Manage
use casbin_mesh.Store.Status.{Settings, stats}
use casbin_mesh.Http.Json.{Json}
use casbin_mesh.Grpc

-- The responses, as the pair of the error's text and the value.
pub record Queries (W : Type 0) : Type 0 where
  pub list_namespaces : W → W × Result (Str × List Str)
  pub list_policies : Str → W → W × Result (Str × List StringArray)
  pub print_model : Str → W → W × Result (Str × Str)
  pub show_stats : W → W × Result Str

module _ {W : Type 0} (c : Queries W) where
  abbrev value_of : {A : Type 0} → W × Result (Str × A) → W × Result A
  value_of (w, err e) = (w, err e)
  value_of (w, ok (error, a)) = if error == [] then (w, ok a) else (w, err (message error))

  unfoldable pub list_namespaces : W → W × Result (List Str)
  list_namespaces w = value_of (c.list_namespaces w)

  unfoldable pub print_model : Str → W → W × Result Str
  print_model namespace w = value_of (c.print_model namespace w)

  -- The error in the response is not looked at.
  abbrev policies_of : W × Result (Str × List StringArray) → W × Result (List (List Str))
  policies_of (w, err e) = (w, err e)
  policies_of (w, ok (error, policies)) = (w, ok (to_string_array policies))

  unfoldable pub list_policies : Str → W → W × Result (List (List Str))
  unfolding to_string_array
  list_policies namespace w = policies_of (c.list_policies namespace w)

  unfoldable pub show_stats : W → W × Result Str
  show_stats w = c.show_stats w

module _ (b : Badger) (casbin : Casbin b) (proto : Proto) (raft : Raft) (set : Settings)
    (marshal : Json → Str) (status : Error → Error) where
  -- `ShowStats` of server/core/grpc.go, as a client gets it. An error of a handler reaches a client as
  -- the status error that gRPC makes of it, the parameter `status`.
  unfoldable pub service_stats : Node b casbin proto raft → Node b casbin proto raft × Result Str
  unfolding stats
  service_stats n = elim (stats b casbin proto raft set n) [
    | err e ↦ (n, err (status e))
    | ok v ↦ (n, ok (marshal v))
  ]

  -- A call that panics ends the connection.
  abbrev sent :
      {A B : Type 0}
      → (A → B)
      → Node b casbin proto raft × Option (Result A)
      → Node b casbin proto raft × Result (Str × B)
  sent f (n, none) = (n, err (message (str "unavailable")))
  sent f (n, some (err e)) = (n, err (status e))
  sent f (n, some (ok a)) = (n, ok ([], f a))

  -- The connection to the service of one node.
  abbrev pub node_queries : Queries (Node b casbin proto raft)
  node_queries = record {
    list_namespaces = λ n. sent (λ names. names) (Grpc.list_namespaces b casbin proto raft n);
    list_policies = λ ns n. sent new_string_array (Grpc.list_policies b casbin proto raft ns n);
    print_model = λ ns n. sent (λ text. text) (Grpc.print_model b casbin proto raft ns n);
    show_stats = service_stats;
  }

  -- What the client makes of a store's answer.
  abbrev pub seen :
      {A : Type 0} → Node b casbin proto raft × Answer A → Node b casbin proto raft × Result A
  seen (n, none) = (n, err (message (str "unavailable")))
  seen (n, some (a, none)) = (n, ok a)
  seen (n, some (a, some e)) = (n, err (status e))
