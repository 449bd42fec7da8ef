-- ===== src/Store/Shown.antt =====
-- A node that waits until its log is applied, and the theorem at it.
use casbin_mesh.Prelude.{
  str, true, false, ◌≡◌, none, some, [], ◌∷◌, arith, if◌then◌else◌, nat_eq, list_eq,
}
use casbin_mesh.Result.{ok, open_timeout}
use casbin_mesh.Store.{Raft, Server}
use casbin_mesh.Store.Toy.{one_node}
use casbin_mesh.Store.Waiting.{tick, expired, wait_for_applied, wait_for_applied-ends}

abbrev second : Server
second = record { id = str "n2"; address = str "h:2" }

abbrev first : Server
first = record { id = str "n1"; address = str "h:1" }

-- Raft that knows a leader, and has applied its log, while the flag is set.
abbrev starting : Raft
starting = record one_node {
  leader = λ ready. if ready then str "h:1" else [];
  applied_index = λ ready. if ready then 4 else 2;
  servers = λ ready. ok (second ∷ (first ∷ []));
}

wait_for_applied-ends_example :
    (wait_for_applied starting false false (tick false ∷ []) ≡ none)
    × (wait_for_applied starting false false (tick false ∷ (expired ∷ []))
        ≡ some (some open_timeout))
    × (wait_for_applied starting false false (tick false ∷ (tick true ∷ [])) ≡ some none)
wait_for_applied-ends_example =
    wait_for_applied-ends starting false true (false ∷ []) [] (ground arith, tt) (ground arith)
