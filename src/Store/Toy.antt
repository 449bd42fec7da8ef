-- ===== src/Store/Toy.antt =====
-- A cluster of one node for the tests.
use casbin_mesh.Prelude.{Str, str, Bool, true, false, none, some, List, [], ◌∷◌, pos, if◌then◌else◌}
use casbin_mesh.Result.{ok, err}
use casbin_mesh.Badger.Table.{table_badger}
use casbin_mesh.Command.{CommandType}
use casbin_mesh.Fsm.{State}
use casbin_mesh.Fsm.Toy.{Engine, toy_casbin, toy_proto, command_codec}
use casbin_mesh.Store.{Raft, raft_not_leader, Node, observe}

-- Raft of one node that commits what it is sent while it leads, as the flag says.
abbrev pub one_node : Raft
one_node = record {
  R = Bool;
  is_leader = λ leads. leads;
  since_contact = λ leads. pos 9;
  leader = λ leads. str "h:1";
  applied_index = λ leads. 4;
  last_index = λ leads. 4;
  stats = λ leads. (str "term", str "2") ∷ ((str "state", str "Leader") ∷ []);
  submit = λ entry leads. (leads, [], if leads then none else some raft_not_leader);
  servers = λ leads. ok (record { id = str "n1"; address = str "h:1" } ∷ []);
  add_voter = λ id addr leads. (leads, [], none);
  add_nonvoter = λ id addr leads. (leads, [], none);
  remove_server = λ id leads. (leads, [], none);
}

abbrev pub engine : Engine
engine = record { model = some (str "model"); rules = (str "bob" ∷ []) ∷ [] }

abbrev pub unset : Engine
unset = record { model = none; rules = [] }

abbrev pub ANode : Type 0
ANode = Node table_badger toy_casbin toy_proto one_node

abbrev pub start : State table_badger toy_casbin toy_proto
start = record {
  enforcers = (str "hr", engine) ∷ ((str "it", unset) ∷ []);
  db = [];
  meta = [];
  auth_cred_store = none;
}

abbrev pub leader : ANode
leader = record { raft_id = str "n1"; raft_state = true; fsm = start; credentials_store = none }

abbrev pub follower : ANode
follower = record { raft_id = str "n1"; raft_state = false; fsm = start; credentials_store = none }

abbrev pub entry_of : CommandType → Str → Str → Str
entry_of kind ns payload =
    elim (command_codec.marshal (record { kind = kind; namespace = ns; payload = payload })) [
      | ok s ↦ s
      | err e ↦ []
    ]

abbrev pub alice : List (List Str)
alice = (str "alice" ∷ []) ∷ []

abbrev pub node' : ANode
node' = observe table_badger toy_casbin toy_proto one_node true [] leader
