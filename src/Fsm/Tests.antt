-- ===== src/Fsm/Tests.antt =====
-- Entries of the log, run on a concrete state, and the theorems at them.
use casbin_mesh.Prelude.{
  Str, str, ◌≡◌, refl, none, some, List, [], ◌∷◌, arith, nat_eq, list_eq, list_beq,
}
use casbin_mesh.Dict
use casbin_mesh.Dict.{Dict}
use casbin_mesh.Badger.Table.{table_badger}
use casbin_mesh.Command.{Proto, to_string_array, new_string_array}
use casbin_mesh.Fsm.{State, replay, apply_add_policies}
use casbin_mesh.Fsm.Toy.{Engine, toy_casbin, toy_proto, add_to_hr}
use casbin_mesh.Fsm.Namespaces.{replay_others}

abbrev proto : Proto
proto = toy_proto

abbrev engine : Engine
engine = record { model = some (str "model"); rules = [] }

abbrev start : State table_badger toy_casbin proto
start = record {
  enforcers = (str "hr", engine) ∷ ((str "it", engine) ∷ []);
  db = [];
  meta = (str "n1", (str "addr", str "h:0") ∷ []) ∷ [];
  auth_cred_store = none;
}

abbrev log : List Str
log = add_to_hr ∷ []

add_run :
    Dict.lookup (str "hr") (replay table_badger toy_casbin proto log start).enforcers
    ≡ some (record engine { rules = (str "alice" ∷ []) ∷ [] })
unfolding replay Dict.lookup list_beq apply_add_policies Dict.insert to_string_array
    new_string_array
add_run = refl

replay_others_example :
    Dict.lookup (str "it") (replay table_badger toy_casbin proto log start).enforcers
    ≡ Dict.lookup (str "it") start.enforcers
replay_others_example =
    replay_others table_badger toy_casbin proto (str "it") log start ((λ c e. ground arith), tt)
