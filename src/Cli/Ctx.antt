-- ===== src/Cli/Ctx.antt =====
-- cmd/cli/ctx.go: the session of the interactive client, a state machine over the lines that the
-- user types. Each line makes at most one request of the server; what is printed is left out.
pub mod Cases
pub mod Ptype
pub mod Commit
mod Tests
use casbin_mesh.Prelude.{
  ℕ, suc, Str, str, split_byte, trim_space, to_upper, Bool, true, false, ◌&&◌, not, Option, none,
  some, List, [], ◌∷◌, ◌++◌, take, drop, length, ltb, ◌==◌, nat_eq, list_eq, if◌then◌else◌,
}
use casbin_mesh.Result.{Result, ok, err}
use casbin_mesh.Cli.Number.{atoi}
use casbin_mesh.Cli.Rule.{CasbinRule, convert_rule, to_2d_string, groups_to_2d_string}

pub record Ctx : Type 0 where
  pub transaction : Str
  pub sec : Str
  pub ptype : Str
  pub operations : List CasbinRule
  pub update_operations : List (List CasbinRule)
  pub cmd : Str
  pub namespace : Str
  pub namespaces : List Str

abbrev pub new_ctx : Ctx
new_ctx = record {
  transaction = [];
  sec = [];
  ptype = [];
  operations = [];
  update_operations = [];
  cmd = [];
  namespace = [];
  namespaces = [];
}

-- The requests of client/v2 that a line can make.
pub data Request : Type 0 where
  add_policies : Str → Str → Str → List (List Str) → Request
  remove_policies : Str → Str → Str → List (List Str) → Request
  update_policies : Str → Str → Str → List (List Str) → List (List Str) → Request
  show_stats : Request
  print_model : Str → Request
  list_policies : Str → Request
  list_namespaces : Request

-- What the server answers to the request of a line, whichever it is.
pub record Replies : Type 0 where
  pub rules : Result (List (List Str))
  pub effected : Result Bool
  pub names : Result (List Str)

-- The first byte of a type is its section.
unfoldable pub sec_of : Str → Str
sec_of [] = []
sec_of (c ∷ s) = c ∷ []

-- `argv[0] != ""` and a section that is neither "g" nor "p"
unfoldable pub is_invalid_sec : Str → Bool
is_invalid_sec [] = false
is_invalid_sec (c ∷ s) = not (c == b'g') && not (c == b'p')

-- Another transaction is under way.
abbrev pub is_busy : Str → Ctx → Bool
is_busy name c = not (c.transaction == name) && not (c.transaction == [])

unfoldable pub handle_tx_input : Str → List Str → Ctx → Ctx
unfolding sec_of is_invalid_sec
handle_tx_input name [] c = if is_busy name c then c else record c { transaction = name }
handle_tx_input name (ptype ∷ line) c =
    if is_busy name c
    then c
    else if is_invalid_sec ptype
    then record c { transaction = name }
    else if not (c.ptype == []) && not (c.ptype == ptype)
    then record c { transaction = name }
    else record c {
      transaction = name;
      sec = sec_of ptype;
      ptype = ptype;
      operations = c.operations ++ (convert_rule ptype line ∷ []);
    }

-- A rule completes the last group if that has one rule, and begins a group otherwise.
unfoldable pub add_to_groups : CasbinRule → List (List CasbinRule) → List (List CasbinRule)
add_to_groups r [] = (r ∷ []) ∷ []
add_to_groups r ((o ∷ []) ∷ []) = (o ∷ (r ∷ [])) ∷ []
add_to_groups r ([] ∷ []) = [] ∷ ((r ∷ []) ∷ [])
add_to_groups r ((o ∷ (n ∷ more)) ∷ []) = (o ∷ (n ∷ more)) ∷ ((r ∷ []) ∷ [])
add_to_groups r (g ∷ (h ∷ gs)) = g ∷ add_to_groups r (h ∷ gs)

unfoldable pub handle_update_input : Str → List Str → Ctx → Ctx
unfolding sec_of is_invalid_sec
handle_update_input name [] c = if is_busy name c then c else record c { transaction = name }
handle_update_input name (ptype ∷ line) c =
    if is_busy name c
    then c
    else if is_invalid_sec ptype
    then record c { transaction = name }
    else if not (c.sec == []) && not (c.sec == sec_of ptype)
    then record c { transaction = name }
    else record c {
      transaction = name;
      sec = sec_of ptype;
      update_operations = add_to_groups (convert_rule ptype line) c.update_operations;
    }

unfoldable pub init_tx : Ctx → Ctx
init_tx c = record c { transaction = []; sec = []; operations = []; update_operations = [] }

-- `append(slice[:s], slice[s+1:]...)`
unfoldable pub update_operations_remove : List (List CasbinRule) → ℕ → List (List CasbinRule)
update_operations_remove slice s = take s slice ++ drop (suc s) slice

-- `DELETE`: the error of Atoi is printed, and its value is used all the same.
unfoldable pub delete_item : List Str → Ctx → Ctx
unfolding update_operations_remove
delete_item [] c = c
delete_item (a ∷ argv) c = elim (atoi a) [
  | none ↦ c
  | some index ↦
      if ltb index (length c.update_operations)
      then record c { update_operations = update_operations_remove c.update_operations index }
      else c
]

-- After an "add" or "remove" was sent: the queue is dropped only if some rule was effected.
unfoldable pub after_rules : Result (List (List Str)) → Ctx → Ctx
unfolding init_tx
after_rules (err e) c = c
after_rules (ok []) c = c
after_rules (ok (r ∷ rs)) c = init_tx c

unfoldable pub after_update : Result Bool → Ctx → Ctx
unfolding init_tx
after_update (err e) c = c
after_update (ok false) c = c
after_update (ok true) c = init_tx c

unfoldable pub commit : Replies → Ctx → Ctx × Option Request
unfolding after_rules after_update
commit replies c =
    if c.transaction == str "add"
    then (
      after_rules replies.rules c,
      some (add_policies c.namespace c.sec c.ptype (to_2d_string c.operations)),
    )
    else if c.transaction == str "update"
    then (
      after_update replies.effected c,
      some (
          update_policies c.namespace c.sec c.ptype (groups_to_2d_string c.update_operations).0
            (groups_to_2d_string c.update_operations).1),
    )
    else if c.transaction == str "remove"
    then (
      after_rules replies.rules c,
      some (remove_policies c.namespace c.sec c.ptype (to_2d_string c.operations)),
    )
    else (c, none)

unfoldable pub load_names : Result (List Str) → List Str
load_names (err e) = []
load_names (ok ns) = ns

unfoldable pub show : List Str → Replies → Ctx → Ctx × Option Request
unfolding load_names
show [] replies c = (c, none)
show (what ∷ argv) replies c =
    if to_upper what == str "POLICIES"
    then (c, some (list_policies c.namespace))
    else if to_upper what == str "NAMESPACES"
    then (record c { namespaces = load_names replies.names }, some list_namespaces)
    else (c, none)

unfoldable pub use_namespace : List Str → Ctx → Ctx
use_namespace [] c = c
use_namespace (ns ∷ argv) c = record c { namespace = ns }

unfoldable pub print : List Str → Ctx → Option Request
print [] c = none
print (what ∷ argv) c = if what == str "model" then some (print_model c.namespace) else none

-- The switch over the first word; `c` has the word in `cmd` already.
unfoldable pub dispatch : Str → List Str → Replies → Ctx → Ctx × Option Request
unfolding init_tx
dispatch word argv replies c =
    if word == str "DELETE"
    then (delete_item argv c, none)
    else if word == str "STATS"
    then (c, some show_stats)
    else if word == str "ABORT"
    then (init_tx c, none)
    else if word == str "ADD"
    then (handle_tx_input (str "add") argv c, none)
    else if word == str "REMOVE"
    then (handle_tx_input (str "remove") argv c, none)
    else if word == str "UPDATE"
    then (handle_update_input (str "update") argv c, none)
    else if word == str "COMMIT"
    then commit replies c
    else if word == str "USE"
    then (use_namespace argv c, none)
    else if word == str "PRINT"
    then (c, print argv c)
    else if word == str "SHOW"
    then show argv replies c
    else (c, none)

unfoldable pub run_words : List Str → Replies → Ctx → Ctx × Option Request
run_words [] replies c = (c, none)
run_words (word ∷ argv) replies c = dispatch (to_upper word) argv replies (record c { cmd = word })

unfoldable pub executor : Str → Replies → Ctx → Ctx × Option Request
unfolding run_words
executor line replies c = run_words (split_byte b' ' (trim_space line)) replies c
