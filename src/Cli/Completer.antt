-- ===== src/Cli/Completer.antt =====
-- cmd/cli/ctx.go: what the interactive client suggests. The filter by the word before the cursor is
-- the library go-prompt's, and a parameter.
pub mod Repeat
mod Tests
use mathlib.Core.List.{append-nil}
use casbin_mesh.Prelude.{
  ℕ, zero, suc, ◌≤◌, ◌∙◌, ap, sym, Str, str, ◌≡◌, ◌≢◌, refl, Bool, true, false, not, ltb, Option,
  none, some, List, [], ◌∷◌, ◌++◌, map, length, arith, ◌==◌, nat_eq, list_eq, list_beq, eq_iff,
  eq_refl, All, join, split_byte, is_space, trim_left, trim_right, trim_space, to_upper,
  if◌then◌else◌,
}
use casbin_mesh.Result.{Error, Result, ok, err}
use casbin_mesh.Cli.Words.{IsWord, tail, blanks, join-tail, trim_right-words, split-tail}
use casbin_mesh.Cli.Rule.{CasbinRule, convert_rule}
use casbin_mesh.Cli.Ctx.{
  Ctx, Replies, Request, executor, run_words, dispatch, handle_update_input, add_to_groups, sec_of,
  is_invalid_sec,
}

-- `prompt.Suggest`
pub record Suggest : Type 0 where
  pub text : Str
  pub description : Str

abbrev suggest : Str → Str → Suggest
suggest text description = record { text = text; description = description }

unfoldable pub tx_suggests : List Suggest
tx_suggests =
    suggest (str "abort") (str "Abort")
    ∷ suggest (str "commit") (str "Commit")
    ∷ suggest (str "delete") (str "Delete")
    ∷ []

unfoldable pub add_suggests : List Suggest
add_suggests = suggest (str "add") (str "Add") ∷ []

unfoldable pub remove_suggests : List Suggest
remove_suggests = suggest (str "remove") (str "Remove") ∷ []

unfoldable pub update_suggests : List Suggest
update_suggests = suggest (str "update") (str "Update") ∷ []

-- `merge`
unfoldable pub merge : List (List Suggest) → List Suggest
merge [] = []
merge (p ∷ ps) = p ++ merge ps

unfoldable pub top_level_suggests : List Suggest
unfolding merge add_suggests update_suggests remove_suggests
top_level_suggests = merge (
    (suggest (str "stats") (str "Show statics")
      ∷ suggest (str "use") (str "Set namespace")
      ∷ suggest (str "exit") (str "Exit")
      ∷ suggest (str "show namespaces") (str "Show namespaces")
      ∷ [])
    ∷ add_suggests
    ∷ update_suggests
    ∷ remove_suggests
    ∷ [])

unfoldable pub namespace_suggests : List Suggest
unfolding top_level_suggests
namespace_suggests =
    (suggest (str "print model") (str "Print model")
      ∷ suggest (str "show policies") (str "List all policies")
      ∷ [])
    ++ top_level_suggests

-- `LoadNamespaces`: the names are added to those that are there.
unfoldable pub load_namespaces : Result (List Str) → Ctx → Ctx × Option Error
load_namespaces (err e) c = (c, some e)
load_namespaces (ok ns) c = (record c { namespaces = c.namespaces ++ ns }, none)

-- The text that repeats the first rule of a group.
unfoldable pub update_text : CasbinRule → Str
unfolding trim_space join
update_text r =
    trim_space
      (join (str " ") (str "update" ∷ r.p_type ∷ r.v0 ∷ r.v1 ∷ r.v2 ∷ r.v3 ∷ r.v4 ∷ r.v5 ∷ []))

-- A group of one rule at the end is half an update.
unfoldable pub half_update : List (List CasbinRule) → List Suggest
unfolding update_text
half_update [] = []
half_update ((r ∷ []) ∷ []) = suggest (update_text r) [] ∷ []
half_update ([] ∷ []) = []
half_update ((o ∷ (n ∷ more)) ∷ []) = []
half_update (g ∷ (h ∷ gs)) = half_update (h ∷ gs)

-- Outside of a transaction: the commands, and the names of the namespaces.
unfoldable pub outside_suggests : Ctx → List Suggest
unfolding namespace_suggests
outside_suggests c =
    let names = map (λ ns. suggest ns (str "Namespace")) c.namespaces in
    if c.transaction == []
    then (if not (c.namespace == [])
        then namespace_suggests ++ names
        else top_level_suggests ++ names)
    else []

unfoldable pub completer : (List Suggest → Str → Bool → List Suggest) → Ctx → Str → List Suggest
unfolding outside_suggests tx_suggests half_update
completer filter_has_prefix c word =
    filter_has_prefix
      (if c.transaction == str "add"
        then add_suggests ++ (tx_suggests ++ outside_suggests c)
        else if c.transaction == str "remove"
        then remove_suggests ++ (tx_suggests ++ outside_suggests c)
        else if c.transaction == str "update"
        then half_update c.update_operations
          ++ (update_suggests ++ (tx_suggests ++ outside_suggests c))
        else outside_suggests c)
      word true
