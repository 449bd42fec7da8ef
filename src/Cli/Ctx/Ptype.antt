-- ===== src/Cli/Ctx/Ptype.antt =====
-- The policy type of a session: which commands set it, and that none resets it.
use casbin_mesh.Prelude.{
  sym, All, Str, str, ◌≡◌, ◌≢◌, refl, ◌∙◌, some, List, [], ◌∷◌, arith, nat_eq, list_eq, eq_iff,
  to_upper,
}
use casbin_mesh.Cli.Ctx.{
  Ctx, new_ctx, Replies, handle_tx_input, handle_update_input, init_tx, delete_item, commit, show,
  use_namespace, dispatch, run_words, update_policies,
}
use casbin_mesh.Cli.Rule.{groups_to_2d_string}
use casbin_mesh.Cli.Ctx.Cases.{run, dispatch_rule}

module _ (c : Ctx) (argv : List Str) (replies : Replies) where
  ptype-delete_item : (delete_item argv c).ptype ≡ c.ptype
  unfolding delete_item
  ptype-delete_item = ground arith

  ptype-commit : (commit replies c).0.ptype ≡ c.ptype
  unfolding commit
  ptype-commit = ground arith

  ptype-use_namespace : (use_namespace argv c).ptype ≡ c.ptype
  unfolding use_namespace
  ptype-use_namespace = ground arith

  ptype-show : (show argv replies c).0.ptype ≡ c.ptype
  unfolding show
  ptype-show = ground arith

  ptype-handle_update_input : (name : Str) → (handle_update_input name argv c).ptype ≡ c.ptype
  unfolding handle_update_input
  ptype-handle_update_input name = ground arith

  ptype-handle_tx_input :
      (name : Str) → c.ptype ≢ [] → (handle_tx_input name argv c).ptype ≡ c.ptype
  unfolding handle_tx_input
  ptype-handle_tx_input name h = ground (arith, eq_iff c.ptype [], ptype_of_line argv)
    where
      ptype_of_line : (ws : List Str) → (handle_tx_input name ws c).ptype ≡ c.ptype
      ptype_of_line [] = ground arith
      ptype_of_line (p ∷ line) = ground (arith, eq_iff c.ptype [], eq_iff c.ptype p)

  ptype-dispatch : (word : Str) → c.ptype ≢ [] → (dispatch word argv replies c).0.ptype ≡ c.ptype
  unfolding init_tx
  ptype-dispatch word h =
      dispatch_rule (λ d. d.ptype ≡ c.ptype) c argv replies refl ptype-delete_item refl
        (ptype-handle_tx_input (str "add") h) (ptype-handle_tx_input (str "remove") h)
        (ptype-handle_update_input (str "update")) ptype-commit ptype-use_namespace ptype-show word

ptype-run_words :
    (words : List Str) (replies : Replies) (c : Ctx)
    → c.ptype ≢ []
    → (run_words words replies c).0.ptype ≡ c.ptype
unfolding run_words
ptype-run_words [] replies c h = refl
ptype-run_words (w ∷ argv) replies c h =
    ptype-dispatch (record c { cmd = w }) argv replies (to_upper w) h

-- Once a session has a policy type, no lines change it: neither a commit nor an abort resets it.
pub ptype-run :
    (ls : List (List Str × Replies)) (c : Ctx) → c.ptype ≢ [] → (run ls c).ptype ≡ c.ptype
unfolding run
ptype-run [] c h = refl
ptype-run ((words, replies) ∷ ls) c h =
    let first = ptype-run_words words replies c h in
    ptype-run ls (run_words words replies c).0 (λ e. h (sym first ∙ e)) ∙ first

-- A session that has had one policy type refuses rules of every other type for good, after any
-- lines: what is queued is as before.
pub refused_forever :
    (ls : List (List Str × Replies)) (c : Ctx) (name ptype : Str) (line : List Str)
    → c.ptype ≢ []
    → ptype ≢ c.ptype
    → let d = run ls c in (handle_tx_input name (ptype ∷ line) d).operations ≡ d.operations
unfolding handle_tx_input
refused_forever ls c name ptype line h other =
    ground (arith, ptype-run ls c h, eq_iff (run ls c).ptype [], eq_iff (run ls c).ptype ptype)

-- A line that is no ADD and no REMOVE.
abbrev pub IsNoTx : List Str × Replies → Type 0
IsNoTx ([], replies) = Unit
IsNoTx (w ∷ argv, replies) = (to_upper w ≢ str "ADD") × (to_upper w ≢ str "REMOVE")

ptype-dispatch-no_tx :
    (word : Str) (argv : List Str) (replies : Replies) (c : Ctx)
    → word ≢ str "ADD"
    → word ≢ str "REMOVE"
    → (dispatch word argv replies c).0.ptype ≡ c.ptype
unfolding dispatch init_tx
ptype-dispatch-no_tx word argv replies c no_add no_remove = ground (
  arith,
  eq_iff word (str "ADD"),
  eq_iff word (str "REMOVE"),
  ptype-delete_item c argv replies,
  ptype-handle_update_input c argv replies (str "update"),
  ptype-commit c argv replies,
  ptype-use_namespace c argv replies,
  ptype-show c argv replies,
)

ptype-run-no_tx :
    (ls : List (List Str × Replies)) (c : Ctx) → All IsNoTx ls → (run ls c).ptype ≡ c.ptype
unfolding run run_words
ptype-run-no_tx [] c h = refl
ptype-run-no_tx (([], replies) ∷ ls) c h = ptype-run-no_tx ls c h.1
ptype-run-no_tx ((w ∷ argv, replies) ∷ ls) c h =
    ptype-run-no_tx ls _ h.1
    ∙ ptype-dispatch-no_tx (to_upper w) argv replies (record c { cmd = w }) h.0.0 h.0.1

-- UPDATE never sets the policy type: in a new session of any lines but ADD and REMOVE, the commit of
-- an update sends a blank type with the queued pairs.
pub commit-update-blank :
    (ls : List (List Str × Replies)) (replies : Replies)
    → All IsNoTx ls
    → let c = run ls new_ctx in
      c.transaction ≡ str "update"
      → (commit replies c).1
        ≡ some (
            update_policies c.namespace c.sec []
              (groups_to_2d_string c.update_operations).0
              (groups_to_2d_string c.update_operations).1)
unfolding commit
commit-update-blank ls replies h t = ground (
  arith,
  ptype-run-no_tx ls new_ctx h,
  eq_iff (run ls new_ctx).transaction (str "add"),
  eq_iff (run ls new_ctx).transaction (str "update"),
)
