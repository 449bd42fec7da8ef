-- ===== src/Cli/Ctx/Cases.antt =====
-- A rule for what holds after any line of the session: one premise for each command that changes it.
use casbin_mesh.Prelude.{
  Str, str, ◌≡◌, refl, Bool, true, false, Option, List, [], ◌∷◌, ◌==◌, nat_eq, list_eq,
  if◌then◌else◌,
}
use casbin_mesh.Cli.Ctx.{
  Ctx, Request, Replies, handle_tx_input, handle_update_input, init_tx, delete_item, commit, show,
  use_namespace, dispatch, run_words,
}

pub if_rule {ℓ κ} :
    {A : Type ℓ} (P : A → Type κ) (b : Bool) (x y : A)
    → (b ≡ true → P x)
    → (b ≡ false → P y)
    → P (if b then x else y)
if_rule P true x y hx hy = hx refl
if_rule P false x y hx hy = hy refl

-- Each session line, as the words that it splits into, with the answer of the server.
unfoldable pub run : List (List Str × Replies) → Ctx → Ctx
run [] c = c
run ((words, replies) ∷ ls) c = run ls (run_words words replies c).0

module _ {κ} (P : Ctx → Type κ) (c : Ctx) (argv : List Str) (replies : Replies) (same : P c)
    (deleted : P (delete_item argv c)) (aborted : P (init_tx c))
    (added : P (handle_tx_input (str "add") argv c))
    (removed : P (handle_tx_input (str "remove") argv c))
    (updated : P (handle_update_input (str "update") argv c)) (committed : P (commit replies c).0)
    (used : P (use_namespace argv c)) (shown : P (show argv replies c).0) where
  abbrev After : Ctx × Option Request → Type κ
  After r = P r.0

  pub dispatch_rule : (word : Str) → P (dispatch word argv replies c).0
  unfolding dispatch
  dispatch_rule word =
      if_rule After (word == str "DELETE") _ _ (λ _. deleted)
        λ _.
          if_rule After (word == str "STATS") _ _ (λ _. same)
            λ _.
              if_rule After (word == str "ABORT") _ _ (λ _. aborted)
                λ _.
                  if_rule After (word == str "ADD") _ _ (λ _. added)
                    λ _.
                      if_rule After (word == str "REMOVE") _ _ (λ _. removed)
                        λ _.
                          if_rule After (word == str "UPDATE") _ _ (λ _. updated)
                            λ _.
                              if_rule After (word == str "COMMIT") _ _ (λ _. committed)
                                λ _.
                                  if_rule After (word == str "USE") _ _ (λ _. used)
                                    λ _.
                                      if_rule After (word == str "PRINT") _ _ (λ _. same)
                                        λ _.
                                          if_rule After (word == str "SHOW") _ _ (λ _. shown)
                                            λ _. same
