-- ===== src/Cli/Completer/Repeat.antt =====
-- The line that the client suggests in the middle of an update.
use casbin_mesh.Prelude.{Str, ◌≡◌, Bool, true, List, [], ◌∷◌, nat_eq, list_eq, has_prefix}
use casbin_mesh.Cli.Rule.{CasbinRule}
use casbin_mesh.Cli.Ctx.{Ctx}
use casbin_mesh.Cli.Completer.{Suggest}

abbrev values : CasbinRule → List Str
values r = r.v0 ∷ r.v1 ∷ r.v2 ∷ r.v3 ∷ r.v4 ∷ r.v5 ∷ []

-- go-prompt's filter keeps each suggestion that begins with the word before the cursor.
abbrev pub KeepsPrefixed : (List Suggest → Str → Bool → List Suggest) → Str → Type 0
KeepsPrefixed filter_has_prefix word =
    (s : Suggest) (others : List Suggest)
    → has_prefix word s.text ≡ true
    → filter_has_prefix (s ∷ others) word true ≡ s ∷ filter_has_prefix others word true
