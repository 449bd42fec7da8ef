-- ===== src/Cli/Completer/Tests.antt =====
-- A session in the middle of an update, and the theorem at it.
use casbin_mesh.Prelude.{
  Str, str, Bool, ◌||◌, ◌&&◌, if◌then◌else◌, has_prefix, to_upper, nat_eq, list_eq, ◌≡◌, refl, List,
  [], ◌∷◌, list_beq,
}
use casbin_mesh.Result.{ok, err, message}
use casbin_mesh.Cli.Rule.{CasbinRule, convert_rule}
use casbin_mesh.Cli.Ctx.{Ctx, new_ctx, Replies}
use casbin_mesh.Cli.Completer.{Suggest, load_namespaces, update_text}

-- The suggestions that begin with the prefix, also in letters of the other case.
unfoldable by_prefix : List Suggest → Str → Bool → List Suggest
by_prefix [] prefix ignore_case = []
by_prefix (s ∷ suggestions) prefix ignore_case =
    let rest = by_prefix suggestions prefix ignore_case in
    if has_prefix prefix s.text || (ignore_case && has_prefix (to_upper prefix) (to_upper s.text))
    then s ∷ rest
    else rest

abbrev replies : Replies
replies = record { rules = ok []; effected = err (message (str "unavailable")); names = ok [] }

abbrev old : CasbinRule
old = convert_rule (str "p") (str "al" ∷ (str "rd" ∷ []))

-- The second update has one rule so far.
abbrev session : Ctx
session = record new_ctx {
  transaction = str "update";
  sec = str "p";
  update_operations = (old ∷ (old ∷ [])) ∷ ((old ∷ []) ∷ []);
}

the_text : update_text old ≡ str "update p al rd"
unfolding update_text convert_rule list_beq
the_text = refl

loaded :
    (load_namespaces
      (ok (str "hr" ∷ []))
      (record new_ctx { namespaces = str "it" ∷ [] })).0.namespaces
    ≡ str "it" ∷ (str "hr" ∷ [])
unfolding load_namespaces
loaded = refl
