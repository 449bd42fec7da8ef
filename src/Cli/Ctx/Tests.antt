-- ===== src/Cli/Ctx/Tests.antt =====
-- Sessions of the client, and the theorems at them.
use casbin_mesh.Prelude.{
  trim_space, list_beq, is_space, true, Str, str, ◌≡◌, refl, some, List, [], ◌∷◌, arith, nat_eq,
  list_eq,
}
use casbin_mesh.Result.{ok}
use casbin_mesh.Cli.Ctx.{
  Ctx, new_ctx, Replies, executor, after_rules, add_policies, sec_of, is_invalid_sec,
}
use casbin_mesh.Cli.Ctx.Cases.{run}
use casbin_mesh.Cli.Ctx.Ptype.{ptype-run}
use casbin_mesh.Cli.Ctx.Commit.{enter, add_lines, commit-add_lines}

abbrev added_one : Replies
added_one = record {
  rules = ok ((str "alice" ∷ []) ∷ []);
  effected = ok true;
  names = ok (str "hr" ∷ []);
}

abbrev line : List Str → List Str × Replies
line words = (words, added_one)

-- A session with the type "p".
abbrev typed : Ctx
typed = record new_ctx { ptype = str "p"; sec = str "p"; transaction = str "add" }

ptype-run_example :
    (run (line (str "abort" ∷ []) ∷ (line (str "add" ∷ (str "g" ∷ [])) ∷ [])) typed).ptype ≡ str "p"
ptype-run_example =
    ptype-run (line (str "abort" ∷ []) ∷ (line (str "add" ∷ (str "g" ∷ [])) ∷ [])) typed
      (ground arith)

-- The second row goes with the first in one request.
commit-add_lines_example :
    let (d, qs) =
      enter added_one
        (add_lines (str "p") ((str "al" ∷ (str "rd" ∷ [])) ∷ ((str "bo" ∷ []) ∷ [])))
        new_ctx in
    (qs ≡ [])
    × (executor (str "commit") added_one d ≡ (
      after_rules added_one.rules (record d { cmd = str "commit" }),
      some (
          add_policies []
            (sec_of (str "p"))
            (str "p")
            ((str "al" ∷ (str "rd" ∷ [])) ∷ ((str "bo" ∷ []) ∷ []))),
    ))
unfolding is_invalid_sec is_space
commit-add_lines_example =
    commit-add_lines (str "p") (str "al" ∷ (str "rd" ∷ [])) ((str "bo" ∷ []) ∷ []) added_one new_ctx
      refl ((λ e. ground (arith, e)), (refl, tt), ground arith)
      (
        (
          (
            ((λ e. ground (arith, e)), (refl, (refl, tt)), ground arith),
            (((λ e. ground (arith, e)), (refl, (refl, tt)), ground arith), tt),
          ),
          omega arith,
        ),
        (((((λ e. ground (arith, e)), (refl, (refl, tt)), ground arith), tt), omega arith), tt),
      )
      refl refl refl

-- A no-break space and an ideographic space around a line are trimmed.
trimmed : trim_space (194 ∷ (160 ∷ (97 ∷ (32 ∷ (227 ∷ (128 ∷ (128 ∷ []))))))) ≡ str "a"
unfolding trim_space list_beq
trimmed = refl
