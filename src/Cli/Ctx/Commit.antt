-- ===== src/Cli/Ctx/Commit.antt =====
-- What a transaction sends: the queued rules, in the order in which they were typed.
use mathlib.Core.List.{append-nil, append_assoc}
use casbin_mesh.Result.{ok, err, Result}
use casbin_mesh.Prelude.{
  ◌≤◌, length, join, Option, none, to_upper, list_beq, trim_space, split_byte, is_space, some, refl,
  ap, ◌≢◌, ◌∙◌, sym, All, Str, str, ◌≡◌, false, List, [], ◌∷◌, ◌++◌, arith, nat_eq, list_eq, eq_iff,
}
use casbin_mesh.Cli.Ctx.{
  executor, run_words, dispatch, Request, add_policies, init_tx, commit, after_rules, Replies, Ctx,
  handle_tx_input, is_invalid_sec, sec_of,
}
use casbin_mesh.Cli.Words.{IsWord, words-line}
use casbin_mesh.Cli.Rule.{CasbinRule, row-convert_rule, to_2d_string, IsRow, convert_rule}

-- What lines of one session make, one after the other: the requests in their order.
abbrev asked : Option Request → List Request → List Request
asked none qs = qs
asked (some q) qs = q ∷ qs

unfoldable pub enter : Replies → List Str → Ctx → Ctx × List Request
enter replies [] c = (c, [])
enter replies (line ∷ lines) c =
    let (c', q) = executor line replies c in let (d, qs) = enter replies lines c' in (d, asked q qs)

-- The ADD lines of a policy type, one for each row.
abbrev pub add_lines : Str → List (List Str) → List Str
add_lines ptype [] = []
add_lines ptype (row ∷ rows) = join (str " ") (str "add" ∷ (ptype ∷ row)) ∷ add_lines ptype rows

-- At most six fields, which are words.
abbrev pub IsTyped : List Str → Type 0
IsTyped row = All IsWord row × (length row ≤ 6)

typed-IsRow : (row : List Str) → IsTyped row → IsRow row
typed-IsRow row t = (filled row t.0, t.1)
  where
    filled : (xs : List Str) → All IsWord xs → All (λ x. x ≢ []) xs
    filled [] h = tt
    filled (x ∷ xs) h = (h.0.0, filled xs h.1)

add-IsWord : IsWord (str "add")
unfolding is_space
add-IsWord = (λ e. ground (arith, e), (refl, (refl, (refl, tt))), ground arith)

-- An ADD line reaches its handler, and makes no request.
executor-add :
    (ptype : Str) (row : List Str) (replies : Replies) (c : Ctx)
    → IsWord ptype
    → All IsWord row
    → executor (join (str " ") (str "add" ∷ (ptype ∷ row))) replies c
      ≡ (handle_tx_input (str "add") (ptype ∷ row) (record c { cmd = str "add" }), none)
unfolding executor run_words dispatch to_upper list_beq
executor-add ptype row replies c word words =
    rw (words-line (str "add") (ptype ∷ row) add-IsWord (word, words)) refl

enter-add :
    (ptype : Str) (row : List Str) (rows : List (List Str)) (replies : Replies) (c : Ctx)
    → IsWord ptype
    → All IsWord row
    → enter replies (add_lines ptype (row ∷ rows)) c
      ≡ enter replies
          (add_lines ptype rows)
          (handle_tx_input (str "add") (ptype ∷ row) (record c { cmd = str "add" }))
unfolding enter
enter-add ptype row rows replies c word words =
    ap (λ p. let (d, qs) = enter replies (add_lines ptype rows) p.0 in (d, asked p.1 qs))
      (executor-add ptype row replies c word words)

executor-commit :
    (replies : Replies) (c : Ctx)
    → executor (str "commit") replies c ≡ commit replies (record c { cmd = str "commit" })
unfolding executor run_words dispatch to_upper list_beq trim_space split_byte is_space
executor-commit replies c = refl

-- A session that takes ADD lines of a type: no other transaction or type is under way.
pub record IsOpen (ptype : Str) (c : Ctx) : Type 0 where
  pub kind : c.transaction ≡ str "add"
  pub type : c.ptype ≡ ptype
  pub section_of : c.sec ≡ sec_of ptype

add-IsOpen :
    (ptype : Str) (row : List Str) (c : Ctx)
    → is_invalid_sec ptype ≡ false
    → IsOpen ptype c
    → let d = handle_tx_input (str "add") (ptype ∷ row) c in
      IsOpen ptype d
      × (d.operations ≡ c.operations ++ (convert_rule ptype row ∷ []))
      × (d.namespace ≡ c.namespace)
unfolding handle_tx_input
add-IsOpen ptype row c valid o =
    ground
      (arith, eq_iff c.transaction (str "add"), eq_iff c.ptype ptype, o.kind, o.type, o.section_of)

first_add :
    (ptype : Str) (row : List Str) (c : Ctx)
    → is_invalid_sec ptype ≡ false
    → c.transaction ≡ []
    → c.ptype ≡ []
    → c.operations ≡ []
    → let d = handle_tx_input (str "add") (ptype ∷ row) c in
      IsOpen ptype d × (d.operations ≡ convert_rule ptype row ∷ []) × (d.namespace ≡ c.namespace)
unfolding handle_tx_input
first_add ptype row c valid idle untyped nothing =
    ground (arith, eq_iff c.transaction [], eq_iff c.ptype [])

to_2d_string-append :
    (rs qs : List CasbinRule) → to_2d_string (rs ++ qs) ≡ to_2d_string rs ++ to_2d_string qs
unfolding to_2d_string
to_2d_string-append [] qs = refl
to_2d_string-append (r ∷ rs) qs = rw (to_2d_string-append rs qs)

-- One more row in the queue is one more row in what is sent.
sent_row :
    (ptype : Str) (row : List Str) (rs : List CasbinRule)
    → IsRow row
    → to_2d_string (rs ++ (convert_rule ptype row ∷ [])) ≡ to_2d_string rs ++ (row ∷ [])
unfolding to_2d_string
sent_row ptype row rs h =
    to_2d_string-append rs (convert_rule ptype row ∷ [])
    ∙ ap (λ r. to_2d_string rs ++ (r ∷ [])) (row-convert_rule ptype row h)

-- The command word of a line is no part of the transaction.
cmd-IsOpen : (ptype w : Str) (c : Ctx) → IsOpen ptype c → IsOpen ptype (record c { cmd = w })
cmd-IsOpen ptype w c o = record { kind = o.kind; type = o.type; section_of = o.section_of }

enter-IsOpen :
    (ptype : Str) (rows : List (List Str)) (replies : Replies) (c : Ctx)
    → is_invalid_sec ptype ≡ false
    → IsWord ptype
    → All IsTyped rows
    → IsOpen ptype c
    → let (d, qs) = enter replies (add_lines ptype rows) c in
      IsOpen ptype d
      × (to_2d_string d.operations ≡ to_2d_string c.operations ++ rows)
      × (d.namespace ≡ c.namespace)
      × (qs ≡ [])
unfolding enter
enter-IsOpen ptype [] replies c valid word fit o = (o, sym (append-nil _), refl, refl)
enter-IsOpen ptype (row ∷ rows) replies c valid word fit o =
    let c' = record c { cmd = str "add" } in
    let d = handle_tx_input (str "add") (ptype ∷ row) c' in
    let (o', queued, space) = add-IsOpen ptype row c' valid (cmd-IsOpen ptype (str "add") c o) in
    let (open_end, sent, space', silent) = enter-IsOpen ptype rows replies d valid word fit.1 o' in
    rw (enter-add ptype row rows replies c word fit.0.0) (
      open_end,
      sent
          ∙ ap (λ rs. to_2d_string rs ++ rows) queued
          ∙ ap (λ s. s ++ rows) (sent_row ptype row c.operations (typed-IsRow row fit.0))
          ∙ append_assoc (to_2d_string c.operations) (row ∷ []) rows,
      space' ∙ space,
      ap (λ p. p.1) (enter-add ptype row rows replies c word fit.0.0) ∙ silent,
    )

commit_open :
    (ptype : Str) (rows : List (List Str)) (replies : Replies) (d : Ctx)
    → IsOpen ptype d
    → to_2d_string d.operations ≡ rows
    → commit replies d
      ≡ (after_rules replies.rules d, some (add_policies d.namespace (sec_of ptype) ptype rows))
unfolding commit
commit_open ptype rows replies d o sent =
    ground (arith, o.kind, o.type, o.section_of, eq_iff d.transaction (str "add"))

-- From an idle session without a policy type, lines "add", at least one of them, each with the same
-- type and a row, make no request, and a line "commit" after them makes one: to the session's
-- namespace, with the section that the type begins with, the type, and exactly the typed rows in
-- their order. The session then goes on as the reply says. The type begins with "g" or "p"; a row
-- has at most six fields, and the fields are words of ASCII, not blank.
pub commit-add_lines :
    (ptype : Str) (row : List Str) (rows : List (List Str)) (replies : Replies) (c : Ctx)
    → is_invalid_sec ptype ≡ false
    → IsWord ptype
    → All IsTyped (row ∷ rows)
    → c.transaction ≡ []
    → c.ptype ≡ []
    → c.operations ≡ []
    → let (d, qs) = enter replies (add_lines ptype (row ∷ rows)) c in
      (qs ≡ [])
      × (executor (str "commit") replies d ≡ (
        after_rules replies.rules (record d { cmd = str "commit" }),
        some (add_policies c.namespace (sec_of ptype) ptype (row ∷ rows)),
      ))
unfolding enter to_2d_string
commit-add_lines ptype row rows replies c valid word fit idle untyped nothing =
    let c' = record c { cmd = str "add" } in
    let first = handle_tx_input (str "add") (ptype ∷ row) c' in
    let (o, queued, space) = first_add ptype row c' valid idle untyped nothing in
    let (open_end, sent, space', silent) =
      enter-IsOpen ptype rows replies first valid word fit.1 o in
    let d = (enter replies (add_lines ptype rows) first).0 in
    rw (enter-add ptype row rows replies c word fit.0.0) (
      ap (λ p. p.1) (enter-add ptype row rows replies c word fit.0.0) ∙ silent,
      executor-commit replies d
          ∙ commit_open ptype (row ∷ rows) replies (record d { cmd = str "commit" })
              (cmd-IsOpen ptype (str "commit") d open_end)
              (sent
                ∙ ap (λ rs. to_2d_string rs ++ rows) queued
                ∙ ap (λ s. s ++ rows) (sent_row ptype row [] (typed-IsRow row fit.0)))
          ∙ ap
              (λ n. (
                after_rules replies.rules (record d { cmd = str "commit" }),
                some (add_policies n (sec_of ptype) ptype (row ∷ rows)),
              ))
              (space' ∙ space),
    )

-- After the commit of an "add" or "remove" the queue is empty if some rule was effected. After an
-- error, or when no rule was effected, the session is as it was, so that the user can try again.
pub after_rules_cases :
    (reply : Result (List (List Str))) (c : Ctx)
    → ((r : List Str) (rs : List (List Str))
        → reply ≡ ok (r ∷ rs)
        → (((after_rules reply c).operations ≡ [])
            × ((after_rules reply c).transaction ≡ [])
            × ((after_rules reply c).update_operations ≡ [])))
      × (((r : List Str) (rs : List (List Str)) → reply ≢ ok (r ∷ rs)) → after_rules reply c ≡ c)
unfolding after_rules init_tx
after_rules_cases (ok []) c = (λ r rs e. cc, λ h. refl)
after_rules_cases (ok (q ∷ qs)) c = (λ r rs e. (refl, refl, refl), λ h. absurd (h q qs refl))
after_rules_cases (err x) c = (λ r rs e. cc, λ h. refl)
