-- ===== src/Cli/Rule.antt =====
-- cmd/cli/rule.go: a rule line of at most six fields, as the client shows and sends it.
use casbin_mesh.Prelude.{
  ℕ, zero, suc, ◌≤◌, Str, str, join, ◌≡◌, ◌≢◌, refl, ap, Option, none, some, List, [], ◌∷◌, take,
  length, All, arith, ◌==◌, nat_eq, list_eq, list_beq, eq_iff, if◌then◌else◌, ◌∙◌,
}

pub record CasbinRule : Type 0 where
  pub key : Str
  pub p_type : Str
  pub v0 : Str
  pub v1 : Str
  pub v2 : Str
  pub v3 : Str
  pub v4 : Str
  pub v5 : Str

-- `line[i]` under the test `l > i`; the field stays blank where the test fails.
abbrev field : ℕ → List Str → Str
field i [] = []
field zero (x ∷ xs) = x
field (suc i) (x ∷ xs) = field i xs

-- The key joins the type and the fields that are kept.
unfoldable pub convert_rule : Str → List Str → CasbinRule
convert_rule ptype line = record {
  key = join (str "::") (ptype ∷ take 6 line);
  p_type = ptype;
  v0 = field 0 line;
  v1 = field 1 line;
  v2 = field 2 line;
  v3 = field 3 line;
  v4 = field 4 line;
  v5 = field 5 line;
}

-- The early returns of `ToStringArray`: the fields before the first blank one.
unfoldable pub until_blank : List Str → List Str
until_blank [] = []
until_blank (x ∷ xs) = let rest = until_blank xs in if x == [] then [] else x ∷ rest

unfoldable pub to_string_array : CasbinRule → List Str
unfolding until_blank
to_string_array r = until_blank (r.v0 ∷ r.v1 ∷ r.v2 ∷ r.v3 ∷ r.v4 ∷ r.v5 ∷ [])

-- `Rules.to2DString`
unfoldable pub to_2d_string : List CasbinRule → List (List Str)
to_2d_string [] = []
to_2d_string (r ∷ rs) = to_string_array r ∷ to_2d_string rs

-- `RuleGroups.to2DString`: groups of an old and a new rule; an incomplete group is skipped.
unfoldable pub groups_to_2d_string : List (List CasbinRule) → List (List Str) × List (List Str)
groups_to_2d_string [] = ([], [])
groups_to_2d_string ((o ∷ (n ∷ more)) ∷ gs) =
    let (olds, news) = groups_to_2d_string gs in
    (to_string_array o ∷ olds, to_string_array n ∷ news)
groups_to_2d_string ((o ∷ []) ∷ gs) = groups_to_2d_string gs
groups_to_2d_string ([] ∷ gs) = groups_to_2d_string gs

-- `Rules.last`
unfoldable pub last : List CasbinRule → Option CasbinRule
last [] = none
last (r ∷ []) = some r
last (r ∷ (q ∷ rs)) = last (q ∷ rs)

-- `RuleGroups.last`
unfoldable pub groups_last : List (List CasbinRule) → Option CasbinRule
unfolding last
groups_last [] = none
groups_last (g ∷ []) = last g
groups_last (g ∷ (h ∷ gs)) = groups_last (h ∷ gs)

until_blank-take : (n : ℕ) (line : List Str) → until_blank (take n line) ≡ take n (until_blank line)
unfolding until_blank
until_blank-take zero line = refl
until_blank-take (suc n) [] = refl
until_blank-take (suc n) (x ∷ xs) = ground (arith, until_blank-take n xs)

-- A line comes back from its rule up to its first blank field and its sixth field.
pub to_string_array-convert_rule :
    (ptype : Str) (line : List Str)
    → to_string_array (convert_rule ptype line) ≡ until_blank (take 6 line)
unfolding to_string_array convert_rule list_beq
to_string_array-convert_rule ptype [] = refl
to_string_array-convert_rule ptype (a ∷ []) = refl
to_string_array-convert_rule ptype (a ∷ (b ∷ [])) = refl
to_string_array-convert_rule ptype (a ∷ (b ∷ (c ∷ []))) = refl
to_string_array-convert_rule ptype (a ∷ (b ∷ (c ∷ (d ∷ [])))) = refl
to_string_array-convert_rule ptype (a ∷ (b ∷ (c ∷ (d ∷ (e ∷ []))))) = refl
to_string_array-convert_rule ptype (a ∷ (b ∷ (c ∷ (d ∷ (e ∷ (f ∷ more)))))) = refl

-- A line of at most six fields, none of them blank.
abbrev pub IsRow : List Str → Type 0
IsRow line = All (λ x. x ≢ []) line × (length line ≤ 6)

take_all {ℓ} : {A : Type ℓ} (n : ℕ) (xs : List A) → length xs ≤ n → take n xs ≡ xs
take_all zero [] h = refl
take_all zero (x ∷ xs) h = absurd (omega arith)
take_all (suc n) [] h = refl
take_all (suc n) (x ∷ xs) h = ap (◌∷◌ x) (take_all n xs (omega arith))

until_blank-eq : (line : List Str) → All (λ x. x ≢ []) line → until_blank line ≡ line
unfolding until_blank
until_blank-eq [] h = refl
until_blank-eq (x ∷ xs) h = ground (arith, h.0, eq_iff x [], until_blank-eq xs h.1)

-- Such a line is sent as it was typed.
pub row-convert_rule :
    (ptype : Str) (line : List Str) → IsRow line → to_string_array (convert_rule ptype line) ≡ line
row-convert_rule ptype line h =
    to_string_array-convert_rule ptype line
    ∙ ap until_blank (take_all 6 line h.1)
    ∙ until_blank-eq line h.0
