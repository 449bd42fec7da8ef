-- ===== src/Cli/Number.antt =====
-- `strconv.Atoi` as `DELETE` of cmd/cli/ctx.go uses it: the value that it returns beside its error.
use casbin_mesh.Prelude.{
  ℕ, ◌+◌, ◌-◌, ◌*◌, ◌^◌, Str, ◌&&◌, [], ◌∷◌, Option, none, some, leb, ◌==◌, nat_eq, min,
  if◌then◌else◌,
}

-- The decimal value of a text of digits.
unfoldable pub digits : ℕ → Str → Option ℕ
digits n [] = some n
digits n (c ∷ s) = if leb b'0' c && leb c b'9' then digits (n * 10 + (c - 48)) s else none

unfoldable pub unsigned : Str → Option ℕ
unfolding digits
unsigned [] = none
unsigned (c ∷ s) = digits 0 (c ∷ s)

-- Atoi(s) where its value is at least 0: `some n`; `none` where it is negative. A text that is no
-- number has the value 0, and one that is too large has the largest int.
unfoldable pub atoi : Str → Option ℕ
unfolding unsigned
atoi [] = some 0
atoi (c ∷ s) =
    if c == b'-'
    then elim (unsigned s) [ none ↦ some 0 | some n ↦ if n == 0 then some 0 else none ]
    else elim (unsigned (if c == b'+' then s else c ∷ s)) [
      | none ↦ some 0
      | some n ↦ some (min n (2 ^ 63 - 1))
    ]
