-- ===== src/Log.antt =====
-- server/log/log.go: the raft log on disk. The store of the entries is a library and a parameter.
mod Tests
use casbin_mesh.Prelude.{
  subst, ◌%◌, ◌/◌, [], ◌∷◌, ℕ, zero, suc, ◌+◌, ◌-◌, ◌^◌, ◌≤◌, ◌<◌, Str, str, Bool, true, false,
  ◌==◌, nat_eq, leb, ◌≡◌, refl, Option, none, some, ◌++◌, arith, if◌then◌else◌, Bool-cases, inl,
  inr,
}
use casbin_mesh.Result.{Error, Result, ok, err, message, error_text}

-- raftbadgerdb: the indexes of the first and the last entry, and whether the entry at an index is a
-- command.
pub record LogStore : Type 0 where
  pub first_index : Result ℕ
  pub last_index : Result ℕ
  pub is_command : ℕ → Result Bool

abbrev pub wrapped : Str → Error → Error
wrapped text e = message (text ++ error_text e)

unfoldable pub indexes : LogStore → Result (ℕ × ℕ)
indexes l = elim l.first_index [
  | err e ↦ err (wrapped (str "failed to get first index: ") e)
  | ok fi ↦ elim l.last_index [
    | err e ↦ err (wrapped (str "failed to get last index: ") e)
    | ok li ↦ ok (fi, li)
  ]
]

-- `%d` of a number; a number has fewer digits than one more than it is.
unfoldable pub digits : ℕ → ℕ → Str → Str
digits zero n text = text
digits (suc fuel) n text =
    let low = (48 + n % 10) ∷ text in
    let rest = digits fuel (n / 10) low in if n / 10 == 0 then low else rest

abbrev decimal : ℕ → Str
decimal n = digits (suc n) n []

-- `i--` of uint64
abbrev pub pred64 : ℕ → ℕ
pred64 zero = 2 ^ 64 - 1
pred64 (suc i) = i

-- The loop from index `i` down to `fi`; `none` if it is not over when the fuel is.
unfoldable pub scan_back : LogStore → ℕ → ℕ → ℕ → Option (Result ℕ)
scan_back l zero fi i = none
scan_back l (suc fuel) fi i =
    let rest = scan_back l fuel fi (pred64 i) in
    if leb fi i
    then elim (l.is_command i) [
      | err e ↦ some (err (wrapped (str "get log at index " ++ (decimal i ++ str ": ")) e))
      | ok found ↦ if found then some (ok i) else rest
    ]
    else some (ok 0)

unfoldable pub last_command_index : LogStore → ℕ → Option (Result ℕ)
unfolding indexes scan_back
last_command_index l fuel = elim (indexes l) [
  | err e ↦ some (err (wrapped (str "get indexes: ") e))
  | ok (fi, li) ↦ if li == 0 then some (ok 0) else scan_back l fuel fi li
]

-- The last of `count` indexes from `fi` on at which there is a command, 0 if there is none.
unfoldable pub latest : (ℕ → Bool) → ℕ → ℕ → ℕ
latest command fi zero = 0
latest command fi (suc count) =
    let earlier = latest command fi count in if command (fi + count) then fi + count else earlier

scan_back_lem :
    (l : LogStore) (command : ℕ → Bool) (fuel fi count : ℕ)
    → ((i : ℕ) → fi ≤ i → i < fi + count → l.is_command i ≡ ok (command i))
    → 1 ≤ fi
    → count < fuel
    → scan_back l fuel fi (fi + count - 1) ≡ some (ok (latest command fi count))
unfolding scan_back latest
scan_back_lem l command zero fi count readable low enough = ground (arith, enough)
scan_back_lem l command (suc fuel) fi zero readable low enough = ground (arith, low)
scan_back_lem l command (suc fuel) fi (suc count) readable low enough = ground (
  arith,
  low,
  readable (fi + count) (omega arith) (omega arith),
  scan_back_lem l command fuel fi count (λ i a b. readable i a (omega (arith, b))) low
      (omega (arith, enough)),
)

-- Where the entries of the log can be read, the first index is at least 1 and the last not before it
-- by more than one, `LastCommandIndex` returns the last index of a command, 0 if there is none: its
-- loop, which counts down in 64 bits, takes at most one round more than the last index.
pub last_command_index_lem :
    (l : LogStore) (command : ℕ → Bool) (fuel fi li : ℕ)
    → l.first_index ≡ ok fi
    → l.last_index ≡ ok li
    → ((i : ℕ) → fi ≤ i → i ≤ li → l.is_command i ≡ ok (command i))
    → 1 ≤ fi
    → fi ≤ li + 1
    → li < fuel
    → last_command_index l fuel ≡ some (ok (latest command fi (li + 1 - fi)))
unfolding last_command_index latest
last_command_index_lem l command fuel fi li first last readable low ordered enough =
    let count = li + 1 - fi in
    let all : fi + count - 1 ≡ li = omega (arith, low, ordered) in
    let found =
      scan_back_lem l command fuel fi count (λ i a b. readable i a (omega (arith, b, low, ordered)))
        low (omega (arith, low, enough)) in
    elim (Bool-cases (li == 0)) [
      | inl blank ↦
          let none_there : count ≡ 0 = ground (arith, blank, low, ordered) in
          rw (last_command_index, first, last, blank, none_there) refl
      | inr some_there ↦
          rw (last_command_index, first, last, some_there)
            (subst (λ i. scan_back l fuel fi i ≡ some (ok (latest command fi count))) all found)
    ]
