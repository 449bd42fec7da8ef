-- ===== src/Prelude/Text.antt =====
-- Go strings and byte slices: sequences of bytes, written as lists of numbers.
use Prim.Native.Nat.{ℕ, zero, suc, ◌-◌, ◌<◌}
use Prim.Native.Char.{code}
use Prim.Native.String.{String}
use mathlib.Core.Path.{◌≡◌, refl}
use mathlib.Core.Bool.{Bool, true, false, ◌&&◌, ◌||◌}
use mathlib.Core.List.{List, [], ◌∷◌, ◌++◌}
use native.Mathlib.Omega.{arith}
use casbin_mesh.Prelude.Tests.{◌==◌, nat_eq, list_eq, eq_refl, if◌then◌else◌, leb}

abbrev pub Str : Type 0
Str = List ℕ

-- The bytes of an ASCII literal.
abbrev pub str : String → Str
str String.[] = []
str (String.◌∷◌ c s) = code c ∷ str s

-- `strings.HasPrefix(s, p)` and `bytes.HasPrefix(s, p)`, with the prefix first.
unfoldable pub has_prefix : Str → Str → Bool
has_prefix [] s = true
has_prefix (p ∷ ps) [] = false
has_prefix (p ∷ ps) (c ∷ s) = p == c && has_prefix ps s

pub has_prefix-append : (p s : Str) → has_prefix p (p ++ s) ≡ true
unfolding has_prefix
has_prefix-append [] s = refl
has_prefix-append (c ∷ p) s = ground (arith, eq_refl c, has_prefix-append p s)

-- `strings.Join(parts, sep)`
unfoldable pub join : Str → List Str → Str
join sep [] = []
join sep (x ∷ []) = x
join sep (x ∷ (y ∷ ys)) = x ++ (sep ++ join sep (y ∷ ys))

-- `strings.Split(s, sep)` at a separator of one byte: the pieces, at least one.
abbrev prepend : ℕ → List Str → List Str
prepend c [] = (c ∷ []) ∷ []
prepend c (w ∷ ws) = (c ∷ w) ∷ ws

unfoldable pub split_byte : ℕ → Str → List Str
split_byte sep [] = [] ∷ []
split_byte sep (c ∷ s) =
    let rest = split_byte sep s in if c == sep then [] ∷ rest else prepend c rest

-- White space in ASCII: tab, line feed, vertical tab, form feed, carriage return and blank.
unfoldable pub is_space : ℕ → Bool
is_space c = (leb 9 c && leb c 13) || c == 32

-- The bytes of one white space of `unicode.IsSpace` beyond ASCII: U+0085, U+00A0, U+1680, U+2000 to
-- U+200A, U+2028, U+2029, U+202F, U+205F and U+3000.
unfoldable pub is_wide_space : Str → Bool
is_wide_space (a ∷ (b ∷ [])) = a == 194 && (b == 133 || b == 160)
is_wide_space (a ∷ (b ∷ (c ∷ []))) =
    (a == 225 && (b == 154 && c == 128))
    || ((a == 226
          && ((b == 128 && ((leb 128 c && leb c 138) || (c == 168 || (c == 169 || c == 175))))
              || (b == 129 && c == 159)))
        || (a == 227 && (b == 128 && c == 128)))
is_wide_space _ = false

-- How many bytes after the first belong to such a white space at the beginning.
unfoldable pub wide_more : Str → ℕ
unfolding is_wide_space
wide_more (a ∷ (b ∷ (c ∷ s))) =
    if is_wide_space (a ∷ (b ∷ [])) then 1 else if is_wide_space (a ∷ (b ∷ (c ∷ []))) then 2 else 0
wide_more (a ∷ (b ∷ [])) = if is_wide_space (a ∷ (b ∷ [])) then 1 else 0
wide_more _ = 0

-- The first argument counts the bytes that still belong to a white space.
unfoldable pub trim_left_from : ℕ → Str → Str
unfolding is_space wide_more
trim_left_from k [] = []
trim_left_from (suc k) (c ∷ s) = trim_left_from k s
trim_left_from zero (c ∷ s) = elim (is_space c) [
  | true ↦ trim_left_from zero s
  | false ↦ elim (wide_more (c ∷ s)) [ zero ↦ c ∷ s | suc k ↦ trim_left_from (suc k) s ]
]

unfoldable pub trim_left : Str → Str
unfolding trim_left_from
trim_left s = trim_left_from 0 s

unfoldable pub trim_right : Str → Str
unfolding is_space is_wide_space
trim_right [] = []
trim_right (c ∷ s) =
    let rest = trim_right s in
    if (is_space c && rest == []) || is_wide_space (c ∷ rest) then [] else c ∷ rest

-- `strings.TrimSpace(s)`
unfoldable pub trim_space : Str → Str
unfolding trim_left trim_right
trim_space s = trim_right (trim_left s)

-- A byte of ASCII begins no other white space.
pub is_wide_space-ascii : (c : ℕ) (s : Str) → c < 128 → is_wide_space (c ∷ s) ≡ false
unfolding is_wide_space
is_wide_space-ascii c [] small = refl
is_wide_space-ascii c (a ∷ []) small = ground (arith, small)
is_wide_space-ascii c (a ∷ (b ∷ [])) small = ground (arith, small)
is_wide_space-ascii c (a ∷ (b ∷ (d ∷ s))) small = refl

pub wide_more-ascii : (c : ℕ) (s : Str) → c < 128 → wide_more (c ∷ s) ≡ 0
unfolding wide_more
wide_more-ascii c [] small = refl
wide_more-ascii c (a ∷ []) small = rw (is_wide_space-ascii c (a ∷ []) small) refl
wide_more-ascii c (a ∷ (b ∷ s)) small =
    rw (is_wide_space-ascii c (a ∷ []) small, is_wide_space-ascii c (a ∷ (b ∷ [])) small) refl

-- `strings.ToUpper(s)` on ASCII text
unfoldable pub to_upper : Str → Str
to_upper [] = []
to_upper (c ∷ s) = (if leb b'a' c && leb c b'z' then c - 32 else c) ∷ to_upper s

-- `strings.Split(s, "::")`. A match uses both bytes, so `held` says that one ':' is pending.
unfoldable pub split_colons : Bool → Str → List Str
split_colons false [] = [] ∷ []
split_colons true [] = (b':' ∷ []) ∷ []
split_colons false (c ∷ s) =
    let pending = split_colons true s in
    let plain = split_colons false s in if c == b':' then pending else prepend c plain
split_colons true (c ∷ s) =
    let plain = split_colons false s in
    if c == b':' then [] ∷ plain else prepend b':' (prepend c plain)

-- `strings.Contains(s, sub)`
unfoldable pub contains : Str → Str → Bool
unfolding has_prefix
contains sub [] = sub == []
contains sub (c ∷ s) = has_prefix sub (c ∷ s) || contains sub s
