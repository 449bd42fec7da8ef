-- ===== src/Badger/Order.antt =====
-- The order of keys, byte by byte, and scans of a range of keys that share a prefix.
use casbin_mesh.Prelude.{
  Str, ◌≡◌, refl, Bool, true, false, ◌&&◌, ◌||◌, none, List, [], ◌∷◌, arith, ltb, ◌==◌, nat_eq,
  list_eq, eq_iff, if◌then◌else◌, has_prefix,
}
use casbin_mesh.Dict

-- `bytes.Compare(a, b) <= 0`
unfoldable pub str_leb : Str → Str → Bool
str_leb [] b = true
str_leb (x ∷ a) [] = false
str_leb (x ∷ a) (y ∷ b) = ltb x y || (x == y && str_leb a b)

-- `bytes.Compare(a, b) < 0`
unfoldable pub str_ltb : Str → Str → Bool
str_ltb a [] = false
str_ltb [] (y ∷ b) = true
str_ltb (x ∷ a) (y ∷ b) = ltb x y || (x == y && str_ltb a b)

-- The keys grow strictly.
abbrev pub AllAbove {ℓ} : {V : Type ℓ} → Str → List (Str × V) → Type 0
AllAbove k [] = Unit
AllAbove k ((j, v) ∷ m) = (str_ltb k j ≡ true) × AllAbove k m

abbrev pub IsAscending {ℓ} : {V : Type ℓ} → List (Str × V) → Type 0
IsAscending [] = Unit
IsAscending ((k, v) ∷ m) = AllAbove k m × IsAscending m

-- `for it.Seek(p); it.ValidForPrefix(p); it.Next()`: the visited entries of those from `Seek` on.
unfoldable pub while_prefix {ℓ} : {V : Type ℓ} → Str → List (Str × V) → List (Str × V)
while_prefix p [] = []
while_prefix p ((k, v) ∷ m) =
    let rest = while_prefix p m in if has_prefix p k then (k, v) ∷ rest else []

-- Between a prefix and a key with the prefix there are only keys with the prefix.
pub prefix_convex :
    (p x y : Str)
    → str_leb p x ≡ true
    → str_ltb x y ≡ true
    → has_prefix p y ≡ true
    → has_prefix p x ≡ true
unfolding str_leb str_ltb has_prefix
prefix_convex [] x y a b c = refl
prefix_convex (p ∷ ps) x [] a b c = cc
prefix_convex (p ∷ ps) [] (y ∷ ys) a b c = cc
prefix_convex (p ∷ ps) (x ∷ xs) (y ∷ ys) a b c = ground (arith, prefix_convex ps xs ys)

pub prefix-le : (p x : Str) → has_prefix p x ≡ true → str_leb p x ≡ true
unfolding str_leb has_prefix
prefix-le [] x h = refl
prefix-le (p ∷ ps) [] h = cc
prefix-le (p ∷ ps) (x ∷ xs) h = ground (arith, prefix-le ps xs)

-- Behind a key that is not below the prefix and does not have it, no key has it.
no_prefix_above {ℓ} :
    {V : Type ℓ} (p x k : Str) (m : List (Str × V))
    → str_leb p x ≡ true
    → has_prefix p x ≡ false
    → AllAbove x m
    → has_prefix p k ≡ true
    → Dict.lookup k m ≡ none
unfolding Dict.lookup
no_prefix_above p x k [] a b c d = refl
no_prefix_above p x k ((j, v) ∷ m) a b c d =
    ground (arith, no_prefix_above p x k m a b c.1 d, prefix_convex p x j a c.0, eq_iff j k)

-- Every key is at or above the sought one.
abbrev pub AllFrom {ℓ} : {V : Type ℓ} → Str → List (Str × V) → Type 0
AllFrom p [] = Unit
AllFrom p ((k, v) ∷ m) = (str_leb p k ≡ true) × AllFrom p m

-- A scan of ascending entries from the prefix on finds exactly the entries with the prefix.
pub lookup-while_prefix {ℓ} :
    {V : Type ℓ} (p k : Str) (m : List (Str × V))
    → IsAscending m
    → AllFrom p m
    → Dict.lookup k (while_prefix p m) ≡ (if has_prefix p k then Dict.lookup k m else none)
unfolding Dict.lookup while_prefix
lookup-while_prefix p k [] a f = ground arith
lookup-while_prefix p k ((j, v) ∷ m) a f =
    ground (arith, lookup-while_prefix p k m a.1 f.1, no_prefix_above p j k m f.0, eq_iff j k)
