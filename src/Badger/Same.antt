-- ===== src/Badger/Same.antt =====
-- Ascending entries are determined by what is found in them, so scans of stores that agree under a
-- prefix visit the same entries.
use casbin_mesh.Prelude.{
  Str, ◌≡◌, refl, true, false, none, some, List, [], ◌∷◌, arith, nat_eq, list_eq, eq_iff, eq_refl,
  if◌then◌else◌, has_prefix,
}
use casbin_mesh.Dict
use casbin_mesh.Badger.{Badger, BadgerLaws}
use casbin_mesh.Badger.Order.{
  str_ltb, AllAbove, IsAscending, while_prefix, lookup-while_prefix, prefix-le,
}

ltb_asym : (a b : Str) → str_ltb a b ≡ true → str_ltb b a ≡ false
unfolding str_ltb
ltb_asym [] [] h = refl
ltb_asym [] (y ∷ b) h = refl
ltb_asym (x ∷ a) [] h = cc
ltb_asym (x ∷ a) (y ∷ b) h = ground (arith, ltb_asym a b)

module _ {ℓ} {V : Type ℓ} where
  lookup_above :
      (k i : Str) (v : V) (m : List (Str × V))
      → AllAbove k m
      → Dict.lookup i m ≡ some v
      → str_ltb k i ≡ true
  unfolding Dict.lookup
  lookup_above k i v [] a h = cc
  lookup_above k i v ((j, w) ∷ m) a h = ground (arith, lookup_above k i v m a.1, a.0, eq_iff j i)

  -- The first keys are the same, and with them the first entries.
  first_same :
      (k j : Str) (v w : V) (m n : List (Str × V))
      → AllAbove k m
      → AllAbove j n
      → ((i : Str) → Dict.lookup i ((k, v) ∷ m) ≡ Dict.lookup i ((j, w) ∷ n))
      → (k ≡ j) × (v ≡ w)
  unfolding Dict.lookup
  first_same k j v w m n a c same = ground (
    arith,
    same k,
    same j,
    eq_refl k,
    eq_refl j,
    eq_iff j k,
    eq_iff k j,
    lookup_above k j w m a,
    lookup_above j k v n c,
    ltb_asym k j,
  )

  -- Behind its own key, a value is not found again.
  lookup_own : (k : Str) (m : List (Str × V)) → AllAbove k m → Dict.lookup k m ≡ none
  unfolding Dict.lookup
  lookup_own k [] a = refl
  lookup_own k ((j, w) ∷ m) a = ground (arith, lookup_own k m a.1, a.0, eq_iff j k, ltb_asym k k)

  pub ascending_same :
      (m n : List (Str × V))
      → IsAscending m
      → IsAscending n
      → ((i : Str) → Dict.lookup i m ≡ Dict.lookup i n)
      → m ≡ n
  unfolding Dict.lookup
  ascending_same [] [] a c same = refl
  ascending_same [] ((j, w) ∷ n) a c same = ground (arith, same j, eq_refl j)
  ascending_same ((k, v) ∷ m) [] a c same = ground (arith, same k, eq_refl k)
  ascending_same ((k, v) ∷ m) ((j, w) ∷ n) a c same =
      let (keys, values) = first_same k j v w m n a.0 c.0 same in
      let rest : m ≡ n = ascending_same m n a.1 c.1 (λ i.
        ground
          (arith, same i, keys, lookup_own k m a.0, lookup_own j n c.0, eq_iff k i, eq_iff j i)) in
      cc

  while_prefix-AllAbove :
      (k p : Str) (m : List (Str × V)) → AllAbove k m → AllAbove k (while_prefix p m)
  unfolding while_prefix
  while_prefix-AllAbove k p [] a = tt
  while_prefix-AllAbove k p ((j, w) ∷ m) a = ground (arith, while_prefix-AllAbove k p m a.1)

  while_prefix-IsAscending :
      (p : Str) (m : List (Str × V)) → IsAscending m → IsAscending (while_prefix p m)
  unfolding while_prefix
  while_prefix-IsAscending p [] a = tt
  while_prefix-IsAscending p ((j, w) ∷ m) a =
      ground (arith, while_prefix-IsAscending p m a.1, while_prefix-AllAbove j p m a.0)

module _ (b : Badger) (laws : BadgerLaws b) where
  scanned :
      (p : Str) (d : b.Db) (k : Str)
      → Dict.lookup k (while_prefix p (b.seek (b.begin d) false p))
        ≡ (if has_prefix p k then laws.stored d k else none)
  scanned p d k = ground (
    arith,
    lookup-while_prefix p k (b.seek (b.begin d) false p) (laws.seek_ascending (b.begin d) p)
        (laws.seek_from (b.begin d) p),
    laws.lookup-seek (b.begin d) p k,
    laws.content-begin d k,
    prefix-le p k,
  )

  -- Where two stores agree on the keys with a prefix, a scan of the prefix visits the same entries.
  pub scan_same :
      (p : Str) (d d' : b.Db)
      → ((k : Str) → has_prefix p k ≡ true → laws.stored d k ≡ laws.stored d' k)
      → while_prefix p (b.seek (b.begin d) false p) ≡ while_prefix p (b.seek (b.begin d') false p)
  scan_same p d d' same =
      ascending_same _ _ (while_prefix-IsAscending p _ (laws.seek_ascending (b.begin d) p))
        (while_prefix-IsAscending p _ (laws.seek_ascending (b.begin d') p))
        (λ k. ground (arith, scanned p d k, scanned p d' k, same k))
