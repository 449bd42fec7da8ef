-- ===== src/Badger/Sorted.antt =====
-- An association list brought into the order of its keys.
use casbin_mesh.Prelude.{
  Str, ◌≡◌, refl, true, false, none, some, List, [], ◌∷◌, arith, ◌==◌, nat_eq, list_eq, list_beq,
  eq_iff, if◌then◌else◌,
}
use casbin_mesh.Dict
use casbin_mesh.Badger.Order.{str_leb, str_ltb, AllAbove, IsAscending, AllFrom}

ltb_trans : (a b c : Str) → str_ltb a b ≡ true → str_ltb b c ≡ true → str_ltb a c ≡ true
unfolding str_ltb
ltb_trans a b [] p q = cc
ltb_trans a [] (z ∷ c) p q = cc
ltb_trans [] (y ∷ b) (z ∷ c) p q = refl
ltb_trans (x ∷ a) (y ∷ b) (z ∷ c) p q = ground (arith, ltb_trans a b c)

ltb_total : (a b : Str) → str_ltb a b ≡ false → (a == b) ≡ false → str_ltb b a ≡ true
unfolding str_ltb list_beq
ltb_total [] [] p q = cc
ltb_total [] (y ∷ b) p q = cc
ltb_total (x ∷ a) [] p q = refl
ltb_total (x ∷ a) (y ∷ b) p q = ground (arith, ltb_total a b)

module _ {ℓ} {V : Type ℓ} where
  unfoldable pub place : Str → V → List (Str × V) → List (Str × V)
  place k v [] = (k, v) ∷ []
  place k v ((j, w) ∷ m) =
      let rest = place k v m in
      if str_ltb k j then (k, v) ∷ ((j, w) ∷ m) else if k == j then (k, v) ∷ m else (j, w) ∷ rest

  unfoldable pub in_order : List (Str × V) → List (Str × V)
  unfolding place
  in_order [] = []
  in_order ((k, v) ∷ m) = place k v (in_order m)

  -- The entries from a key on.
  unfoldable pub from_key : Str → List (Str × V) → List (Str × V)
  from_key p [] = []
  from_key p ((k, v) ∷ m) = let rest = from_key p m in if str_leb p k then (k, v) ∷ rest else rest

  AllAbove-trans :
      (i k : Str) (m : List (Str × V)) → str_ltb i k ≡ true → AllAbove k m → AllAbove i m
  AllAbove-trans i k [] h a = tt
  AllAbove-trans i k ((j, w) ∷ m) h a = (ltb_trans i k j h a.0, AllAbove-trans i k m h a.1)

  place-AllAbove :
      (i k : Str) (v : V) (m : List (Str × V))
      → str_ltb i k ≡ true
      → AllAbove i m
      → AllAbove i (place k v m)
  unfolding place
  place-AllAbove i k v [] h a = (h, tt)
  place-AllAbove i k v ((j, w) ∷ m) h a = ground (arith, place-AllAbove i k v m h a.1)

  place-IsAscending :
      (k : Str) (v : V) (m : List (Str × V)) → IsAscending m → IsAscending (place k v m)
  unfolding place
  place-IsAscending k v [] a = (tt, tt)
  place-IsAscending k v ((j, w) ∷ m) a = ground (
    arith,
    place-IsAscending k v m a.1,
    place-AllAbove j k v m,
    AllAbove-trans k j m,
    ltb_total k j,
    eq_iff k j,
  )

  lookup-place :
      (i k : Str) (v : V) (m : List (Str × V))
      → Dict.lookup i (place k v m) ≡ (if k == i then some v else Dict.lookup i m)
  unfolding Dict.lookup place
  lookup-place i k v [] = refl
  lookup-place i k v ((j, w) ∷ m) =
      ground (arith, lookup-place i k v m, eq_iff k j, eq_iff j i, eq_iff k i)

  pub in_order-IsAscending : (m : List (Str × V)) → IsAscending (in_order m)
  unfolding in_order
  in_order-IsAscending [] = tt
  in_order-IsAscending ((k, v) ∷ m) = place-IsAscending k v (in_order m) (in_order-IsAscending m)

  pub lookup-in_order :
      (k : Str) (m : List (Str × V)) → Dict.lookup k (in_order m) ≡ Dict.lookup k m
  unfolding Dict.lookup in_order
  lookup-in_order k [] = refl
  lookup-in_order k ((j, v) ∷ m) =
      ground (arith, lookup-in_order k m, lookup-place k j v (in_order m))

  from_key-AllAbove : (i p : Str) (m : List (Str × V)) → AllAbove i m → AllAbove i (from_key p m)
  unfolding from_key
  from_key-AllAbove i p [] a = tt
  from_key-AllAbove i p ((k, v) ∷ m) a = ground (arith, from_key-AllAbove i p m a.1)

  pub from_key-IsAscending :
      (p : Str) (m : List (Str × V)) → IsAscending m → IsAscending (from_key p m)
  unfolding from_key
  from_key-IsAscending p [] a = tt
  from_key-IsAscending p ((k, v) ∷ m) a =
      ground (arith, from_key-IsAscending p m a.1, from_key-AllAbove k p m a.0)

  pub from_key-AllFrom : (p : Str) (m : List (Str × V)) → AllFrom p (from_key p m)
  unfolding from_key
  from_key-AllFrom p [] = tt
  from_key-AllFrom p ((k, v) ∷ m) = ground (arith, from_key-AllFrom p m)

  pub lookup-from_key :
      (p k : Str) (m : List (Str × V))
      → Dict.lookup k (from_key p m) ≡ (if str_leb p k then Dict.lookup k m else none)
  unfolding Dict.lookup from_key
  lookup-from_key p k [] = ground arith
  lookup-from_key p k ((j, v) ∷ m) = ground (arith, lookup-from_key p k m, eq_iff j k)
