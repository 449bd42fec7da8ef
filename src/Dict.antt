-- ===== src/Dict.antt =====
-- Go maps with string keys (`map[string]V`, `sync.Map`), as association lists with one entry for
-- each key. What a missing key gives is `none`.
use casbin_mesh.Prelude.{
  Str, ◌≡◌, refl, Bool, true, false, Option, none, some, List, [], ◌∷◌, arith, ◌==◌, eq_iff,
  eq_refl, if◌then◌else◌, nat_eq, list_eq,
}

abbrev pub Dict {ℓ} : Type ℓ → Type ℓ
Dict V = List (Str × V)

module _ {ℓ} {V : Type ℓ} where
  abbrev pub empty : Dict V
  empty = []

  -- `v, ok := m[key]`
  unfoldable pub lookup : Str → Dict V → Option V
  lookup key [] = none
  lookup key ((k, v) ∷ m) = if k == key then some v else lookup key m

  -- `m[key] = new`
  unfoldable pub insert : Str → V → Dict V → Dict V
  insert key new [] = (key, new) ∷ []
  insert key new ((k, v) ∷ m) = if k == key then (key, new) ∷ m else (k, v) ∷ insert key new m

  -- `delete(m, k)`
  unfoldable pub delete : Str → Dict V → Dict V
  delete k [] = []
  delete k ((j, w) ∷ m) = let rest = delete k m in if j == k then rest else (j, w) ∷ rest

  -- `_, ok := m[k]`
  unfoldable pub has : Str → Dict V → Bool
  unfolding lookup
  has k m = elim (lookup k m) [ none ↦ false | some v ↦ true ]

  -- `for k, v := range m { old[k] = v }`
  unfoldable pub insert_all : Dict V → Dict V → Dict V
  insert_all [] old = old
  insert_all ((k, v) ∷ m) old = insert_all m (insert k v old)

  -- Each key has one entry.
  abbrev pub IsUnique : Dict V → Type ℓ
  IsUnique [] = Unit
  IsUnique ((k, v) ∷ m) = (lookup k m ≡ none) × IsUnique m

  abbrev pub or_else : Option V → Option V → Option V
  or_else none o = o
  or_else (some v) o = some v

  -- A key reads as it was last written.
  pub lookup-insert :
      (key other : Str) (new : V) (m : Dict V)
      → lookup other (insert key new m) ≡ (if key == other then some new else lookup other m)
  unfolding insert lookup
  lookup-insert key other new [] = refl
  lookup-insert key other new ((k, v) ∷ m) =
      ground (arith, lookup-insert key other new m, eq_iff k key, eq_iff k other, eq_iff key other)

  pub lookup-delete :
      (k j : Str) (m : Dict V) → lookup j (delete k m) ≡ (if k == j then none else lookup j m)
  unfolding lookup delete
  lookup-delete k j [] = ground arith
  lookup-delete k j ((i, w) ∷ m) =
      ground (arith, lookup-delete k j m, eq_iff i k, eq_iff i j, eq_iff k j)

  pub lookup-insert_self : (k : Str) (v : V) (m : Dict V) → lookup k (insert k v m) ≡ some v
  lookup-insert_self k v m = ground (arith, lookup-insert k k v m, eq_refl k)

  pub lookup-delete_self : (k : Str) (m : Dict V) → lookup k (delete k m) ≡ none
  lookup-delete_self k m = ground (arith, lookup-delete k k m, eq_refl k)

  pub lookup-insert_all :
      (k : Str) (m old : Dict V)
      → IsUnique m
      → lookup k (insert_all m old) ≡ or_else (lookup k m) (lookup k old)
  unfolding lookup insert_all
  lookup-insert_all k [] old h = refl
  lookup-insert_all k ((j, v) ∷ m) old h =
      ground
        (arith, lookup-insert_all k m (insert j v old) h.1, lookup-insert j k v old, eq_iff j k)

  pub insert-IsUnique : (k : Str) (v : V) (m : Dict V) → IsUnique m → IsUnique (insert k v m)
  unfolding insert lookup
  insert-IsUnique k v [] h = (refl, tt)
  insert-IsUnique k v ((j, w) ∷ m) h =
      ground (arith, insert-IsUnique k v m h.1, lookup-insert k j v m, eq_iff j k, eq_iff k j)

  pub delete-IsUnique : (k : Str) (m : Dict V) → IsUnique m → IsUnique (delete k m)
  unfolding delete lookup
  delete-IsUnique k [] h = tt
  delete-IsUnique k ((j, w) ∷ m) h =
      ground (arith, delete-IsUnique k m h.1, lookup-delete k j m, eq_iff j k, eq_iff k j)

pub ruleset dict_laws = (lookup-insert, lookup-delete)
