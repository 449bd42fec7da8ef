-- ===== src/Http/Chain.antt =====
-- What `Next` runs: every handler up to the first error, while the int8 index can count them.
use casbin_mesh.Prelude.{
  ℕ, zero, suc, ◌+◌, ◌≤◌, ◌<◌, some, List, [], ◌∷◌, ◌≡◌, refl, ap, arith, take, drop, length,
  get_elem?, if◌then◌else◌, ltb, inl, inr, Bool-cases,
}
use casbin_mesh.Http.{Request, Writer, passed, failed, panicked, Handler, next_from, next}

module _ {W : Type 0} where
  -- The handlers in their order, until one does not pass.
  unfoldable pub run_all : List (Handler W) → Handler W
  run_all [] r w o = (w, o, passed)
  run_all (h ∷ hs) r w o =
      let (w', o', out) = h r w o in
      elim out [
        | passed ↦ run_all hs r w' o'
        | failed e ↦ (w', o', failed e)
        | panicked ↦ (w', o', panicked)
      ]

  drop-cons :
      (i : ℕ) (hs : List (Handler W))
      → i < length hs
      → (h : Handler W) × (get_elem? hs i ≡ some h) × (drop i hs ≡ h ∷ drop (suc i) hs)
  drop-cons i [] short = ground arith
  drop-cons zero (h ∷ hs) short = (h, refl, refl)
  drop-cons (suc i) (h ∷ hs) short = drop-cons i hs (omega (arith, short))

  take-all : (hs : List (Handler W)) → take (length hs) hs ≡ hs
  take-all [] = refl
  take-all (h ∷ hs) = ap (◌∷◌ h) (take-all hs)

  next_from-run_all :
      (left i : ℕ) (hs : List (Handler W)) (r : Request) (w : W) (o : Writer)
      → i + left ≤ length hs
      → next_from left i hs r w o ≡ run_all (take left (drop i hs)) r w o
  unfolding next_from run_all
  next_from-run_all zero i hs r w o fits = refl
  next_from-run_all (suc left) i hs r w o fits =
      let (h, here, rest) = drop-cons i hs (omega (arith, fits)) in
      let (w', o', out) = h r w o in
      ground (arith, here, rest, next_from-run_all left (suc i) hs r w' o' (omega (arith, fits)))

  -- A chain of fewer than 128 handlers runs in order until one fails. From 128 handlers on, up to
  -- 255, the limit of the loop is negative as an int8, and none of them is run, the authentication
  -- neither.
  pub next-run_all :
      (hs : List (Handler W)) (r : Request) (w : W) (o : Writer)
      → length hs < 256
      → next hs r w o ≡ (if ltb (length hs) 128 then run_all hs r w o else (w, o, passed))
  unfolding next next_from
  next-run_all hs r w o bound = elim (Bool-cases (ltb (length hs) 128)) [
    | inl small ↦
        ground (arith, small, take-all hs, next_from-run_all (length hs) 0 hs r w o (omega arith))
    | inr large ↦ ground (arith, large)
  ]
