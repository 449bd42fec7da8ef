-- ===== src/Bucket/Listing.antt =====
-- What `Bucket.List` returns, and how far it keeps to its bucket.
use casbin_mesh.Prelude.{
  ◌∙◌, ℕ, zero, suc, ◌+◌, ◌-◌, ◌^◌, ◌<◌, max, Str, ◌≡◌, refl, ap, Bool, Option, none, some, List,
  Option-cases, inl, inr, [], ◌∷◌, length, take, drop, arith, leb, pos, add64,
}
use casbin_mesh.Result.{Error}
use casbin_mesh.Badger.{Badger}
use casbin_mesh.Bucket.{with_prefix, slice_from, list_rows, list, is_full, cons_row, Listed}

-- Each row without the first bytes of its key, up to the first value that cannot be copied; `none` if
-- a key before that is too short.
abbrev pub cut_rows : (Str → Option Error) → ℕ → List (Str × Str) → Listed
cut_rows bad width [] = some ([], none)
cut_rows bad width ((k, v) ∷ rows) = elim (bad k) [
  | some e ↦ some ([], some e)
  | none ↦ elim (slice_from width k) [
    | none ↦ none
    | some key ↦ cons_row (key, v) (cut_rows bad width rows)
  ]
]

is_full-le :
    (limit skip taken count : ℕ)
    → limit + skip < 2 ^ 63
    → count ≡ skip + taken
    → is_full (pos limit) (pos skip) (suc count) ≡ leb limit (suc taken)
unfolding is_full add64
is_full-le limit skip taken count h e = ground arith

-- The loop after the skipped rows, with `n` rows left to take beyond the next one.
list_rows-take :
    (bad : Str → Option Error) (width skip limit taken n count : ℕ) (rows : List (Str × Str))
    → limit + skip < 2 ^ 63
    → count ≡ skip + taken
    → taken + suc n ≡ max 1 limit
    → list_rows bad width (pos skip) (pos limit) count rows ≡ cut_rows bad width (take (suc n) rows)
unfolding list_rows
list_rows-take bad width skip limit taken n count [] h c e = refl
list_rows-take bad width skip limit taken zero count ((k, v) ∷ rows) h c e =
    ground (arith, is_full-le limit skip taken count h c)
list_rows-take bad width skip limit taken (suc n) count ((k, v) ∷ rows) h c e = ground (
  arith,
  is_full-le limit skip taken count h c,
  list_rows-take bad width skip limit (suc taken) n (suc count) rows h,
)

take-nil {ℓ} : (A : Type ℓ) (n : ℕ) → take {A = A} n [] ≡ []
take-nil A zero = refl
take-nil A (suc n) = refl

list_rows-drop :
    (bad : Str → Option Error) (width skip limit left count : ℕ) (rows : List (Str × Str))
    → limit + skip < 2 ^ 63
    → count + left ≡ skip
    → list_rows bad width (pos skip) (pos limit) count rows
      ≡ cut_rows bad width (take (max 1 limit) (drop left rows))
unfolding list_rows
list_rows-drop bad width skip limit zero count rows h e =
    list_rows-take bad width skip limit 0 (max 1 limit - 1) count rows h (omega arith) (omega arith)
    ∙ ap (λ n. cut_rows bad width (take n rows)) {x = suc (max 1 limit - 1)} (omega arith)
list_rows-drop bad width skip limit (suc left) count [] h e =
    rw (take-nil (Str × Str) (max 1 limit)) refl
list_rows-drop bad width skip limit (suc left) count ((k, v) ∷ rows) h e =
    ground (arith, list_rows-drop bad width skip limit left (suc count) rows h)

-- `List` of a bucket with `skip` and `limit` at least 0 and a sum that fits in an int64. If the
-- database cannot be read it returns that error. Otherwise it returns the entries from the cursor on,
-- after the first `skip`, and `limit` of them, or one if the limit is 0, each without as many bytes as
-- the bucket's prefix has; at the first of them whose value cannot be copied it ends with that error
-- and the rows before it. It panics exactly if one of these keys, before any such error, is shorter
-- than the prefix. That an entry is of the bucket is not tested.
pub list_lem :
    (b : Badger) (namespace cursor : Str) (skip limit : ℕ) (reverse : Bool) (db : b.Db)
    → limit + skip < 2 ^ 63
    → list b namespace cursor (pos skip) (pos limit) reverse db ≡ elim (b.view_error db) [
      | some e ↦ some ([], some e)
      | none ↦ cut_rows (b.value_error (b.begin db)) (length (with_prefix namespace [])) (
          take
            (max 1 limit)
            (drop skip (b.seek (b.begin db) reverse (with_prefix namespace cursor))))
    ]
unfolding list
list_lem b namespace cursor skip limit reverse db h = elim (Option-cases (b.view_error db)) [
  | inr (e, bad) ↦ rw (list, bad) refl
  | inl fine ↦
      rw (list, fine)
        (list_rows-drop (b.value_error (b.begin db)) (length (with_prefix namespace [])) skip limit
          skip 0 (b.seek (b.begin db) reverse (with_prefix namespace cursor)) h (omega arith))
]
