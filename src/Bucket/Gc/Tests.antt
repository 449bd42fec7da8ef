-- ===== src/Bucket/Gc/Tests.antt =====
-- A log whose files are numbers.
use casbin_mesh.Prelude.{
  ℕ, zero, suc, ◌+◌, str, ◌≡◌, refl, Option, none, some, List, [], ◌∷◌, add64, pos,
}
use casbin_mesh.Result.{Error, ok, message}
use casbin_mesh.Bucket.Gc.{ValueLog, Tick, vlog, mandatory, run_vlog_gc, new_badger_store}

-- A collection removes one file; a file has 100 bytes.
abbrev collect : ℕ → ℕ × Option Error
collect zero = (0, some (message (str "no rewrite")))
collect (suc n) = (n, none)

abbrev hundreds : ℕ → ℕ
hundreds zero = 0
hundreds (suc n) = 100 + hundreds n

abbrev files_log : ValueLog ℕ
files_log = record { size = λ n. pos (hundreds n); run_value_log_gc = collect }

abbrev three_ticks : List (Tick × ℕ)
three_ticks = (vlog, 2) ∷ ((mandatory, 1) ∷ ((vlog, 3) ∷ []))

-- The store of the state machine starts no collection.
uncollected : new_badger_store (λ path sync. ok path) (str "state") ≡ ok (str "state", none)
unfolding new_badger_store
uncollected = refl

-- The first tick finds the log too small; the others collect all files.
collected : run_vlog_gc files_log 9 (pos 200) three_ticks 1 ≡ some (pos 0)
unfolding run_vlog_gc add64
collected = refl
