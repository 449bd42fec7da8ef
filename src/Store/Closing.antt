-- ===== src/Store/Closing.antt =====
-- `Close` of server/store/store.go. Raft and its log are parameters.
use casbin_mesh.Prelude.{Bool, true, false, ◌≡◌, Option, none, some, arith, Option-cases, inl, inr}
use casbin_mesh.Result.{Error}

pub record Closers (W : Type 0) : Type 0 where
  -- `raft.Shutdown`, and the error of its future, which waits for the end
  pub shutdown : W → W
  pub shutdown_error : W → W × Option Error
  pub close_log : W → W × Option Error

module _ {W : Type 0} (c : Closers W) where
  abbrev then_log : W × Option Error → W × Option Error
  then_log (w, some e) = (w, some e)
  then_log (w, none) = c.close_log w

  unfoldable pub close : Bool → W → W × Option Error
  close true w = then_log (c.shutdown_error (c.shutdown w))
  close false w = c.close_log (c.shutdown w)

  -- A close that waits and has no error has ended raft without an error, and then closed the log.
  pub close-waits :
      (w : W)
      → (close true w).1 ≡ none
      → ((c.shutdown_error (c.shutdown w)).1 ≡ none)
        × (close true w ≡ c.close_log (c.shutdown_error (c.shutdown w)).0)
  unfolding close
  close-waits w fine = elim (Option-cases (c.shutdown_error (c.shutdown w)).1) [
    | inl ended ↦ (ended, ground (arith, ended))
    | inr (e, bad) ↦ ground (arith, fine, bad)
  ]
