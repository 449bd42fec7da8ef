-- ===== src/Store/Waiting.antt =====
-- server/store/store.go: the waits. A ticker polls raft until a timer ends; the events are a list here,
-- each tick with the state that raft is in then.
use casbin_mesh.Prelude.{
  ℕ, ◌≤◌, ◌<◌, Str, str, ◌≡◌, ◌≢◌, refl, Bool, false, ◌==◌, nat_eq, list_eq, eq_iff, leb, Option,
  none, some, List, [], ◌∷◌, ◌++◌, map, All, arith, if◌then◌else◌,
}
use mathlib.Core.List.{append-nil}
use casbin_mesh.Result.{Error, Result, ok, err, message, open_timeout}
use casbin_mesh.Store.{Raft}

pub data Event (R : Type 0) : Type 0 where
  tick : R → Event R
  expired : Event R

abbrev pub timeout_error : Error
timeout_error = message (str "timeout expired")

module _ (raft : Raft) where
  -- `WaitForLeader`; `none` while it still waits after these events.
  unfoldable pub wait_for_leader : List (Event raft.R) → Option (Result Str)
  wait_for_leader [] = none
  wait_for_leader (tick r ∷ events) =
      let later = wait_for_leader events in
      if raft.leader r == [] then later else some (ok (raft.leader r))
  wait_for_leader (expired ∷ events) = some (err timeout_error)

  -- `WaitForAppliedIndex`; the inner `none` is the nil error.
  unfoldable pub wait_for_applied_index : ℕ → List (Event raft.R) → Option (Option Error)
  wait_for_applied_index idx [] = none
  wait_for_applied_index idx (tick r ∷ events) =
      let later = wait_for_applied_index idx events in
      if leb idx (raft.applied_index r) then some none else later
  wait_for_applied_index idx (expired ∷ events) = some (some timeout_error)

  -- `WaitForApplied` in the state `r`, with whether the timeout is 0.
  unfoldable pub wait_for_applied : Bool → raft.R → List (Event raft.R) → Option (Option Error)
  unfolding wait_for_applied_index
  wait_for_applied zero_timeout r events =
      let waited = wait_for_applied_index (raft.last_index r) events in
      if zero_timeout then some none else elim waited [
        | none ↦ none
        | some none ↦ some none
        | some (some e) ↦ some (some open_timeout)
      ]

  wait_index :
      (idx : ℕ) (before : List raft.R) (rest : List (Event raft.R))
      → All (λ r. raft.applied_index r < idx) before
      → wait_for_applied_index idx (map tick before ++ rest) ≡ wait_for_applied_index idx rest
  unfolding wait_for_applied_index
  wait_index idx [] rest behind = refl
  wait_index idx (r ∷ before) rest (here, behind) =
      ground (arith, here, wait_index idx before rest behind)

  -- Opening a node waits for raft to apply the log that it has at the start. As long as raft has
  -- applied less at each tick, the wait goes on; a tick at which it has caught up then ends it without
  -- an error, and if the timer ends first, the error is `ErrOpenTimeout`.
  pub wait_for_applied-ends :
      (r q : raft.R) (before : List raft.R) (rest : List (Event raft.R))
      → All (λ p. raft.applied_index p < raft.last_index r) before
      → raft.last_index r ≤ raft.applied_index q
      → (wait_for_applied false r (map tick before) ≡ none)
        × (wait_for_applied false r (map tick before ++ expired ∷ rest) ≡ some (some open_timeout))
        × (wait_for_applied false r (map tick before ++ tick q ∷ rest) ≡ some none)
  unfolding wait_for_applied
  wait_for_applied-ends r q before rest behind caught_up = (
    ground (
      arith,
      append-nil (map (λ (p : raft.R). tick p) before),
      wait_index (raft.last_index r) before [] behind,
    ),
    ground (arith, wait_index (raft.last_index r) before (expired ∷ rest) behind),
    ground (arith, caught_up, wait_index (raft.last_index r) before (tick q ∷ rest) behind),
  )

  -- If no tick so far has seen a leader, then a tick with a leader makes `WaitForLeader` return that
  -- leader's address, and the end of the timer makes it return the error.
  pub wait_for_leader-ends :
      (q : raft.R) (before : List raft.R) (rest : List (Event raft.R))
      → All (λ r. raft.leader r ≡ []) before
      → raft.leader q ≢ []
      → (wait_for_leader (map tick before ++ expired ∷ rest) ≡ some (err timeout_error))
        × (wait_for_leader (map tick before ++ tick q ∷ rest) ≡ some (ok (raft.leader q)))
  unfolding wait_for_leader
  wait_for_leader-ends q [] rest unknown named =
      (refl, ground (arith, named, eq_iff (raft.leader q) []))
  wait_for_leader-ends q (r ∷ before) rest (here, unknown) named =
      let (ends, finds) = wait_for_leader-ends q before rest unknown named in
      (
        ground (arith, here, ends, eq_iff (raft.leader r) []),
        ground (arith, here, finds, eq_iff (raft.leader r) []),
      )
