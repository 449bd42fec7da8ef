-- ===== src/Store/Opening/Restart.antt =====
-- server/store/store.go: what the opening of a store leaves for the next start.
use casbin_mesh.Prelude.{
  Bool, true, false, ◌≡◌, refl, Option, none, some, arith, ltb, Str, str, if◌then◌else◌,
}
use casbin_mesh.Result.{Error, Result, ok, err}
use casbin_mesh.Log.{LogStore}
use casbin_mesh.Store.Opening.{
  RaftConfig, Disk, OpenConfig, Opened, Opening, open_store, open_log, open_raft, is_new_node,
  raft_path, and_then, and_with, set_log_info, LogInfo, after_info, raft_config, path_exists,
}

-- The log makes its directory, and nothing that the opening does afterwards removes it.
pub record DiskLaws {W : Type 0} (d : Disk W) : Type 0 where
  pub made : (p : Str) (w w' : W) (l : LogStore) → d.new_log p w ≡ (w', ok l) → d.lstat p w' ≡ none
  pub cache-keeps : (p : Str) (w : W) → d.lstat p w ≡ none → d.lstat p (d.new_log_cache w).0 ≡ none
  pub raft-keeps :
      (p : Str) (config : RaftConfig) (w : W)
      → d.lstat p w ≡ none
      → d.lstat p (d.new_raft config w).0 ≡ none
  pub bootstrap-keeps :
      (p id : Str) (w : W) → d.lstat p w ≡ none → d.lstat p (d.bootstrap_cluster id w).0 ≡ none

-- If the opening succeeds, then its world is in `P`.
record Leaves {W : Type 0} (P : W → Type 0) (r : Opening W) : Type 0 where
  left : (o : Opened) → r.1 ≡ some (ok o) → P r.0

module _ {W : Type 0} {P : W → Type 0} where
  failed : (w : W) (e : Error) → Leaves P (w, some (err e))
  failed w e = record { left = λ o h. ground (arith, h) }

  reached : (w : W) (r : Option (Result Opened)) → P w → Leaves P (w, r)
  reached w r there = record { left = λ o h. there }

  and_then-Leaves :
      (f : Error → Error) (k : W → Opening W) (r : W × Option Error)
      → Leaves P (k r.0)
      → Leaves P (and_then f k r)
  unfolding and_then
  and_then-Leaves f k (w, none) rest = rest
  and_then-Leaves f k (w, some e) rest = failed w (f e)

  and_with-Leaves :
      {A : Type 0} (f : Error → Error) (k : A → W → Opening W) (r : W × Result A)
      → ((w : W) (a : A) → r ≡ (w, ok a) → Leaves P (k a w))
      → Leaves P (and_with f k r)
  unfolding and_with
  and_with-Leaves f k (w, ok a) rest = rest w a refl
  and_with-Leaves f k (w, err e) rest = failed w (f e)

module _ {W : Type 0} (d : Disk W) (laws : DiskLaws d) (c : OpenConfig) where
  -- The raft log is there.
  abbrev There : W → Type 0
  There w = d.lstat (raft_path d c.dir) w ≡ none

  last :
      (bootstrap : Bool) (o : Opened) (config : RaftConfig) (w : W)
      → There (d.new_raft config w).0
      → Leaves There (
          let w' = (d.new_raft config w).0 in
          if bootstrap then ((d.bootstrap_cluster c.id w').0, some (ok o)) else (w', some (ok o)))
  last true o config w there =
      reached _ _ (laws.bootstrap-keeps (raft_path d c.dir) c.id (d.new_raft config w).0 there)
  last false o config w there = reached _ _ there

  open_raft-There :
      (bootstrap : Bool) (o : Opened) (w : W) → There w → Leaves There (open_raft d c bootstrap o w)
  unfolding open_raft
  open_raft-There bootstrap o w there =
      let config = raft_config d.default_config (d.scaled c.snapshot_threshold) c in
      let kept = laws.raft-keeps (raft_path d c.dir) config w there in
      and_then-Leaves _ _ (d.new_raft config w) (last bootstrap o config w kept)

  after_info-There :
      (bootstrap snaps : Bool) (i : Option (Result LogInfo)) (w : W)
      → There w
      → Leaves There (after_info d c bootstrap snaps i w)
  after_info-There bootstrap snaps none w there = reached w _ there
  after_info-There bootstrap snaps (some (err e)) w there = reached w _ there
  after_info-There bootstrap snaps (some (ok i)) w there =
      open_raft-There bootstrap (record { snaps_exist_on_open = snaps; log_info = i }) w there

  open_log-There :
      (bootstrap snaps : Bool) (l : LogStore) (w : W)
      → There w
      → Leaves There (open_log d c bootstrap snaps l w)
  unfolding open_log
  open_log-There bootstrap snaps l w there = and_then-Leaves _ _ (d.new_log_cache w) (
      after_info-There bootstrap snaps (set_log_info l) (d.new_log_cache w).0
        (laws.cache-keeps (raft_path d c.dir) w there))

  open_store-There : (bootstrap : Bool) (w : W) → Leaves There (open_store d c bootstrap w)
  unfolding open_store
  open_store-There bootstrap w = and_then-Leaves _ _ (d.mkdir_all c.dir w) (
      and_then-Leaves _ _ (d.new_file_snapshot_store c.dir (d.mkdir_all c.dir w).0) (
        and_with-Leaves _ _
          (d.list_snapshots (d.new_file_snapshot_store c.dir (d.mkdir_all c.dir w).0).0)
          (λ w1 count h.
            let made_state = d.new_badger_store (d.join_path c.dir (str "default-state.db")) w1 in
            and_then-Leaves _ _ made_state (
              and_with-Leaves _ _ (d.new_log (raft_path d c.dir) made_state.0) (λ w2 l opened.
                open_log-There bootstrap (ltb 0 count) l w2
                  (laws.made (raft_path d c.dir) made_state.0 w2 l opened))))))

  -- Where the log makes its path and nothing after it removes the path, a node whose store has been
  -- opened without an error is not new any more, whether it was to bootstrap or not.
  pub open_store-not_new :
      (bootstrap : Bool) (w : W) (o : Opened)
      → (open_store d c bootstrap w).1 ≡ some (ok o)
      → is_new_node d c.dir (open_store d c bootstrap w).0 ≡ false
  unfolding is_new_node path_exists
  open_store-not_new bootstrap w o opened =
      rw (path_exists, (open_store-There bootstrap w).left o opened) refl
