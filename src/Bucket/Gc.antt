-- ===== src/Bucket/Gc.antt =====
-- server/adapter/badger.go: how the store is opened, and the collection of its value log. The
-- library's calls on the log are a parameter, with the world of the database.
mod Tests
use casbin_mesh.Prelude.{
  ℕ, zero, suc, ◌+◌, ◌<◌, ◌≤◌, Str, Bool, true, false, not, ◌≡◌, ◌≢◌, refl, Option, none, some,
  List, [], ◌∷◌, arith, ◌==◌, nat_eq, ℤ, pos, ltb_ℤ, add64, if◌then◌else◌, Option-cases, All, ap,
  ◌∙◌, Bool-cases, inl, inr,
}
use casbin_mesh.Result.{Error, Result, ok, err}

-- `Options`, without the library's own options; a duration is in nanoseconds.
pub record Options : Type 0 where
  pub path : Str
  pub no_sync : Bool
  pub value_log_gc : Bool
  pub gc_interval : ℤ
  pub mandatory_gc_interval : ℤ
  pub gc_threshold : ℤ

-- What the routine that collects is started with.
pub record Collecting : Type 0 where
  pub interval : ℤ
  pub mandatory_interval : ℤ
  pub threshold : ℤ

abbrev is_zero : ℤ → Bool
is_zero (pos n) = n == 0
is_zero _ = false

abbrev given : ℤ → ℤ → ℤ
given set default = if is_zero set then default else set

-- A minute, ten minutes and a gigabyte, where nothing else is set.
unfoldable pub collecting : Options → Option Collecting
collecting o =
    if o.value_log_gc
    then some (record {
      interval = given o.gc_interval (pos 60000000000);
      mandatory_interval = given o.mandatory_gc_interval (pos 600000000000);
      threshold = given o.gc_threshold (pos 1073741824);
    })
    else none

-- `New`, with `badger.Open` of a path and whether each write is synced.
unfoldable pub new :
    {H : Type 0} → (Str → Bool → Result H) → Options → Result (H × Option Collecting)
unfolding collecting
new open_db o = elim (open_db o.path (not o.no_sync)) [
  | err e ↦ err e
  | ok handle ↦ ok (handle, collecting o)
]

unfoldable pub new_badger_store :
    {H : Type 0} → (Str → Bool → Result H) → Str → Result (H × Option Collecting)
unfolding new
new_badger_store open_db path = new open_db (record {
  path = path;
  no_sync = false;
  value_log_gc = false;
  gc_interval = pos 0;
  mandatory_gc_interval = pos 0;
  gc_threshold = pos 0;
})

pub record ValueLog (W : Type 0) : Type 0 where
  -- the second result of `db.Size()`
  pub size : W → ℤ
  -- `db.RunValueLogGC(0.7)`
  pub run_value_log_gc : W → W × Option Error

-- A tick of the one ticker, or of the other.
pub data Tick : Type 0 where
  vlog mandatory : Tick

module _ {W : Type 0} (v : ValueLog W) where
  abbrev after_gc : (W → Option W) → W × Option Error → Option W
  after_gc again (w, none) = again w
  after_gc again (w, some e) = some w

  -- `runGC`: as long as it succeeds, it is run again; `none` if that is not over when the fuel is.
  unfoldable pub run_gc : ℕ → W → Option W
  run_gc zero w = none
  run_gc (suc fuel) w = after_gc (λ w. run_gc fuel w) (v.run_value_log_gc w)

  abbrev sized : Option W → Option ℤ
  sized none = none
  sized (some w) = some (v.size w)

  -- One round of the loop, at the database as it is then: the size of the log after the last
  -- collection, from what it was before.
  unfoldable pub on_tick : ℕ → ℤ → Tick → W → ℤ → Option ℤ
  unfolding run_gc
  on_tick fuel threshold vlog w last_vlog_size =
      if ltb_ℤ (v.size w) (add64 last_vlog_size threshold)
      then some last_vlog_size
      else sized (run_gc fuel w)
  on_tick fuel threshold mandatory w last_vlog_size = sized (run_gc fuel w)

  abbrev then_ticks : (ℤ → Option ℤ) → Option ℤ → Option ℤ
  then_ticks k none = none
  then_ticks k (some size) = k size

  unfoldable pub on_ticks : ℕ → ℤ → List (Tick × W) → ℤ → Option ℤ
  unfolding on_tick
  on_ticks fuel threshold [] last_vlog_size = some last_vlog_size
  on_ticks fuel threshold ((t, w) ∷ ticks) last_vlog_size =
      then_ticks (on_ticks fuel threshold ticks) (on_tick fuel threshold t w last_vlog_size)

  -- `runVlogGC`, from the database at its start.
  unfoldable pub run_vlog_gc : ℕ → ℤ → List (Tick × W) → W → Option ℤ
  unfolding on_ticks
  run_vlog_gc fuel threshold ticks w = on_ticks fuel threshold ticks (v.size w)
