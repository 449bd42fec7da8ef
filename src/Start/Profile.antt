-- ===== src/Start/Profile.antt =====
-- `startProfile` of server/server.go: the files of the profiles. Making a file is a parameter.
use casbin_mesh.Prelude.{
  Str, str, Bool, true, not, ◌==◌, nat_eq, list_eq, ◌≡◌, Option, none, some, [], ◌++◌, arith,
  if◌then◌else◌, ◌||◌,
}
use casbin_mesh.Result.{Error, message, error_text}

-- The variable `prof`: which of its files are not nil.
pub record Prof : Type 0 where
  pub cpu : Bool
  pub mem : Bool

module _ {W : Type 0} (create : Str → W → W × Option Error) where
  abbrev made : Str → (Prof → Prof) → Prof → W × Option Error → (W × Prof) × Option Error
  made text set prof (w, none) = ((w, set prof), none)
  made text set prof (w, some e) = ((w, prof), some (message (text ++ error_text e)))

  abbrev profile_memory : Str → (W × Prof) × Option Error → (W × Prof) × Option Error
  profile_memory memprofile (s, some e) = (s, some e)
  profile_memory memprofile ((w, prof), none) =
      if not (memprofile == [])
      then made (str "failed to create memory profile: ") (λ prof. record prof { mem = true }) prof
          (create memprofile w)
      else ((w, prof), none)

  unfoldable pub start_profile : Str → Str → W → Prof → (W × Prof) × Option Error
  start_profile cpuprofile memprofile w prof = profile_memory memprofile (
      if not (cpuprofile == [])
      then made (str "failed to create CPU profile file: ") (λ prof. record prof { cpu = true })
          prof (create cpuprofile w)
      else ((w, prof), none))

  -- Without an error, the files that are set are those with a name, and those that were set.
  pub start_profile-set :
      (cpuprofile memprofile : Str) (w : W) (prof : Prof)
      → (start_profile cpuprofile memprofile w prof).1 ≡ none
      → (start_profile cpuprofile memprofile w prof).0.1 ≡ record {
        cpu = not (cpuprofile == []) || prof.cpu;
        mem = not (memprofile == []) || prof.mem;
      }
  unfolding start_profile
  start_profile-set cpuprofile memprofile w prof fine = ground (arith, fine)
