-- ===== src/Store/Logger.antt =====
-- server/store/log.go: raft's logger, over zap's.
use casbin_mesh.Prelude.{
  Str, Bool, false, ◌≡◌, refl, Option, none, some, List, [], ◌∷◌, ◌++◌, arith, ap,
}
use mathlib.Core.List.{append_assoc}
use casbin_mesh.Store.Fields.{Arg, args_to_fields, flattened, args_to_fields-flattened}

-- What zap's logger keeps: the parts of its name, and its fields.
pub record RaftLogger (V : Type 0) : Type 0 where
  pub names : List Str
  pub fields : List (Str × Arg V)

pub data Severity : Type 0 where
  trace debug info warn error : Severity

-- What zap is given to log.
pub record Entry (V : Type 0) : Type 0 where
  pub severity : Severity
  pub names : List Str
  pub msg : Str
  pub fields : List (Str × Arg V)

module _ {V : Type 0} where
  abbrev emit :
      Severity → Str → RaftLogger V → Option (List (Str × Arg V)) → Option (List (Entry V))
  emit severity msg r none = none
  emit severity msg r (some fields) =
      some (
        record { severity = severity; names = r.names; msg = msg; fields = r.fields ++ fields }
        ∷ [])

  -- `Trace`, `Debug`, `Info`, `Warn` and `Error`: what is logged; `none` is a panic. Raft's traces are
  -- dropped.
  unfoldable pub log : Severity → Str → List (Arg V) → RaftLogger V → Option (List (Entry V))
  unfolding args_to_fields
  log trace msg args r = some []
  log debug msg args r = emit debug msg r (args_to_fields args)
  log info msg args r = emit info msg r (args_to_fields args)
  log warn msg args r = emit warn msg r (args_to_fields args)
  log error msg args r = emit error msg r (args_to_fields args)

  -- `IsTrace`, `IsDebug`, `IsInfo`, `IsWarn` and `IsError`
  unfoldable pub is_enabled : Severity → RaftLogger V → Bool
  is_enabled severity r = false

  abbrev extended : RaftLogger V → Option (List (Str × Arg V)) → Option (RaftLogger V)
  extended r none = none
  extended r (some fields) = some (record { names = r.names; fields = r.fields ++ fields })

  unfoldable pub with_args : List (Arg V) → RaftLogger V → Option (RaftLogger V)
  unfolding args_to_fields
  with_args args r = extended r (args_to_fields args)

  unfoldable pub named : Str → RaftLogger V → RaftLogger V
  named name r = record { names = r.names ++ (name ∷ []); fields = r.fields }

  -- The name is not reset.
  unfoldable pub reset_named : Str → RaftLogger V → RaftLogger V
  reset_named name r = r

  unfoldable pub set_level : Severity → RaftLogger V → RaftLogger V
  set_level severity r = r

  unfoldable pub new_raft_logger : RaftLogger V
  new_raft_logger = record { names = []; fields = [] }

  abbrev pub after_with :
      Severity → Str → List (Arg V) → Option (RaftLogger V) → Option (List (Entry V))
  after_with severity msg args none = none
  after_with severity msg args (some r) = log severity msg args r

  abbrev put_fields : List (Str × Arg V) → Option (List (Str × Arg V)) → Option (List (Str × Arg V))
  put_fields fs none = none
  put_fields fs (some fields) = some (fs ++ fields)

  args_to_fields-append :
      (fs : List (Str × Arg V)) (args : List (Arg V))
      → args_to_fields (flattened fs ++ args) ≡ put_fields fs (args_to_fields args)
  unfolding args_to_fields
  args_to_fields-append [] args = ground arith
  args_to_fields-append ((k, a) ∷ fs) args = ground (arith, args_to_fields-append fs args)

  emit-append :
      (severity : Severity) (msg : Str) (r : RaftLogger V) (fs : List (Str × Arg V))
      (o : Option (List (Str × Arg V)))
      → emit severity msg (record { names = r.names; fields = r.fields ++ fs }) o
        ≡ emit severity msg r (put_fields fs o)
  emit-append severity msg r fs none = refl
  emit-append severity msg r fs (some fields) =
      ap
        (λ all.
          some (record { severity = severity; names = r.names; msg = msg; fields = all } ∷ []))
        (append_assoc r.fields fs fields)

  with_args-flattened :
      (fs : List (Str × Arg V)) (r : RaftLogger V)
      → with_args (flattened fs) r ≡ some (record { names = r.names; fields = r.fields ++ fs })
  unfolding with_args
  with_args-flattened fs r = ap (extended r) (args_to_fields-flattened fs)

  emitted :
      (severity : Severity) (msg : Str) (fs : List (Str × Arg V)) (args : List (Arg V))
      (r : RaftLogger V)
      → emit severity msg
          (record { names = r.names; fields = r.fields ++ fs })
          (args_to_fields args)
        ≡ emit severity msg r (args_to_fields (flattened fs ++ args))
  emitted severity msg fs args r =
      rw (args_to_fields-append fs args) (emit-append severity msg r fs (args_to_fields args))

  -- A message of a logger with arguments is one of the logger before, with these arguments first.
  pub log-with_args :
      (severity : Severity) (msg : Str) (fields : List (Str × Arg V)) (args : List (Arg V))
      (r : RaftLogger V)
      → after_with severity msg args (with_args (flattened fields) r)
        ≡ log severity msg (flattened fields ++ args) r
  unfolding log with_args
  log-with_args trace msg fields args r = rw (with_args-flattened fields r) refl
  log-with_args debug msg fields args r =
      rw (with_args-flattened fields r) (emitted debug msg fields args r)
  log-with_args info msg fields args r =
      rw (with_args-flattened fields r) (emitted info msg fields args r)
  log-with_args warn msg fields args r =
      rw (with_args-flattened fields r) (emitted warn msg fields args r)
  log-with_args error msg fields args r =
      rw (with_args-flattened fields r) (emitted error msg fields args r)
