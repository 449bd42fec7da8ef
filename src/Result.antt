-- ===== src/Result.antt =====
-- Go errors as values. The sentinel errors of the packages are constructors; an error made by
-- `errors.New` or `fmt.Errorf`, or by a library, carries its text.
use casbin_mesh.Prelude.{Str, str, ◌≡◌, refl, ◌⊎◌, inl, inr}

pub data Error : Type 0 where
  -- server/store/store.go
  not_leader stale_read open_timeout : Error
  -- server/store/fsm.go
  namespace_existed model_unset_yet namespace_not_exist unmarshal_failed : Error
  state_transaction_failed : Error
  -- server/auth, server/handler, server/cluster, server/adapter, client
  user_exists user_not_exists unauthorized join_failed invalid_rules_len marshal_failed : Error
  -- badger's ErrKeyNotFound, and every other error with its text
  key_not_found : Error
  message : Str → Error

-- A pair `(A, error)` whose value is read only if the error is nil.
pub data Result {ℓ} (A : Type ℓ) : Type ℓ where
  ok : A → Result A
  err : Error → Result A

-- The first error ends a `do` block.
infixl 5 ◌>>=◌
abbrev pub ◌>>=◌ {ℓ κ} : {A : Type ℓ} {B : Type κ} → Result A → (A → Result B) → Result B
ok a >>= f = f a
err e >>= f = err e

pub Result-cases {ℓ} :
    {A : Type ℓ} (r : Result A) → ((a : A) × (r ≡ ok a)) ⊎ ((e : Error) × (r ≡ err e))
Result-cases (ok a) = inl (a, refl)
Result-cases (err e) = inr (e, refl)

-- `err.Error()`
unfoldable pub error_text : Error → Str
error_text not_leader = str "not leader"
error_text stale_read = str "stale read"
error_text open_timeout = str "timeout waiting for initial logs application"
error_text namespace_existed = str "namespace already existed"
error_text model_unset_yet = str "model unset yet"
error_text namespace_not_exist = str "namespace not exist"
error_text unmarshal_failed = str "unmarshal failed"
error_text state_transaction_failed = str "state transaction failed"
error_text user_exists = str "user exists"
error_text user_not_exists = str "user not exists"
error_text unauthorized = str "unauthorized"
error_text join_failed = str "failed to join cluster"
error_text invalid_rules_len = str "invalid rule len"
error_text marshal_failed = str "marshal failed"
error_text key_not_found = str "Key not found"
error_text (message text) = text
