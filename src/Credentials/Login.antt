-- ===== src/Credentials/Login.antt =====
-- Which logins the credentials store accepts after each of its operations.
use casbin_mesh.Prelude.{
  Str, ◌≡◌, Bool, true, false, ◌||◌, Option, none, some, arith, ◌==◌, nat_eq, list_eq, eq_refl,
  if◌then◌else◌,
}
use casbin_mesh.Result.{ok, err, user_exists}
use casbin_mesh.Dict
use casbin_mesh.Dict.{Dict, lookup-insert, lookup-delete, lookup-insert_all}
use casbin_mesh.Credentials.{Bcrypt, CredentialsStore, add, check, remove, update}

-- What `check` answers is decided by the entry of the user alone.
abbrev pub accepts : Bcrypt → Option Str → Str → Bool
accepts b none password = false
accepts b (some pw) password = password == pw || b.matches pw password

pub check-accepts :
    (b : Bcrypt) (c : CredentialsStore) (u p : Str)
    → check b c u p ≡ accepts b (Dict.lookup u c.store) p
unfolding check
check-accepts b c u p = ground arith

-- `Add` of a new user succeeds if bcrypt does. Then the user's logins are decided by the hash and
-- every other user's logins are as before.
pub check-add :
    (b : Bcrypt) (salt u p hashed : Str) (c : CredentialsStore)
    → Dict.lookup u c.store ≡ none
    → b.generate salt p ≡ ok hashed
    → (c' : CredentialsStore) × (add b salt u p c ≡ ok c')
      × ((v q : Str)
          → check b c' v q ≡ (if u == v then q == hashed || b.matches hashed q else check b c v q))
unfolding add check
check-add b salt u p hashed c new made = (
  record { store = Dict.insert u hashed c.store },
  ground arith,
  λ v q. ground (arith, lookup-insert u v hashed c.store),
)

-- A known user is never added again, whatever the password.
pub add_known :
    (b : Bcrypt) (salt u p pw : Str) (c : CredentialsStore)
    → Dict.lookup u c.store ≡ some pw
    → add b salt u p c ≡ err user_exists
unfolding add
add_known b salt u p pw c h = ground arith

-- After `Remove` the user is refused under every password; the others' logins are as before.
pub check-remove :
    (b : Bcrypt) (u v q : Str) (c c' : CredentialsStore)
    → remove u c ≡ ok c'
    → check b c' v q ≡ (if u == v then false else check b c v q)
unfolding remove check
check-remove b u v q c c' h = ground (arith, lookup-delete u v c.store)

-- `Update` of a known user succeeds, and what it stores is the new password itself: the user logs
-- in with it, or with a text that bcrypt takes for it; the other users' logins are as before.
pub check-update :
    (b : Bcrypt) (u p pw : Str) (c : CredentialsStore)
    → Dict.lookup u c.store ≡ some pw
    → (c' : CredentialsStore) × (update u p c ≡ ok c')
      × (Dict.lookup u c'.store ≡ some p)
      × ((v q : Str) → check b c' v q ≡ (if u == v then q == p || b.matches p q else check b c v q))
unfolding update check
check-update b u p pw c known = (
  record { store = Dict.insert u p c.store },
  ground arith,
  ground (arith, lookup-insert u u p c.store, eq_refl u),
  λ v q. ground (arith, lookup-insert u v p c.store),
)

-- Whatever is stored for a user, a hash too, is itself accepted as the user's password.
pub check_stored :
    (b : Bcrypt) (u pw : Str) (c : CredentialsStore)
    → Dict.lookup u c.store ≡ some pw
    → check b c u pw ≡ true
unfolding check
check_stored b u pw c h = ground (arith, eq_refl pw)
