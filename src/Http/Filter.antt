-- ===== src/Http/Filter.antt =====
-- Removing policies by a filter over HTTP.
use casbin_mesh.Prelude.{inl, inr, str, false, ◌≡◌, refl, arith, nat_eq, list_eq, pos}
use casbin_mesh.Result.{Error, ok, err, Result-cases}
use casbin_mesh.Badger.{Badger}
use casbin_mesh.Casbin.{Casbin}
use casbin_mesh.Command.{Proto}
use casbin_mesh.Store.{Raft}
use casbin_mesh.Http.{Body, Request, Writer, failed}
use casbin_mesh.Http.Json.{JsonText, json_int, json_object, Fields, field}
use casbin_mesh.Http.Requests.{Validator, ValidatorLaws, decode_remove_filtered_policy}
use casbin_mesh.Http.Service.{Libraries}
use casbin_mesh.Http.Handlers.{Site, handle_remove_filtered_policy, decoded}

decode-zero :
    (j : JsonText) (v : Validator) (m : Fields) (body : Body)
    → v.int_set (pos 0) ≡ false
    → j.parse body ≡ ok (json_object m)
    → field (str "fieldIndex") m ≡ json_int (pos 0)
    → (e : Error) × (decode_remove_filtered_policy j v body ≡ err e)
unfolding decode_remove_filtered_policy
decode-zero j v m body unset sent zero =
    elim (Result-cases (decode_remove_filtered_policy j v body)) [
      | inr failure ↦ failure
      | inl (q, done) ↦ absurd (ground (arith, unset, sent, zero, done))
    ]

module _ (b : Badger) (casbin : Casbin b) (proto : Proto) (raft : Raft) (l : Libraries casbin)
    (laws : ValidatorLaws l.validator) (Net : Type 0) where
  -- A filter at the first field, index 0, is refused as a missing field, whatever else the request
  -- has: the handler fails before it calls the store, so nothing has changed.
  pub handle_remove_filtered_policy-zero :
      (r : Request) (site : Site b casbin proto raft l Net) (o : Writer) (m : Fields)
      → l.json.parse r.body ≡ ok (json_object m)
      → field (str "fieldIndex") m ≡ json_int (pos 0)
      → (e : Error) × (handle_remove_filtered_policy b casbin proto raft l Net r site o
          ≡ (site, o, failed e))
  unfolding handle_remove_filtered_policy decoded
  handle_remove_filtered_policy-zero r site o m sent zero =
      let (e, failure) = decode-zero l.json l.validator m r.body laws.int_zero sent zero in
      (e, rw failure refl)
