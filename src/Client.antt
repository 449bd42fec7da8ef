-- ===== src/Client.antt =====
-- client/v2/client.go: the client library. The connection is a parameter: a call of it takes the
-- message to the other side and brings the response, or an error.
pub mod Delivery
pub mod Queries
mod Tests
use casbin_mesh.Prelude.{
  Str, Bool, true, false, Option, none, some, List, [], ◌∷◌, ◌==◌, nat_eq, list_eq, if◌then◌else◌,
  ℤ,
}
use casbin_mesh.Result.{Error, Result, ok, err, marshal_failed, message}
use casbin_mesh.Command
use casbin_mesh.Command.{
  Command, CommandType, Proto, Level, EnforcePayload, new_string_array, to_string_array,
}
use casbin_mesh.Store.Policies.{rules_payload, update_payload}
use casbin_mesh.Grpc.{GrpcResponse, EnforceResponse}

pub record Connection (W : Type 0) : Type 0 where
  pub request : Command → W → W × Result GrpcResponse
  pub enforce : Str → EnforcePayload → W → W × Result EnforceResponse

module _ {W : Type 0} (proto : Proto) (c : Connection W) where
  -- `if err != nil …; if resp.Error != "" …`, and a part of the response.
  unfoldable pub read_response {ℓ} :
      {A : Type ℓ} → (GrpcResponse → A) → W × Result GrpcResponse → W × Result A
  read_response part (w, err e) = (w, err e)
  read_response part (w, ok resp) =
      if resp.error == [] then (w, ok (part resp)) else (w, err (message resp.error))

  unfoldable pub add_policies : Str → Str → Str → List (List Str) → W → W × Result (List (List Str))
  unfolding read_response
  add_policies namespace sec ptype rules w =
      elim (proto.rules.marshal (rules_payload sec ptype rules)) [
        | err e ↦ (w, err marshal_failed)
        | ok p ↦
            read_response (λ resp. to_string_array resp.effected_rules)
              (c.request
                (record { kind = Command.add_policies; namespace = namespace; payload = p }) w)
      ]

  unfoldable pub remove_policies :
      Str → Str → Str → List (List Str) → W → W × Result (List (List Str))
  unfolding read_response
  remove_policies namespace sec ptype rules w =
      elim (proto.rules.marshal (rules_payload sec ptype rules)) [
        | err e ↦ (w, err marshal_failed)
        | ok p ↦
            read_response (λ resp. to_string_array resp.effected_rules)
              (c.request
                (record { kind = Command.remove_policies; namespace = namespace; payload = p }) w)
      ]

  unfoldable pub update_policies :
      Str → Str → Str → List (List Str) → List (List Str) → W → W × Result Bool
  unfolding read_response
  update_policies namespace sec ptype old new w =
      elim (proto.update.marshal (update_payload sec ptype new old)) [
        | err e ↦ (w, err marshal_failed)
        | ok p ↦
            read_response (λ resp. resp.effected)
              (c.request
                (record { kind = Command.update_policies; namespace = namespace; payload = p }) w)
      ]

  -- The values are encoded already; an error of their encoding is returned as it is.
  unfoldable pub enforce : Str → Level → ℤ → Result (List Str) → W → W × Result Bool
  enforce namespace level freshness params w = elim params [
    | err e ↦ (w, err e)
    | ok texts ↦
        let (w', r) =
          c.enforce namespace (record { b = texts; level = level; freshness = freshness }) w in
        elim r [
          | err e ↦ (w', err e)
          | ok result ↦
              if result.error == []
              then (w', ok result.allowed)
              else (w', err (message result.error))
        ]
  ]
