-- ===== src/Http/Handlers.antt =====
-- server/core/http.go: the handlers of the service. Each decodes a request and calls the store.
use casbin_mesh.Prelude.{str, Option, none, some, nat_eq, list_eq, map}
use casbin_mesh.Result.{Error, Result, ok, err}
use casbin_mesh.Badger.{Badger}
use casbin_mesh.Casbin.{Casbin}
use casbin_mesh.Command.{Proto}
use casbin_mesh.Store.{Raft, Node, Answer}
use casbin_mesh.Store.Status.{Settings}
use casbin_mesh.Core.{new}
use casbin_mesh.Http.{Writer, Outcome, passed, failed, panicked, Handler, write_header, write}
use casbin_mesh.Http.Json.{Json, json_bool, json_text, json_object, JsonText, no_fields, with_field}
use casbin_mesh.Http.Requests.{
  decode_join, decode_remove, decode_create_namespace, decode_set_model_from_string, decode_enforce,
  decode_add_policies, decode_remove_policies, decode_remove_filtered_policy,
  decode_update_policies, decode_clear_policy, decode_list_policies, decode_print_model,
}
use casbin_mesh.Http.Service.{Libraries, rules_json, effected_json, rows_json, names_json, level_of}

-- What a handler ends with when it succeeds: the status 200, and a value for the body.
abbrev finish : JsonText → Option Json → Writer → Writer
finish j none o = write_header 200 o
finish j (some v) o = write (j.print v) (write_header 200 o)

module _ (b : Badger) (casbin : Casbin b) (proto : Proto) (raft : Raft) (l : Libraries casbin)
    (Net : Type 0) where
  abbrev pub Site : Type 0
  Site = Node b casbin proto raft × Net

  -- What the node makes of a decoded request: no value, or one for the body; `none` is a panic.
  abbrev Reply : Type 0
  Reply = Node b casbin proto raft × Option (Result (Option Json))

  abbrev of_error : Node b casbin proto raft × Option (Option Error) → Reply
  of_error (n, none) = (n, none)
  of_error (n, some none) = (n, some (ok none))
  of_error (n, some (some e)) = (n, some (err e))

  abbrev of_answer : {A : Type 0} → (A → Json) → Node b casbin proto raft × Answer A → Reply
  of_answer f (n, none) = (n, none)
  of_answer f (n, some (a, some e)) = (n, some (err e))
  of_answer f (n, some (a, none)) = (n, some (ok (some (f a))))

  abbrev always :
      Node b casbin proto raft × Option Error → Node b casbin proto raft × Option (Option Error)
  always (n, e) = (n, some e)

  abbrev only_value : Result Json → Result (Option Json)
  only_value (err e) = err e
  only_value (ok v) = ok (some v)

  -- The part of each handler after the decoding.
  unfoldable pub respond : Reply → Net → Writer → Site × Writer × Outcome
  unfolding write_header write
  respond (n, none) net o = ((n, net), o, panicked)
  respond (n, some (err e)) net o = ((n, net), o, failed e)
  respond (n, some (ok out)) net o = ((n, net), finish l.json out o, passed)

  -- `if err = s.decode(…); err != nil { return }`, and what follows.
  unfoldable pub decoded :
      {A : Type 0} → Result A → (A → Node b casbin proto raft → Reply) → Handler Site
  unfolding respond
  decoded (err e) call r (n, net) o = ((n, net), o, failed e)
  decoded (ok request) call r (n, net) o = respond (call request n) net o

  unfoldable pub handle_join : Handler Site
  unfolding decoded
  handle_join r w o =
      decoded (decode_join l.json l.validator r.body)
        (λ q n. of_error (always ((new b casbin proto raft).join q.id q.addr q.voter q.metadata n)))
        r w o

  unfoldable pub handle_remove : Handler Site
  unfolding decoded
  handle_remove r w o =
      decoded (decode_remove l.json l.validator r.body)
        (λ q n. of_error (always ((new b casbin proto raft).remove q.id n))) r w o

  unfoldable pub handle_create_namespace : Handler Site
  unfolding decoded
  handle_create_namespace r w o =
      decoded (decode_create_namespace l.json l.validator r.body)
        (λ q n. of_error ((new b casbin proto raft).create_namespace q.ns n)) r w o

  unfoldable pub handle_set_model_from_string : Handler Site
  unfolding decoded
  handle_set_model_from_string r w o =
      decoded (decode_set_model_from_string l.json l.validator r.body)
        (λ q n. of_error ((new b casbin proto raft).set_model_from_string q.ns q.text n)) r w o

  unfoldable pub handle_enforce : Handler Site
  unfolding decoded
  handle_enforce r w o =
      decoded (decode_enforce l.json l.validator r.body)
        (λ q n.
          of_answer (λ allowed. json_object (with_field (str "ok") (json_bool allowed) no_fields))
            ((new b casbin proto raft).enforce q.ns (level_of q.level) q.freshness
              (map l.param q.params) n))
        r w o

  unfoldable pub handle_add_policies : Handler Site
  unfolding decoded
  handle_add_policies r w o =
      decoded (decode_add_policies l.json l.validator r.body)
        (λ q n.
          of_answer rules_json
            ((new b casbin proto raft).add_policies q.ns q.sec q.p_type q.rules n))
        r w o

  unfoldable pub handle_remove_policies : Handler Site
  unfolding decoded
  handle_remove_policies r w o =
      decoded (decode_remove_policies l.json l.validator r.body)
        (λ q n.
          of_answer rules_json
            ((new b casbin proto raft).remove_policies q.ns q.sec q.p_type q.rules n))
        r w o

  unfoldable pub handle_remove_filtered_policy : Handler Site
  unfolding decoded
  handle_remove_filtered_policy r w o =
      decoded (decode_remove_filtered_policy l.json l.validator r.body)
        (λ q n. of_answer rules_json (
          (new b casbin proto raft).remove_filtered_policy q.ns q.sec q.p_type q.field_index
            q.field_values n))
        r w o

  unfoldable pub handle_update_policies : Handler Site
  unfolding decoded
  handle_update_policies r w o =
      decoded (decode_update_policies l.json l.validator r.body)
        (λ q n.
          of_answer effected_json (
            (new b casbin proto raft).update_policies q.ns q.sec q.p_type q.new_rules q.old_rules
              n))
        r w o

  unfoldable pub handle_clear_policy : Handler Site
  unfolding decoded
  handle_clear_policy r w o =
      decoded (decode_clear_policy l.json l.validator r.body)
        (λ q n. of_error ((new b casbin proto raft).clear_policy q.ns n)) r w o

  unfoldable pub handle_list_policies : Handler Site
  unfolding decoded
  handle_list_policies r w o =
      decoded (decode_list_policies l.json l.validator r.body)
        (λ q n.
          of_answer rows_json
            ((new b casbin proto raft).list_policies q.ns q.cursor q.skip q.limit q.reverse n))
        r w o

  unfoldable pub handle_print_model : Handler Site
  unfolding decoded
  handle_print_model r w o =
      decoded (decode_print_model l.json l.validator r.body)
        (λ q n. of_answer json_text ((new b casbin proto raft).print_model q.ns n)) r w o

  -- The body of a request for the namespaces is not read.
  unfoldable pub handle_list_namespace : Handler Site
  unfolding respond
  handle_list_namespace r (n, net) o =
      respond (of_answer names_json ((new b casbin proto raft).list_namespaces n)) net o

  unfoldable pub handle_stats : Settings → Handler Site
  unfolding respond
  handle_stats set r (n, net) o =
      respond (n, some (only_value ((new b casbin proto raft).stats set n))) net o
