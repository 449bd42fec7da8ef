-- ===== src/Http/Routes.antt =====
-- server/core/http.go: the routes of the service, and the forwarding to the leader.
use casbin_mesh.Prelude.{Str, str, Bool, Option, none, some, List, [], ◌∷◌, ◌++◌, if◌then◌else◌}
use casbin_mesh.Result.{Error, ok, err, error_text}
use casbin_mesh.Badger.{Badger}
use casbin_mesh.Casbin.{Casbin}
use casbin_mesh.Command.{Proto}
use casbin_mesh.Credentials.{AuthType, basic, noop, other_type}
use casbin_mesh.Store.{Raft, Node}
use casbin_mesh.Core.{new}
use casbin_mesh.Store.Status.{Settings}
use casbin_mesh.Http.{
  Request, Writer, Outcome, passed, failed, panicked, Handler, HttpServer, delete_header,
  http_error, basic_author, new_server, use_middleware, handle,
}
use casbin_mesh.Http.Service.{
  Libraries, Proxy, ProxyRequest, copy, set_response_header, Middleware, chain,
}
use casbin_mesh.Http.Handlers.{
  Site, handle_join, handle_remove, handle_create_namespace, handle_list_namespace,
  handle_print_model, handle_list_policies, handle_set_model_from_string, handle_add_policies,
  handle_remove_policies, handle_remove_filtered_policy, handle_update_policies,
  handle_clear_policy, handle_enforce, handle_stats,
}

module _ (b : Badger) (casbin : Casbin b) (proto : Proto) (raft : Raft) (l : Libraries casbin)
    {Net : Type 0} (proxy : Proxy Net) (set : Settings) where
  abbrev Here : Type 0
  Here = Site b casbin proto raft l Net

  -- `http2.Error` where the body of the request could not be read; the forwarding goes on.
  abbrev body_error : Option Error → Writer → Writer
  body_error none o = o
  body_error (some e) o = http_error (error_text e) 500 o

  -- The response of the leader, as far as it is copied.
  abbrev copied : Option Error → Outcome
  copied none = passed
  copied (some e) = failed e

  unfoldable pub proxy_request : Request → Node b casbin proto raft → ProxyRequest
  proxy_request r n = record {
    method = r.method;
    url =
        (if r.is_tls then str "https" else str "http")
        ++ (str "://" ++ ((new b casbin proto raft).leader_addr n ++ r.request_uri));
    header = r.header;
    text = r.body.text;
  }

  -- The branch of a node that does not lead. A URL that is refused leaves a nil request.
  unfoldable pub forward : Handler Here
  unfolding proxy_request http_error error_text
  forward r (n, net) o =
      let o' =
        body_error r.body.failure
          (delete_header (str "Access-Control-Allow-Origin") (delete_header (str "Vary") o)) in
      let p = proxy_request r n in
      let (net', answer) = proxy.send p net in
      elim (proxy.url_error p.url) [
        | some e ↦ ((n, net), o', panicked)
        | none ↦ elim answer [
          | err e ↦ ((n, net'), http_error (error_text e) 502 o', passed)
          | ok resp ↦ ((n, net'), copy resp.text o', copied resp.failure)
        ]
      ]

  unfoldable pub auto_forward_to_leader : Middleware Here
  unfolding forward
  auto_forward_to_leader fn r (n, net) o =
      if (new b casbin proto raft).is_leader n then fn r (n, net) o else forward r (n, net) o

  abbrev forwarded : Handler Here → Handler Here
  unfolding chain
  forwarded fn = chain auto_forward_to_leader [] fn

  -- The patterns and their handlers, in the order of their registration.
  unfoldable pub routes : List (Str × Handler Here)
  unfolding chain
  routes =
      (str "/join", handle_join b casbin proto raft l Net)
      ∷ ((str "/remove", handle_remove b casbin proto raft l Net)
          ∷ ((
            str "/create/namespace",
            forwarded (handle_create_namespace b casbin proto raft l Net),
          )
              ∷ ((
                str "/list/namespaces",
                forwarded (handle_list_namespace b casbin proto raft l Net),
              )
                  ∷ ((str "/print/model", forwarded (handle_print_model b casbin proto raft l Net))
                      ∷ ((
                        str "/list/policies",
                        forwarded (handle_list_policies b casbin proto raft l Net),
                      )
                          ∷ ((
                            str "/set/model",
                            forwarded (handle_set_model_from_string b casbin proto raft l Net),
                          )
                              ∷ ((
                                str "/add/policies",
                                forwarded (handle_add_policies b casbin proto raft l Net),
                              )
                                  ∷ ((
                                    str "/remove/policies",
                                    forwarded (handle_remove_policies b casbin proto raft l Net),
                                  )
                                      ∷ ((
                                        str "/remove/filtered_policies",
                                        forwarded (
                                            handle_remove_filtered_policy b casbin proto raft l
                                              Net),
                                      )
                                          ∷ ((
                                            str "/update/policies",
                                            forwarded
                                                (handle_update_policies b casbin proto raft l Net),
                                          )
                                              ∷ ((
                                                str "/clear/policy",
                                                forwarded
                                                    (handle_clear_policy b casbin proto raft l Net),
                                              )
                                                  ∷ ((
                                                    str "/enforce",
                                                    handle_enforce b casbin proto raft l Net,
                                                  )
                                                      ∷ ((
                                                        str "/stats",
                                                        handle_stats b casbin proto raft l Net set,
                                                      )
                                                          ∷ ([]))))))))))))))

  unfoldable pub handle_all : List (Str × Handler Here) → HttpServer Here → Option (HttpServer Here)
  unfolding handle
  handle_all [] s = some s
  handle_all ((pattern, h) ∷ rs) s = elim (handle pattern h s) [
    | none ↦ none
    | some s' ↦ handle_all rs s'
  ]

  unfoldable pub author : Here → Str → Str → Bool
  author (n, net) username password = (new b casbin proto raft).check l.bcrypt n username password

  unfoldable pub middlewares : AuthType → HttpServer Here
  unfolding new_server use_middleware set_response_header basic_author author
  middlewares auth =
      let plain = use_middleware set_response_header new_server in
      elim auth [
        | basic ↦ use_middleware (basic_author author) plain
        | noop ↦ plain
        | other_type t ↦ plain
      ]

  -- `NewHttpService`
  unfoldable pub new_http_service : AuthType → Option (HttpServer Here)
  unfolding middlewares handle_all routes
  new_http_service auth = handle_all routes (middlewares auth)
