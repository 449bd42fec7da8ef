-- ===== src/Http/Tests.antt =====
-- Requests to the service of one node, and the theorems at them.
use casbin_mesh.Prelude.{
  ℕ, zero, suc, str, false, ◌≡◌, refl, Option, some, List, [], ◌∷◌, arith, nat_eq, list_eq,
  list_beq, inl,
}
use casbin_mesh.Result.{not_leader}
use casbin_mesh.Dict
use casbin_mesh.Badger.Table.{table_badger}
use casbin_mesh.Fsm.Toy.{toy_casbin, toy_proto}
use casbin_mesh.Credentials.{basic}
use casbin_mesh.Store.Toy.{one_node, leader, follower}
use casbin_mesh.Store.Membership
use casbin_mesh.Http.{
  ServeMux, served_by, blank_writer, passed, failed, Handler, HttpServer, next, serve, basic_author,
}
use casbin_mesh.Http.Chain.{next-run_all}
use casbin_mesh.Http.Handlers.{Site, handle_join}
use casbin_mesh.Http.Routes.{new_http_service}
use casbin_mesh.Http.Guard.{new_http_service-refuses, status_of, built}
use casbin_mesh.Http.Join.{handle_join-body}
use casbin_mesh.Http.Toy.{
  joining, toy_validator-laws, libraries, broken_leader, settings, anonymous,
}

abbrev nobody : Handler ℕ
nobody = basic_author (λ w username password. false)

abbrev copies : ℕ → List (Handler ℕ)
copies zero = []
copies (suc n) = nobody ∷ copies n

-- 128 handlers that refuse everybody let everybody pass.
next-run_all_example :
    next (copies 128) (anonymous (str "/stats")) 0 blank_writer ≡ (0, blank_writer, passed)
next-run_all_example =
    next-run_all (copies 128) (anonymous (str "/stats")) 0 blank_writer (ground arith)

abbrev ASite : Type 0
ASite = Site table_badger toy_casbin toy_proto one_node libraries ℕ

abbrev service : Option (HttpServer ASite)
service =
    new_http_service table_badger toy_casbin toy_proto one_node libraries broken_leader settings
      basic

abbrev served : Option (HttpServer ASite) → HttpServer ASite
served s = built table_badger toy_casbin toy_proto one_node libraries broken_leader settings s

-- Each path is a pattern.
abbrev by_path : ServeMux
by_path patterns r = served_by r.path

new_http_service-refuses_example :
    let (site', o', out) =
      serve by_path
        (λ text. text)
        (served service)
        (anonymous (str "/add/policies"))
        (leader, 0)
        blank_writer in
    (site' ≡ (leader, 0)) × (out ≡ passed) × (status_of o' ≡ some 401)
unfolding new_http_service list_beq Dict.has Dict.insert
new_http_service-refuses_example =
    new_http_service-refuses table_badger toy_casbin toy_proto one_node libraries broken_leader
      settings by_path (λ text. text) (served service) (anonymous (str "/add/policies")) (leader, 0)
      blank_writer refl (inl refl) refl

handle_join-body_example :
    handle_join table_badger toy_casbin toy_proto one_node libraries ℕ
      (anonymous (str "/join"))
      (follower, 0)
      blank_writer
    ≡ ((follower, 0), blank_writer, failed not_leader)
unfolding list_beq Membership.join
handle_join-body_example =
    handle_join-body table_badger toy_casbin toy_proto one_node libraries toy_validator-laws ℕ
      joining (anonymous (str "/join")) follower 0 blank_writer refl (ground arith) (ground arith)
