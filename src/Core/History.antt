-- ===== src/Core/History.antt =====
-- Requests at a node one after the other, and the log behind them: the state machine changes by entries
-- of the log alone.
pub mod Joined
pub mod Served
pub mod Sessions
use casbin_mesh.Prelude.{
  Str, Bool, true, false, ◌≡◌, refl, ◌∙◌, sym, ap, subst, if◌then◌else◌, Option, none, some, List,
  [], ◌∷◌, ◌++◌, ℤ, arith, Option-cases, Bool-cases, inl, inr,
}
use casbin_mesh.Result.{Error, Result, Result-cases, ok, err}
use casbin_mesh.Dict.{Dict}
use casbin_mesh.Badger.{Badger}
use casbin_mesh.Casbin.{Casbin}
use casbin_mesh.Command
use casbin_mesh.Command.{Proto, Level}
use casbin_mesh.Fsm.{State, Response, replay}
use casbin_mesh.Fsm
use casbin_mesh.Store
use casbin_mesh.Store.{
  Raft, RaftError, Node, Answer, Future, observe, wait, run_entry, answer_rules, answer_flag,
  answer_error,
}
use casbin_mesh.Store.Policies
use casbin_mesh.Store.Manage
use casbin_mesh.Store.Membership
use casbin_mesh.Core.{new}

-- What raft commits at a node, by its own calls alone: the entries that it has committed when a call
-- returns, and then the entry that was sent, if there was no error. The node's state has no part in it.
pub data Commits (raft : Raft) : raft.R → List Str → raft.R → Type 0 where
  nothing : (r : raft.R) → Commits raft r [] r
  committed :
      (entry : Str) (r r' : raft.R) (before : List Str)
      → raft.submit entry r ≡ (r', before, none)
      → Commits raft r (before ++ (entry ∷ [])) r'
  refused :
      (entry : Str) (r r' : raft.R) (before : List Str) (e : RaftError)
      → raft.submit entry r ≡ (r', before, some e)
      → Commits raft r before r'
  member_added :
      (voter : Bool) (id addr : Str) (r r' : raft.R) (before : List Str) (e : Option RaftError)
      → (if voter then raft.add_voter id addr r else raft.add_nonvoter id addr r) ≡ (r', before, e)
      → Commits raft r before r'
  member_removed :
      (id : Str) (r r' : raft.R) (before : List Str) (e : Option RaftError)
      → raft.remove_server id r ≡ (r', before, e)
      → Commits raft r before r'
  then_commits :
      (r r' r2 : raft.R) (log log' : List Str)
      → Commits raft r log r'
      → Commits raft r' log' r2
      → Commits raft r (log ++ log') r2

module _ (b : Badger) (casbin : Casbin b) (proto : Proto) (raft : Raft) where
  -- The second state is what the entries that raft committed meanwhile make of the first.
  abbrev pub ByEntries : Node b casbin proto raft → Node b casbin proto raft → Type 0
  ByEntries n n' =
      (log : List Str) × Commits raft n.raft_state log n'.raft_state
      × (n'.fsm ≡ replay b casbin proto log n.fsm)

  replay-append :
      (xs ys : List Str) (s : State b casbin proto)
      → replay b casbin proto (xs ++ ys) s ≡ replay b casbin proto ys (replay b casbin proto xs s)
  unfolding replay
  replay-append [] ys s = refl
  replay-append (x ∷ xs) ys s = replay-append xs ys (Fsm.apply b casbin proto x s).0

  unchanged : (n : Node b casbin proto raft) → ByEntries n n
  unfolding replay
  unchanged n = ([], nothing n.raft_state, refl)

  further : (n n' n2 : Node b casbin proto raft) → ByEntries n n' → ByEntries n' n2 → ByEntries n n2
  further n n' n2 (log, c, h) (log', c', h') = (
    log ++ log',
    then_commits n.raft_state n'.raft_state n2.raft_state log log' c c',
    h' ∙ ap (replay b casbin proto log') h ∙ sym (replay-append log log' n.fsm),
  )

  observe-ByEntries :
      (r : raft.R) (before : List Str) (n : Node b casbin proto raft)
      → Commits raft n.raft_state before r
      → ByEntries n (observe b casbin proto raft r before n)
  unfolding observe
  observe-ByEntries r before n c = (before, c, refl)

  run_entry-ByEntries :
      (entry : Str) (r : raft.R) (before : List Str) (n : Node b casbin proto raft)
      → raft.submit entry n.raft_state ≡ (r, before, none)
      → ByEntries n (run_entry b casbin proto raft entry (observe b casbin proto raft r before n)).0
  unfolding observe replay
  run_entry-ByEntries entry r before n sent = (
    before ++ (entry ∷ []),
    committed entry n.raft_state r before sent,
    sym (replay-append before (entry ∷ []) n.fsm),
  )

  wait-ByEntries :
      (entry : Str) (n : Node b casbin proto raft)
      → ByEntries n (wait b casbin proto raft entry n).0
  unfolding wait
  wait-ByEntries entry n =
      let f = raft.submit entry n.raft_state in
      elim (Option-cases f.2) [
        | inl fine ↦
            rw (wait, fine) (run_entry-ByEntries entry f.0 f.1 n (ap (λ e. (f.0, f.1, e)) fine))
        | inr (x, lost) ↦
            rw (wait, lost)
              (observe-ByEntries f.0 f.1 n
                (refused entry n.raft_state f.0 f.1 x (ap (λ e. (f.0, f.1, e)) lost)))
      ]

  request-ByEntries :
      (c : Command.Command) (n : Node b casbin proto raft)
      → ByEntries n (Store.request b casbin proto raft c n).0
  unfolding Store.request
  request-ByEntries c n = elim (Result-cases (proto.command.marshal c)) [
    | inl (entry, fine) ↦ rw (Store.request, fine) (wait-ByEntries entry n)
    | inr (e, bad) ↦ rw (Store.request, bad) (unchanged n)
  ]

  -- Reading the response leaves the node as it is.
  answer_rules-node :
      (r : Node b casbin proto raft × Result Response)
      → (answer_rules b casbin proto raft r).0 ≡ r.0
  unfolding answer_rules
  answer_rules-node r = ground arith

  answer_flag-node :
      (r : Node b casbin proto raft × Result Response) → (answer_flag b casbin proto raft r).0 ≡ r.0
  unfolding answer_flag
  answer_flag-node r = ground arith

  answer_error-node :
      (r : Node b casbin proto raft × Result Response)
      → (answer_error b casbin proto raft r).0 ≡ r.0
  unfolding answer_error
  answer_error-node r = ground arith

  answer_namespaces-node :
      (r : Node b casbin proto raft × Result Response)
      → (Manage.answer_namespaces b casbin proto raft r).0 ≡ r.0
  unfolding Manage.answer_namespaces
  answer_namespaces-node r = ground arith

  answer_policies-node :
      (r : Node b casbin proto raft × Result Response)
      → (Manage.answer_policies b casbin proto raft r).0 ≡ r.0
  unfolding Manage.answer_policies
  answer_policies-node r = ground arith

  answer_model-node :
      (r : Node b casbin proto raft × Result Response)
      → (Manage.answer_model b casbin proto raft r).0 ≡ r.0
  unfolding Manage.answer_model
  answer_model-node r = ground arith

  answer_enforce-node :
      (r : Node b casbin proto raft × Result Response)
      → (Manage.answer_enforce b casbin proto raft r).0 ≡ r.0
  unfolding Manage.answer_enforce
  answer_enforce-node r = ground arith

  moved : (n n' n2 : Node b casbin proto raft) → n2 ≡ n' → ByEntries n n' → ByEntries n n2
  moved n n' n2 same so_far = subst (ByEntries n) (sym same) so_far
