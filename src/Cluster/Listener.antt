-- ===== src/Cluster/Listener.antt =====
-- server/cluster/listener.go: one listener over several. A goroutine for each of them waits for a
-- connection and hands it on; connections are numbered here. A step is one event of the goroutines,
-- of a caller of `Accept`, or of a caller of `Close`.
use casbin_mesh.Prelude.{
  ℕ, suc, ◌+◌, ◌==◌, nat_eq, list_eq, ◌≡◌, ◌≢◌, refl, sym, ap, List, [], ◌∷◌, ◌++◌, length, arith,
  if◌then◌else◌, length-append, ◌∙◌, Str, str, Option, none, some, inl, inr,
}
use casbin_mesh.Result.{Result, Result-cases, ok, err, message}

-- `Close` closes `shutdownCh` first, and then one listener after the other: in between the listener is
-- `shutting`. Two first calls of `Close` at once, of which one panics, are left out.
pub data Phase : Type 0 where
  serving shutting shut : Phase

-- `waiting` goroutines are in the `Accept` of their listeners, which fails once these are closed, and
-- goes on after an error; `held` connections are not handed on yet; `stopped` goroutines have ended.
pub data Listener : Type 0 where
  listener : (waiting : ℕ) (held : List ℕ) (stopped : ℕ) (phase : Phase) → Listener

pub data Event : Type 0 where
  arrived accepted dropped : ℕ → Event
  failed refused closing closed : Event

pub data Step : Listener → Event → Listener → Type 0 where
  -- `conn, err := listener.Accept()` takes a connection, also while the listeners are closed one by one
  arrives :
      (n : ℕ) (held : List ℕ) (m c : ℕ) (p : Phase)
      → p ≢ shut
      → Step (listener (suc n) held m p) (arrived c) (listener n (c ∷ held) m p)
  -- `if err != nil { continue }`
  fails :
      (n : ℕ) (held : List ℕ) (m : ℕ) (p : Phase)
      → Step (listener (suc n) held m p) failed (listener (suc n) held m p)
  -- `l.connCh <- conn`, with the `Accept` that receives it
  accepts :
      (n : ℕ) (held before after : List ℕ) (m c : ℕ) (p : Phase)
      → held ≡ before ++ (c ∷ after)
      → Step (listener n held m p) (accepted c) (listener (suc n) (before ++ after) m p)
  -- `<-l.shutdownCh` of a goroutine with a connection
  drops :
      (n : ℕ) (held before after : List ℕ) (m c : ℕ) (p : Phase)
      → p ≢ serving
      → held ≡ before ++ (c ∷ after)
      → Step (listener n held m p) (dropped c) (listener n (before ++ after) (suc m) p)
  -- `<-l.shutdownCh` of `Accept`
  refuses :
      (n : ℕ) (held : List ℕ) (m : ℕ) (p : Phase)
      → p ≢ serving
      → Step (listener n held m p) refused (listener n held m p)
  -- `close(l.shutdownCh)` of the first `Close`
  closes :
      (n : ℕ) (held : List ℕ) (m : ℕ)
      → Step (listener n held m serving) closing (listener n held m shutting)
  -- The last `listener.Close()` of its loop has returned.
  closes_all :
      (n : ℕ) (held : List ℕ) (m : ℕ)
      → Step (listener n held m shutting) closed (listener n held m shut)
  -- A `Close` while that one closes the listeners, or after it
  closes_again :
      (n : ℕ) (held : List ℕ) (m : ℕ) (p : Phase)
      → p ≢ serving
      → Step (listener n held m p) closing (listener n held m p)

module _ {A : Type 0} (resolve_tcp_addr : Str → Result A) where
  abbrev pub with_goroutines : ℕ → Option A → Option A × Listener
  with_goroutines n advertise = (advertise, listener n [] 0 serving)

  -- `NewListener`, of as many listeners, with the address that it advertises.
  unfoldable pub new_listener : ℕ → Str → Result (Option A × Listener)
  new_listener n advertise =
      if n == 0
      then err (message (str "listeners cannot empty"))
      else if advertise == []
      then ok (with_goroutines n none)
      else elim (resolve_tcp_addr advertise) [
        | err e ↦ err e
        | ok a ↦ ok (with_goroutines n (some a))
      ]

pub data Run : Listener → List Event → Listener → Type 0 where
  still : (l : Listener) → Run l [] l
  then_step :
      (l l' l'' : Listener) (e : Event) (events : List Event)
      → Step l e l'
      → Run l' events l''
      → Run l (e ∷ events) l''

-- How often an event shows a connection, and how often it is held.
abbrev pub one : ℕ → ℕ → ℕ
one c d = if d == c then 1 else 0

abbrev pub held_count : ℕ → List ℕ → ℕ
held_count c [] = 0
held_count c (d ∷ held) = one c d + held_count c held

abbrev pub came : ℕ → List Event → ℕ
came c [] = 0
came c (arrived d ∷ events) = one c d + came c events
came c (e ∷ events) = came c events

abbrev pub left : ℕ → List Event → ℕ
left c [] = 0
left c (accepted d ∷ events) = one c d + left c events
left c (dropped d ∷ events) = one c d + left c events
left c (e ∷ events) = left c events

abbrev pub held_of : Listener → List ℕ
held_of (listener n held m p) = held

abbrev pub goroutines : Listener → ℕ
goroutines (listener n held m p) = n + length held + m

held_count-append :
    (c : ℕ) (xs ys : List ℕ) → held_count c (xs ++ ys) ≡ held_count c xs + held_count c ys
held_count-append c [] ys = omega arith
held_count-append c (x ∷ xs) ys = omega (arith, held_count-append c xs ys)

-- Taking one connection out of those that are held.
held_count-cut :
    (c d : ℕ) (before after : List ℕ)
    → held_count c (before ++ (d ∷ after)) ≡ one c d + held_count c (before ++ after)
held_count-cut c d before after =
    omega (arith, held_count-append c before (d ∷ after), held_count-append c before after)

length-cut :
    (d : ℕ) (before after : List ℕ)
    → length (before ++ (d ∷ after)) ≡ suc (length (before ++ after))
length-cut d before after =
    omega (arith, length-append before (d ∷ after), length-append before after)

step-held :
    (c : ℕ) {l l' : Listener} {e : Event}
    → Step l e l'
    → held_count c (held_of l) + came c (e ∷ []) ≡ left c (e ∷ []) + held_count c (held_of l')
step-held c (arrives n held m d p fits) = omega arith
step-held c (fails n held m p) = omega arith
step-held c (accepts n held before after m d p same) =
    rw same (omega (arith, held_count-cut c d before after))
step-held c (drops n held before after m d p late same) =
    rw same (omega (arith, held_count-cut c d before after))
step-held c (refuses n held m p late) = omega arith
step-held c (closes n held m) = omega arith
step-held c (closes_all n held m) = omega arith
step-held c (closes_again n held m p late) = omega arith

step-goroutines : {l l' : Listener} {e : Event} → Step l e l' → goroutines l ≡ goroutines l'
step-goroutines (arrives n held m d p fits) = omega arith
step-goroutines (fails n held m p) = refl
step-goroutines (accepts n held before after m d p same) =
    rw same (omega (arith, length-cut d before after))
step-goroutines (drops n held before after m d p late same) =
    rw same (omega (arith, length-cut d before after))
step-goroutines (refuses n held m p late) = refl
step-goroutines (closes n held m) = refl
step-goroutines (closes_all n held m) = refl
step-goroutines (closes_again n held m p late) = refl

came-first : (c : ℕ) (e : Event) (es : List Event) → came c (e ∷ es) ≡ came c (e ∷ []) + came c es
came-first c (arrived d) es = omega arith
came-first c (accepted d) es = omega arith
came-first c (dropped d) es = omega arith
came-first c failed es = omega arith
came-first c refused es = omega arith
came-first c closing es = omega arith
came-first c closed es = omega arith

left-first : (c : ℕ) (e : Event) (es : List Event) → left c (e ∷ es) ≡ left c (e ∷ []) + left c es
left-first c (arrived d) es = omega arith
left-first c (accepted d) es = omega arith
left-first c (dropped d) es = omega arith
left-first c failed es = omega arith
left-first c refused es = omega arith
left-first c closing es = omega arith
left-first c closed es = omega arith

run-held :
    (c : ℕ) {l l' : Listener} {es : List Event}
    → Run l es l'
    → held_count c (held_of l) + came c es ≡ left c es + held_count c (held_of l')
run-held c (still l) = omega arith
run-held c (then_step l l' l'' e es step rest) =
    omega (arith, came-first c e es, left-first c e es, step-held c step, run-held c rest)

run-goroutines : {l l' : Listener} {es : List Event} → Run l es l' → goroutines l ≡ goroutines l'
run-goroutines (still l) = refl
run-goroutines (then_step l l' l'' e es step rest) = step-goroutines step ∙ run-goroutines rest

pub new_listener-fresh :
    {A : Type 0} (resolve_tcp_addr : Str → Result A) (n : ℕ) (advertise : Str) (a : Option A)
    (l : Listener)
    → new_listener resolve_tcp_addr n advertise ≡ ok (a, l)
    → l ≡ listener n [] 0 serving
unfolding new_listener
new_listener-fresh resolve_tcp_addr n advertise a l same =
    elim (Result-cases (resolve_tcp_addr advertise)) [
      | inl (found, fine) ↦ ground (arith, fine, same)
      | inr (e, bad) ↦ ground (arith, bad, same)
    ]

-- In every run of a new listener, also while and after it is closed, each connection came exactly as
-- often as it was accepted, dropped or is held: none is lost, none is accepted twice. One goroutine
-- remains for each of the listeners, in its `Accept`, with a connection, or stopped.
pub new_listener-conserves :
    {A : Type 0} (resolve_tcp_addr : Str → Result A) (c n : ℕ) (advertise : Str) (a : Option A)
    {l l' : Listener} {es : List Event}
    → new_listener resolve_tcp_addr n advertise ≡ ok (a, l)
    → Run l es l'
    → (came c es ≡ left c es + held_count c (held_of l')) × (goroutines l' ≡ n)
new_listener-conserves resolve_tcp_addr c n advertise a {l} made run =
    let same = new_listener-fresh resolve_tcp_addr n advertise a l made in
    let held : held_count c (held_of l) ≡ 0 = ap (λ l. held_count c (held_of l)) same in
    let started : goroutines l ≡ n = ap goroutines same ∙ omega arith in
    (omega (arith, run-held c run, held), sym (run-goroutines run) ∙ started)
