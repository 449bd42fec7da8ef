-- ===== src/Cluster/Outcome.antt =====
-- What `Join` returns, and what it has sent by then.
use casbin_mesh.Prelude.{
  ℕ, zero, suc, Str, str, ◌≡◌, ◌≢◌, inl, inr, ◌++◌, Option, some, List, [], ◌∷◌, arith, nat_eq,
  list_eq, All, Bool-cases, sym, ◌∙◌, ◌==◌,
}
use casbin_mesh.Result.{Error, ok, err, join_failed}
use casbin_mesh.Credentials.{AuthConfig}
use casbin_mesh.Cluster.Address.{normalize_addr}
use casbin_mesh.Cluster.Endings.{join_loop-cases}
use casbin_mesh.Cluster.Join
use casbin_mesh.Cluster.Join.{
  HttpClient, HttpReply, JoinBody, Ending, returned, panicked, unfinished, after_reply, stop, go,
  join_loop, try_addresses, join_cluster, ended, failed, Round, Round-cases, Ending-cases,
  basic_auth, Next-cases,
}

module _ {W : Type 0} (c : HttpClient W) (body : JoinBody) (auth : Option (Str × Str)) where
  -- In the state `w` the address has just answered 200 to the request.
  abbrev pub Answered : Str → W → Type 0
  Answered url w =
      (before : W) × (r : HttpReply) × (c.post url body auth before ≡ (w, ok r)) × (r.status ≡ 200)

  join_loop-Answered :
      (fuel : ℕ) (url j : Str) (w w' : W)
      → join_loop c fuel body auth url w ≡ (w', returned (ok j))
      → Answered j w'
  unfolding join_loop
  join_loop-Answered zero url j w w' h = ground arith
  join_loop-Answered (suc fuel) url j w w' h = elim (join_loop-cases c body auth url w) [
    | inl (v, e, over, answered, same) ↦
        let (there, (r, sent, fine)) = answered j (ground (arith, same fuel, h)) in
        (w, r, ground (arith, there, sent, same fuel, h), fine)
    | inr (v, r, text, next, sent, goes, same) ↦
        join_loop-Answered fuel next j v w' (sym (same fuel) ∙ h)
  ]

module _ {W : Type 0} (c : HttpClient W) (body : JoinBody) (auth : AuthConfig) where
  join-Answered :
      (fuel : ℕ) (addr j : Str) (w w' : W)
      → Join.join c fuel addr body auth w ≡ (w', returned (ok j))
      → Answered c body (basic_auth auth) j w'
  unfolding Join.join
  join-Answered fuel addr j w w' h = elim (Bool-cases (body.id == [])) [
    | inl blank ↦ ground (arith, blank, h)
    | inr named ↦
        join_loop-Answered c body (basic_auth auth) fuel (normalize_addr (addr ++ str "/join")) j w
          w' (ground (arith, named, h))
  ]

  try_addresses-Answered :
      (fuel : ℕ) (addrs : List Str) (last : Option Error) (j : Str) (w w' : W)
      → try_addresses c fuel addrs body auth last w ≡ (w', ended (returned (ok j)))
      → Answered c body (basic_auth auth) j w'
  unfolding try_addresses
  try_addresses-Answered fuel [] last j w w' h = ground arith
  try_addresses-Answered fuel (a ∷ addrs) last j w w' h =
      let v = (Join.join c fuel a body auth w).0 in
      elim (Ending-cases (Join.join c fuel a body auth w).1) [
        | inl (k, good) ↦ join-Answered fuel a j w w' (ground (arith, good, h))
        | inr (inl (x, bad)) ↦
            try_addresses-Answered fuel addrs (some x) j v w' (ground (arith, bad, h))
        | inr (inr (inl over)) ↦ ground (arith, over, h)
        | inr (inr (inr over)) ↦ ground (arith, over, h)
      ]

  try_addresses-goes_on :
      (fuel : ℕ) (addrs : List Str) (last : Option Error) (e : Error) (w : W)
      → (try_addresses c fuel addrs body auth last w).1 ≢ ended (returned (err e))
  unfolding try_addresses
  try_addresses-goes_on fuel [] last e w = ground arith
  try_addresses-goes_on fuel (a ∷ addrs) last e w = grind (
    arith,
    λ (x : Error). try_addresses-goes_on fuel addrs (some x) e (Join.join c fuel a body auth w).0,
  )

  -- If `Join` succeeds, then the address that it returns has answered 200 to the node's request, and
  -- nothing was sent after that.
  pub join_cluster-Answered :
      (fuel attempts : ℕ) (addrs : List Str) (last : Option Error) (j : Str) (w w' : W)
      → join_cluster c fuel attempts addrs body auth last w ≡ (w', returned (ok j))
      → Answered c body (basic_auth auth) j w'
  unfolding join_cluster
  join_cluster-Answered fuel zero addrs last j w w' h = ground arith
  join_cluster-Answered fuel (suc attempts) addrs last j w w' h =
      let v = (try_addresses c fuel addrs body auth last w).0 in
      elim (Round-cases (try_addresses c fuel addrs body auth last w).1) [
        | inl (e, over) ↦ try_addresses-Answered fuel addrs last j w w' (ground (arith, over, h))
        | inr (inl none_tried) ↦ ground (arith, none_tried, h)
        | inr (inr (x, bad)) ↦
            join_cluster-Answered fuel attempts addrs (some x) j (c.sleep v) w'
              (ground (arith, bad, h))
      ]

  -- Whatever went wrong at the addresses, the only error that `Join` returns is `ErrJoinFailed`.
  pub join_cluster-error :
      (fuel attempts : ℕ) (addrs : List Str) (last : Option Error) (e : Error) (w : W)
      → (join_cluster c fuel attempts addrs body auth last w).1 ≡ returned (err e)
      → e ≡ join_failed
  unfolding join_cluster
  join_cluster-error fuel zero addrs last e w h = ground (arith, h)
  join_cluster-error fuel (suc attempts) addrs last e w h =
      let v = (try_addresses c fuel addrs body auth last w).0 in
      elim (Round-cases (try_addresses c fuel addrs body auth last w).1) [
        | inl (x, over) ↦ ground (arith, over, h, try_addresses-goes_on fuel addrs last e w)
        | inr (inl none_tried) ↦ ground (arith, none_tried, h)
        | inr (inr (x, bad)) ↦
            join_cluster-error fuel attempts addrs (some x) e (c.sleep v) (ground (arith, bad, h))
      ]

  abbrev pub Fails : ℕ → Str → Type 0
  Fails fuel a = (w : W) → (e : Error) × ((Join.join c fuel a body auth w).1 ≡ returned (err e))

  try_addresses-reaches :
      (fuel : ℕ) (before after : List Str) (a j : Str) (last : Option Error) (w : W)
      → All (λ b. Fails fuel b) before
      → ((v : W) → (Join.join c fuel a body auth v).1 ≡ returned (ok j))
      → (try_addresses c fuel (before ++ a ∷ after) body auth last w).1 ≡ ended (returned (ok j))
  unfolding try_addresses
  try_addresses-reaches fuel [] after a j last w down up = ground (arith, up w)
  try_addresses-reaches fuel (b ∷ before) after a j last w (here, down) up =
      let (e, bad) = here w in
      ground (
        arith,
        bad,
        try_addresses-reaches fuel before after a j (some e) (Join.join c fuel b body auth w).0 down
            up,
      )

  -- With one attempt at least, `Join` finds the first address that takes the node: if the addresses
  -- before it fail with an error and this one succeeds, whenever they are asked, then it returns what
  -- this one gave, whatever follows it in the list.
  pub join_cluster-reaches :
      (fuel attempts : ℕ) (before after : List Str) (a j : Str) (last : Option Error) (w : W)
      → All (λ b. Fails fuel b) before
      → ((v : W) → (Join.join c fuel a body auth v).1 ≡ returned (ok j))
      → (join_cluster c fuel (suc attempts) (before ++ a ∷ after) body auth last w).1
        ≡ returned (ok j)
  unfolding join_cluster
  join_cluster-reaches fuel attempts before after a j last w down up =
      ground (arith, try_addresses-reaches fuel before after a j last w down up)
