-- ===== src/Cluster/Endings.antt =====
-- When `Join` comes to an end: its loop over redirects has no bound of its own.
use casbin_mesh.Prelude.{
  ◌==◌, ℕ, zero, suc, ◌+◌, ◌*◌, ◌≤◌, ◌<◌, Str, str, false, ◌≡◌, ◌≢◌, refl, ◌⊎◌, inl, inr, ◌++◌,
  Option, none, some, List, [], ◌∷◌, arith, nat_eq, list_eq, eq_iff, has_prefix, if◌then◌else◌, All,
  Bool-cases, Option-cases, ap,
}
use casbin_mesh.Result.{Error, ok, err, Result-cases}
use casbin_mesh.Credentials.{AuthConfig}
use casbin_mesh.Cluster.Address.{normalize_addr, ensure_https, ensure_https-HasPrefix}
use casbin_mesh.Cluster.Join
use casbin_mesh.Cluster.Join.{
  HttpClient, HttpReply, JoinBody, Ending, returned, panicked, unfinished, after_reply, Next-cases,
  stop, go, join_loop, try_addresses, join_cluster, ended, failed, basic_auth,
}

-- The loop goes on after a redirect, or from HTTP to HTTPS.
after_reply_lem :
    (url next text : Str) (r : HttpReply)
    → after_reply url r text ≡ go next
    → ((r.status ≡ 301) × (next ≡ r.location))
      ⊎ ((has_prefix (str "https://") url ≡ false) × (next ≡ ensure_https url))
unfolding after_reply
after_reply_lem url next text r h =
    ground (arith, eq_iff r.status 200, eq_iff r.status 301, eq_iff r.status 400)

-- Only a response of 200 ends the loop well, and the address is the one that was asked.
after_reply-ok :
    (url j text : Str) (r : HttpReply)
    → after_reply url r text ≡ stop (ok j)
    → (r.status ≡ 200) × (j ≡ url)
unfolding after_reply
after_reply-ok url j text r h = (
  ground (arith, eq_iff r.status 200, eq_iff r.status 301, eq_iff r.status 400),
  ground (arith, eq_iff r.status 200, eq_iff r.status 301, eq_iff r.status 400),
)

module _ {W : Type 0} (c : HttpClient W) (body : JoinBody) (auth : Option (Str × Str)) where
  -- If `e` is a success at `j`, then `j` is the address that was asked, and it answered 200.
  abbrev pub IsAnswered : Str → W → W → Ending → Type 0
  IsAnswered url w w' e =
      (j : Str)
      → e ≡ returned (ok j)
      → (j ≡ url) × ((r : HttpReply) × (c.post url body auth w ≡ (w', ok r)) × (r.status ≡ 200))

  -- One round of the loop ends the call, or goes on at another address.
  pub join_loop-cases :
      (url : Str) (w : W)
      → ((w' : W) × (e : Ending) × (e ≢ unfinished)
          × IsAnswered url w w' e
          × ((fuel : ℕ) → join_loop c (suc fuel) body auth url w ≡ (w', e)))
        ⊎ ((w' : W) × (r : HttpReply) × (text next : Str) × (c.post url body auth w ≡ (w', ok r))
            × (after_reply url r text ≡ go next)
            × ((fuel : ℕ)
                → join_loop c (suc fuel) body auth url w ≡ join_loop c fuel body auth next w'))
  unfolding join_loop
  join_loop-cases url w =
      let w' = (c.post url body auth w).0 in
      elim (Option-cases (c.url_error url)) [
        | inr (e, bad) ↦
            inl (w, panicked, ground arith, λ j h. ground arith, λ fuel. ground (arith, bad))
        | inl good ↦ elim (Result-cases (c.post url body auth w).1) [
          | inr (e, lost) ↦ inl (
            w',
            returned (err e),
            ground arith,
            λ j h. ground arith,
            λ fuel. ground (arith, good, lost),
          )
          | inl (r, came) ↦ elim (Result-cases r.body) [
            | inr (e, cut) ↦ inl (
              w',
              returned (err e),
              ground arith,
              λ j h. ground arith,
              λ fuel. ground (arith, good, came, cut),
            )
            | inl (text, read) ↦ elim (Next-cases (after_reply url r text)) [
              | inl (result, ends) ↦ inl (
                w',
                returned result,
                ground arith,
                λ j h.
                    let sound = after_reply-ok url j text r (ground (arith, ends, h)) in
                    (sound.1, (r, ap (λ a. (w', a)) came, sound.0)),
                λ fuel. ground (arith, good, came, read, ends),
              )
              | inr (next, goes) ↦ inr (
                w',
                r,
                text,
                next,
                ap (λ a. (w', a)) came,
                goes,
                λ fuel. ground (arith, good, came, read, goes),
              )
            ]
          ]
        ]
      ]

  module _ (rank : Str → ℕ)
      (redirects : (url : Str) (w w' : W) (r : HttpReply)
        → c.post url body auth w ≡ (w', ok r)
        → r.status ≡ 301
        → rank r.location < rank url)
      (secures : (url : Str) → rank (ensure_https url) ≤ rank url) where
    -- How many rounds an address may still take.
    abbrev pub rounds : Str → ℕ
    rounds url = 2 * rank url + (if has_prefix (str "https://") url then 1 else 2)

    rounds-fall :
        (url next text : Str) (w w' : W) (r : HttpReply)
        → c.post url body auth w ≡ (w', ok r)
        → after_reply url r text ≡ go next
        → rounds next < rounds url
    rounds-fall url next text w w' r came goes = elim (after_reply_lem url next text r goes) [
      | inl (moved, same) ↦ ground (arith, same, redirects url w w' r came moved)
      | inr (plain, same) ↦ rw same (ground (arith, plain, ensure_https-HasPrefix url, secures url))
    ]

    pub join_loop-ends :
        (fuel : ℕ) (url : Str) (w : W)
        → rounds url ≤ fuel
        → (join_loop c fuel body auth url w).1 ≢ unfinished
    join_loop-ends zero url w enough = ground arith
    join_loop-ends (suc fuel) url w enough = elim (join_loop-cases url w) [
      | inl (w', e, over, answered, same) ↦ rw (same fuel) over
      | inr (w', r, text, next, came, goes, same) ↦ rw (same fuel) (
          join_loop-ends fuel next w'
            (omega (arith, enough, rounds-fall url next text w w' r came goes)))
    ]

loop-redirects :
    {W : Type 0} (c : HttpClient W) (body : JoinBody) (auth : Option (Str × Str)) (text : Str)
    (r : HttpReply) (move : W → W)
    → c.url_error r.location ≡ none
    → r.status ≡ 301
    → r.body ≡ ok text
    → r.location ≢ []
    → ((w : W) → c.post r.location body auth w ≡ (move w, ok r))
    → (fuel : ℕ) (w : W) → (join_loop c fuel body auth r.location w).1 ≡ unfinished
unfolding join_loop after_reply
loop-redirects c body auth text r move valid moved read there answers zero w = refl
loop-redirects c body auth text r move valid moved read there answers (suc fuel) w = ground (
  arith,
  valid,
  moved,
  read,
  there,
  answers w,
  eq_iff r.location [],
  loop-redirects c body auth text r move valid moved read there answers fuel (move w),
)

module _ {W : Type 0} (c : HttpClient W) (body : JoinBody) (auth : AuthConfig) (rank : Str → ℕ)
    (redirects : (url : Str) (w w' : W) (r : HttpReply)
      → c.post url body (basic_auth auth) w ≡ (w', ok r)
      → r.status ≡ 301
      → rank r.location < rank url)
    (secures : (url : Str) → rank (ensure_https url) ≤ rank url) where
  join-ends :
      (fuel : ℕ) (addr : Str) (w : W)
      → 2 * rank (normalize_addr (addr ++ str "/join")) + 2 ≤ fuel
      → (Join.join c fuel addr body auth w).1 ≢ unfinished
  unfolding Join.join
  join-ends fuel addr w enough = elim (Bool-cases (body.id == [])) [
    | inl blank ↦ ground (arith, blank)
    | inr set ↦ rw set (
        join_loop-ends c body (basic_auth auth) rank redirects secures fuel
          (normalize_addr (addr ++ str "/join")) w (ground (arith, enough)))
  ]

  abbrev pub EnoughFor : ℕ → List Str → Type 0
  EnoughFor fuel addrs = All (λ a. 2 * rank (normalize_addr (a ++ str "/join")) + 2 ≤ fuel) addrs

  try_addresses-ends :
      (fuel : ℕ) (addrs : List Str) (last : Option Error) (w : W)
      → EnoughFor fuel addrs
      → (try_addresses c fuel addrs body auth last w).1 ≢ ended unfinished
  unfolding try_addresses
  try_addresses-ends fuel [] last w enough = ground arith
  try_addresses-ends fuel (a ∷ addrs) last w (here, enough) =
      let w' = (Join.join c fuel a body auth w).0 in
      grind (
        arith,
        join-ends fuel a w here,
        λ (e : Error). try_addresses-ends fuel addrs (some e) w' enough,
      )

  -- Where every redirect leads to an address of a smaller rank, and HTTPS has no greater rank than
  -- HTTP, `Join` ends, for any number of attempts and of addresses: two more rounds than twice the
  -- rank of an address are enough for it.
  pub join_cluster-ends :
      (fuel attempts : ℕ) (addrs : List Str) (last : Option Error) (w : W)
      → EnoughFor fuel addrs
      → (join_cluster c fuel attempts addrs body auth last w).1 ≢ unfinished
  unfolding join_cluster
  join_cluster-ends fuel zero addrs last w enough = ground arith
  join_cluster-ends fuel (suc attempts) addrs last w enough =
      let w' = c.sleep (try_addresses c fuel addrs body auth last w).0 in
      grind (
        arith,
        try_addresses-ends fuel addrs last w enough,
        λ (e : Error). join_cluster-ends fuel attempts addrs (some e) w' enough,
      )

-- An address that redirects to itself keeps `Join` busy for ever: however many rounds its loop has
-- made, it has not returned, since nothing counts the redirects.
pub join-redirects :
    {W : Type 0} (c : HttpClient W) (body : JoinBody) (auth : AuthConfig) (addr text : Str)
    (r : HttpReply) (move : W → W)
    → body.id ≢ []
    → c.url_error r.location ≡ none
    → r.status ≡ 301
    → r.body ≡ ok text
    → r.location ≢ []
    → normalize_addr (addr ++ str "/join") ≡ r.location
    → ((w : W) → c.post r.location body (basic_auth auth) w ≡ (move w, ok r))
    → (fuel : ℕ) (w : W) → (Join.join c fuel addr body auth w).1 ≡ unfinished
unfolding Join.join
join-redirects c body auth addr text r move named valid moved read there here answers fuel w =
    ground (
      arith,
      named,
      here,
      eq_iff body.id [],
      loop-redirects c body (basic_auth auth) text r move valid moved read there answers fuel w,
    )
