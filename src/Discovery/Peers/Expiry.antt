-- ===== src/Discovery/Peers/Expiry.antt =====
-- How long a peer stays in the table.
use mathlib.Core.Path.{ap₂}
use ram_vram_sharing.Prelude.{
  ℕ, ◌-◌, ◌*◌, ◌/◌, ◌≤◌, ◌≡◌, refl, sym, ap, ◌∙◌, ◌≢◌, inl, inr, false, Option, none, some, List,
  [], ◌∷◌, arith, ltb, ◌==◌, if◌then◌else◌, Bool-cases, lookup, assign, lookup-assign, IsUnique,
  assign-IsUnique,
}
use ram_vram_sharing.Discovery.Peers.{
  active, stale, PeerInfo, PeerTable, update, elapsed, tick_peer, put_back, tick_peers, tick,
  get_peer,
}

-- What a tick leaves of a lookup.
abbrev pub after_tick : ℕ → ℕ → Option PeerInfo → Option PeerInfo
after_tick ttl now none = none
after_tick ttl now (some p) = tick_peer ttl now p

put_back-lookup :
    (k : ℕ) (o : Option PeerInfo) (m : List (ℕ × PeerInfo))
    → lookup k m ≡ none
    → lookup k (put_back k o m) ≡ o
put_back-lookup k none m e = e
put_back-lookup k (some p) m e = ground arith

put_back-lookup_ne :
    (j k : ℕ) (o : Option PeerInfo) (m : List (ℕ × PeerInfo))
    → (j == k) ≡ false
    → lookup k (put_back j o m) ≡ lookup k m
put_back-lookup_ne j k none m e = refl
put_back-lookup_ne j k (some p) m e = ground arith

put_back-IsUnique :
    (k : ℕ) (o : Option PeerInfo) (m : List (ℕ × PeerInfo))
    → lookup k m ≡ none
    → IsUnique m
    → IsUnique (put_back k o m)
put_back-IsUnique k none m e u = u
put_back-IsUnique k (some p) m e u = (e, u)

tick_peers-put_back :
    (ttl now k : ℕ) (o : Option PeerInfo) (m : List (ℕ × PeerInfo))
    → tick_peers ttl now (put_back k o m) ≡ put_back k (after_tick ttl now o) (tick_peers ttl now m)
unfolding tick_peers
tick_peers-put_back ttl now k none m = refl
tick_peers-put_back ttl now k (some p) m = refl

tick_peer-twice :
    (ttl now later : ℕ) (p : PeerInfo)
    → now ≤ later
    → after_tick ttl later (tick_peer ttl now p) ≡ tick_peer ttl later p
unfolding tick_peer
tick_peer-twice ttl now later p h = ground arith

tick_peers-twice :
    (ttl now later : ℕ) (m : List (ℕ × PeerInfo))
    → now ≤ later
    → tick_peers ttl later (tick_peers ttl now m) ≡ tick_peers ttl later m
unfolding tick_peers
tick_peers-twice ttl now later [] h = refl
tick_peers-twice ttl now later ((k, p) ∷ m) h =
    tick_peers-put_back ttl later k (tick_peer ttl now p) (tick_peers ttl now m)
    ∙ ap₂ (put_back k) (tick_peer-twice ttl now later p h) (tick_peers-twice ttl now later m h)

tick_peers-none :
    (ttl now k : ℕ) (m : List (ℕ × PeerInfo))
    → lookup k m ≡ none
    → lookup k (tick_peers ttl now m) ≡ none
unfolding tick_peers
tick_peers-none ttl now k [] e = refl
tick_peers-none ttl now k ((j, p) ∷ m) e = elim (Bool-cases (j == k)) [
  | inl q ↦ absurd (ground arith)
  | inr q ↦
      put_back-lookup_ne j k (tick_peer ttl now p) (tick_peers ttl now m) q
      ∙ tick_peers-none ttl now k m (ground arith)
]

tick_peers-lookup :
    (ttl now k : ℕ) (m : List (ℕ × PeerInfo))
    → IsUnique m
    → lookup k (tick_peers ttl now m) ≡ after_tick ttl now (lookup k m)
unfolding tick_peers
tick_peers-lookup ttl now k [] u = refl
tick_peers-lookup ttl now k ((j, p) ∷ m) u = elim (Bool-cases (j == k)) [
  | inl q ↦
      let same : j ≡ k = ground arith in
      let here : some p ≡ lookup k ((j, p) ∷ m) = ground arith in
      ap (λ x. lookup k (put_back x (tick_peer ttl now p) (tick_peers ttl now m))) same
      ∙ put_back-lookup k (tick_peer ttl now p) (tick_peers ttl now m)
          (tick_peers-none ttl now k m (ap (λ x. lookup x m) (sym same) ∙ u.0))
      ∙ ap (after_tick ttl now) here
  | inr q ↦
      let here : lookup k m ≡ lookup k ((j, p) ∷ m) = ground arith in
      put_back-lookup_ne j k (tick_peer ttl now p) (tick_peers ttl now m) q
      ∙ tick_peers-lookup ttl now k m u.1
      ∙ ap (after_tick ttl now) here
]

tick_peers-IsUnique :
    (ttl now : ℕ) (m : List (ℕ × PeerInfo)) → IsUnique m → IsUnique (tick_peers ttl now m)
unfolding tick_peers
tick_peers-IsUnique ttl now [] u = tt
tick_peers-IsUnique ttl now ((j, p) ∷ m) u =
    put_back-IsUnique j (tick_peer ttl now p) (tick_peers ttl now m)
      (tick_peers-none ttl now j m u.0) (tick_peers-IsUnique ttl now m u.1)

ticked :
    (ttl now : ℕ) (p : PeerInfo)
    → tick_peer ttl now p ≡ (
        if ltb (ttl * 3) (elapsed now p)
        then none
        else some (record p { state = if ltb ttl (elapsed now p) then stale else active }))
unfolding tick_peer
ticked ttl now p = ground arith

-- A peer that was announced at `seen` and not again is found at a tick at `now` as its announcement
-- says, active for up to `ttl` seconds and stale for up to three times as long, and is not found
-- after that. Other peers are found as without the announcement. No id is in the table twice.
pub announced_tick :
    (info : PeerInfo) (seen now k : ℕ) (t : PeerTable)
    → IsUnique t.peers
    → k ≢ info.id
    → let t' = tick now (update info seen t) in
      let s = (now - seen) / 1000000000 in
      IsUnique t'.peers
      × (get_peer info.id t' ≡ (
          if ltb (t.ttl_seconds * 3) s
          then none
          else some (record info {
            last_seen = seen;
            state = if ltb t.ttl_seconds s then stale else active;
          })))
      × (get_peer k t' ≡ get_peer k (tick now t))
unfolding tick update get_peer
announced_tick info seen now k t u d =
    let p : PeerInfo = record info { last_seen = seen; state = active } in
    let m = assign info.id p t.peers in
    let um : IsUnique m = assign-IsUnique info.id p t.peers u in
    let found : lookup info.id m ≡ some p =
      ground (arith, lookup-assign info.id info.id p t.peers) in
    let other : lookup k m ≡ lookup k t.peers = ground (arith, lookup-assign info.id k p t.peers) in
    (
      tick_peers-IsUnique t.ttl_seconds now m um,
      tick_peers-lookup t.ttl_seconds now info.id m um
          ∙ ap (after_tick t.ttl_seconds now) found
          ∙ ticked t.ttl_seconds now p,
      tick_peers-lookup t.ttl_seconds now k m um
          ∙ ap (after_tick t.ttl_seconds now) other
          ∙ sym (tick_peers-lookup t.ttl_seconds now k t.peers u),
    )

-- Only the last tick counts: a tick that was made earlier changes nothing of what a later one leaves.
pub tick-tick :
    (now later : ℕ) (t : PeerTable) → now ≤ later → tick later (tick now t) ≡ tick later t
unfolding tick
tick-tick now later t h =
    ap (λ m. record t { peers = m }) (tick_peers-twice t.ttl_seconds now later t.peers h)
