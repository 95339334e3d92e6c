-- ===== src/Client/Peers/Upkeep.antt =====
-- ensure_peer: one entry for each address and port, and entries that stay where they are.
use mathlib.Core.Path.{ap₂, subst}
use mathlib.Core.Option.{none-ne-some, some-injective}
use ram_vram_sharing.Prelude.{
  ℕ, zero, suc, ◌+◌, ◌≡◌, refl, sym, ap, ◌∙◌, inl, inr, Bool, true, false, ◌&&◌, none, some, List,
  [], ◌∷◌, ◌++◌, arith, ◌==◌, Bool-cases, Option-cases, length,
}
use ram_vram_sharing.Client.Peers.{
  RemotePeer, same_text, find_peer, new_peer, ensure_peer, get_peer,
}

same_text_self : (xs : List ℕ) → same_text xs xs ≡ true
same_text_self [] = refl
same_text_self (x ∷ xs) = ground (arith, same_text_self xs)

same_text_lem : (xs ys : List ℕ) → same_text xs ys ≡ true → xs ≡ ys
same_text_lem [] [] e = refl
same_text_lem [] (y ∷ ys) e = absurd (ground arith)
same_text_lem (x ∷ xs) [] e = absurd (ground arith)
same_text_lem (x ∷ xs) (y ∷ ys) e =
    ap₂ ◌∷◌ (ground (arith, e)) (same_text_lem xs ys (ground (arith, e)))

-- The peer at an index has the address and the port.
abbrev pub Listed : List ℕ → ℕ → ℕ → List RemotePeer → Type 0
Listed ip port j ps = (p : RemotePeer) × (get_peer j ps ≡ some p) × (p.ip ≡ ip) × (p.port ≡ port)

find_peer_lem :
    (ip : List ℕ) (port i : ℕ) (ps : List RemotePeer) (k : ℕ)
    → find_peer ip port i ps ≡ some k
    → (j : ℕ) × (k ≡ i + j) × Listed ip port j ps
unfolding find_peer get_peer
find_peer_lem ip port i [] k e = absurd (none-ne-some k e)
find_peer_lem ip port i (p ∷ ps) k e = elim (Bool-cases (same_text p.ip ip && p.port == port)) [
  | inl here ↦ (
    0,
    omega (arith, some-injective i k (ground (arith, e))),
    (p, refl, same_text_lem p.ip ip (ground (arith, here)), ground (arith, here)),
  )
  | inr apart ↦
      let (j, at, found) = find_peer_lem ip port (i + 1) ps k (ground (arith, e)) in
      (suc j, omega (arith, at), found)
]

find_peer-append :
    (ip : List ℕ) (port i : ℕ) (ps : List RemotePeer)
    → find_peer ip port i ps ≡ none
    → find_peer ip port i (ps ++ new_peer ip port ∷ []) ≡ some (i + length ps)
unfolding find_peer
find_peer-append ip port i [] e =
    let same : same_text ip ip && port == port ≡ true = ground (arith, same_text_self ip) in
    rw same (ap some (omega arith))
find_peer-append ip port i (p ∷ ps) e = elim (Bool-cases (same_text p.ip ip && p.port == port)) [
  | inl here ↦
      let hit : find_peer ip port i (p ∷ ps) ≡ some i = rw here refl in
      absurd (none-ne-some i (sym e ∙ hit))
  | inr apart ↦
      rw apart (find_peer-append ip port (i + 1) ps (ground (arith, e)) ∙ ap some (omega arith))
]

get_peer-append :
    (j : ℕ) (ps qs : List RemotePeer) (p : RemotePeer)
    → get_peer j ps ≡ some p
    → get_peer j (ps ++ qs) ≡ some p
unfolding get_peer
get_peer-append j [] qs p e = absurd (none-ne-some p e)
get_peer-append zero (q ∷ ps) qs p e = e
get_peer-append (suc j) (q ∷ ps) qs p e = get_peer-append j ps qs p e

get_peer-length :
    (ps : List RemotePeer) (p : RemotePeer) → get_peer (length ps) (ps ++ p ∷ []) ≡ some p
unfolding get_peer
get_peer-length [] p = refl
get_peer-length (q ∷ ps) p = get_peer-length ps p

ensure_found :
    (ip : List ℕ) (port i : ℕ) (ps : List RemotePeer)
    → find_peer ip port 0 ps ≡ some i
    → ensure_peer ip port ps ≡ (ps, i, false)
unfolding ensure_peer
ensure_found ip port i ps e = rw (e, ensure_peer) refl

ensure_absent :
    (ip : List ℕ) (port : ℕ) (ps : List RemotePeer)
    → find_peer ip port 0 ps ≡ none
    → ensure_peer ip port ps ≡ (ps ++ new_peer ip port ∷ [], length ps, true)
unfolding ensure_peer
ensure_absent ip port ps e = rw (e, ensure_peer) refl

-- What a call leaves of the peer `q` at `k`, and gives for the address and the port.
abbrev Ensured : List ℕ → ℕ → ℕ → RemotePeer → List RemotePeer × ℕ × Bool → Type 0
Ensured ip port k q (ps', i, created) =
    Listed ip port i ps' × (get_peer k ps' ≡ some q) × (ensure_peer ip port ps' ≡ (ps', i, false))

-- `ensure_peer` returns the index of a peer with the address and the port. A peer that was in the list
-- keeps its index and its fields, and a second call for the same address and port finds the same
-- index and adds nothing.
ensure_peer_lem :
    (ip : List ℕ) (port k : ℕ) (q : RemotePeer) (ps : List RemotePeer)
    → get_peer k ps ≡ some q
    → let (ps', i, created) = ensure_peer ip port ps in
      Listed ip port i ps' × (get_peer k ps' ≡ some q) × (ensure_peer ip port ps' ≡ (ps', i, false))
ensure_peer_lem ip port k q ps old = elim (Option-cases (find_peer ip port 0 ps)) [
  | inr (i, found) ↦
      let (j, at, listed) = find_peer_lem ip port 0 ps i found in
      let ended = ensure_found ip port i ps found in
      subst (Ensured ip port k q) (sym ended)
        (subst (λ n. Listed ip port n ps) (omega (arith, at)) listed, old, ended)
  | inl absent ↦
      let ps' = ps ++ new_peer ip port ∷ [] in
      let again = find_peer-append ip port 0 ps absent ∙ ap some (omega arith) in
      subst (Ensured ip port k q) (sym (ensure_absent ip port ps absent)) (
        (new_peer ip port, get_peer-length ps (new_peer ip port), refl, refl),
        get_peer-append k ps (new_peer ip port ∷ []) q old,
        ensure_found ip port (length ps) ps' again,
      )
]
