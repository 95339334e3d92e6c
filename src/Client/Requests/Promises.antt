-- ===== src/Client/Requests/Promises.antt =====
-- Each promise is set once.
use mathlib.Core.Option.{none-ne-some, some-injective}
use ram_vram_sharing.Prelude.{
  ℕ, zero, suc, ◌+◌, ◌-◌, ◌≡◌, refl, ap, ◌∙◌, inl, inr, false, Option, some, List, [], ◌∷◌, ◌++◌,
  arith, ltb, leb, ◌==◌, if◌then◌else◌, Bool-cases, Option-cases, length, take, drop, count, lookup,
  erase,
}
use ram_vram_sharing.Memory.Protocol.{max_message_size}
use ram_vram_sharing.Client.Requests.{
  Answers, resolve, dropped, fail_pending_requests, on_drop, take_frame, read_loop, on_data,
}

abbrev pub waits : List (ℕ × ℕ) → List ℕ
waits [] = []
waits ((id, ctx) ∷ m) = ctx ∷ waits m

abbrev pub answered : List (ℕ × List ℕ) → List ℕ
answered [] = []
answered ((ctx, bytes) ∷ r) = ctx ∷ answered r

-- How often a context waits, and how often its promise was set, together.
abbrev pub owed : ℕ → Answers → ℕ
owed ctx s = count ctx (waits s.pending_requests) + count ctx (answered s.resolved)

count-erase :
    (id ctx k : ℕ) (m : List (ℕ × ℕ))
    → lookup id m ≡ some ctx
    → count k (waits m) ≡ (if ctx == k then 1 else 0) + count k (waits (erase id m))
count-erase id ctx k [] e = absurd (none-ne-some ctx e)
count-erase id ctx k ((j, c) ∷ m) e = elim (Bool-cases (j == id)) [
  | inl here ↦
      let same : c ≡ ctx = some-injective c ctx (ground (arith, e)) in
      rw here (ap (λ x. (if x == k then 1 else 0) + count k (waits m)) same)
  | inr apart ↦ rw apart (omega (arith, count-erase id ctx k m (ground (arith, e))))
]

resolve-owed :
    (id : ℕ) (frame : List ℕ) (k : ℕ) (s : Answers) → owed k (resolve id frame s) ≡ owed k s
unfolding resolve
resolve-owed id frame k s = elim (Option-cases (lookup id s.pending_requests)) [
  | inl unknown ↦ rw (unknown, resolve) refl
  | inr (ctx, e) ↦ rw (e, resolve) (omega (arith, count-erase id ctx k s.pending_requests e))
]

answered-dropped :
    (k : ℕ) (m : List (ℕ × ℕ)) (r : List (ℕ × List ℕ))
    → count k (answered (dropped m ++ r)) ≡ count k (waits m) + count k (answered r)
unfolding dropped
answered-dropped k [] r = omega arith
answered-dropped k ((id, ctx) ∷ m) r = omega (arith, answered-dropped k m r)

module _ (prefix_of : List ℕ → ℕ) (verified_id : List ℕ → Option ℕ) where
  read_loop-owed : (f k : ℕ) (s : Answers) → owed k (read_loop prefix_of verified_id f s) ≡ owed k s
  unfolding read_loop take_frame
  read_loop-owed zero k s = refl
  read_loop-owed (suc f) k s =
      let size = prefix_of s.read_buffer in
      let n = size + 4 in
      elim (Bool-cases (ltb (length s.read_buffer) 4)) [
        | inl short ↦ rw short refl
        | inr long ↦ elim (Bool-cases (ltb max_message_size size)) [
          | inl huge ↦ rw (long, huge) refl
          | inr fair ↦ elim (Bool-cases (leb size (length s.read_buffer - 4))) [
            | inr partial ↦ rw (long, fair, partial) refl
            | inl whole ↦ elim (Option-cases (verified_id (take n s.read_buffer))) [
              | inl refused ↦ rw (long, fair, whole, refused) refl
              | inr (id, accepted) ↦
                  let s1 = record (resolve id (take n s.read_buffer) s) {
                    read_buffer = drop n s.read_buffer;
                  } in
                  rw (long, fair, whole, accepted)
                    (read_loop-owed f k s1 ∙ resolve-owed id (take n s.read_buffer) k s)
            ]
          ]
        ]
      ]

  -- Whatever bytes arrive, a context that waits keeps waiting or has its promise set, once, and no
  -- other promise is set: for each context the number of its entries in the map and of its set
  -- promises together stays the same.
  on_data-owed :
      (chunk : List ℕ) (k : ℕ) (s : Answers)
      → owed k (on_data prefix_of verified_id chunk s) ≡ owed k s
  unfolding on_data
  on_data-owed chunk k s =
      let s' = record s { read_buffer = s.read_buffer ++ chunk } in
      read_loop-owed (length s'.read_buffer) k s'

-- When the peer is gone no request waits any more: each context that waited has its promise set, once,
-- no other promise is set, and the peer no longer counts as connected.
on_drop_lem :
    (s : Answers)
    → ((on_drop s).pending_requests ≡ [])
      × ((on_drop s).connected ≡ false)
      × ((k : ℕ) → count k (answered (on_drop s).resolved) ≡ owed k s)
unfolding on_drop fail_pending_requests
on_drop_lem s = elim (Bool-cases (s.closes == 0)) [
  | inl still_open ↦
      rw (still_open, on_drop) (refl, refl, λ k. answered-dropped k s.pending_requests s.resolved)
  | inr closing ↦
      rw (closing, on_drop) (refl, refl, λ k. answered-dropped k s.pending_requests s.resolved)
]

-- Every promise is set at most once, and none is forgotten: whatever bytes arrive, for each context
-- the number of its entries in the map and of its set promises together stays the same; and when the
-- peer is gone no request waits any more, each context that waited has had its promise set as often
-- as both together, and the peer no longer counts as connected.
pub promises_lem :
    (prefix_of : List ℕ → ℕ) (verified_id : List ℕ → Option ℕ) (chunk : List ℕ) (k : ℕ)
    (s : Answers)
    → (owed k (on_data prefix_of verified_id chunk s) ≡ owed k s)
      × ((on_drop s).pending_requests ≡ [])
      × ((on_drop s).connected ≡ false)
      × (count k (answered (on_drop s).resolved) ≡ owed k s)
promises_lem prefix_of verified_id chunk k s =
    let d = on_drop_lem s in (on_data-owed prefix_of verified_id chunk k s, d.0, d.1, d.2 k)
