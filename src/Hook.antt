-- ===== src/Hook.antt =====
-- hook/meminfo_hook.cpp: the allocator that is put between a program and its C runtime. Allocations
-- from a threshold on are served from an arena over remote memory; the others go to the runtime. The
-- runtime is the parameter Crt, and `build` makes the client and the remote heap.
pub mod Blocks
pub mod Slots
pub mod Free
pub mod Calls
pub mod Realloc
mod Tests
pub mod Redirect
use ram_vram_sharing.Prelude.{
  ℕ, ◌+◌, ◌-◌, ◌*◌, ◌/◌, ◌%◌, min, Bool, true, false, not, ◌&&◌, ◌||◌, Option, none, some, List, [],
  ◌∷◌, ltb, ◌==◌, if◌then◌else◌, u64_mod, size_max, count,
}
use mathlib.Core.Option
use ram_vram_sharing.Memory.Raw.{Bytes, fill, copy_in, shift}
use ram_vram_sharing.Client.Arena.{Arena}
use ram_vram_sharing.Client.Arena

pub record Config : Type 0 where
  pub remote_mode : Bool
  pub threshold : ℕ
  pub heap_size : ℕ
  pub budget : ℕ
  pub page_bytes : ℕ
  pub max_local : ℕ

-- The variables of the environment that hold sizes, and the one that holds the mode.
pub data Variable : Type 0 where
  mode heap_size budget page max_local threshold : Variable

-- `strtoull` yields `none` where it reads no digit.
unfoldable pub env_size : (List ℕ → Option ℕ) → List ℕ → ℕ → ℕ
env_size strtoull [] fallback = fallback
env_size strtoull (c ∷ cs) fallback = elim (strtoull (c ∷ cs)) [
  | none ↦ fallback
  | some value ↦ if value == 0 then fallback else value
]

-- `env` is env_string with the empty text as its fallback; `is_remote` compares with "remote".
unfoldable pub load_config : (List ℕ → Option ℕ) → (List ℕ → Bool) → (Variable → List ℕ) → Config
unfolding env_size
load_config strtoull is_remote env =
    let page = env_size strtoull (env Variable.page) 65536 in
    let floor = page * 8 % u64_mod in
    let asked = env_size strtoull (env Variable.threshold) 1048576 in
    record {
      remote_mode = is_remote (env Variable.mode);
      threshold = if ltb asked floor then floor else asked;
      heap_size = env_size strtoull (env Variable.heap_size) 4294967296;
      budget = env_size strtoull (env Variable.budget) 536870912;
      page_bytes = page;
      max_local = env_size strtoull (env Variable.max_local) 1048576;
    }

-- What the process holds: the state of its C runtime and of the system, and its memory.
pub record Process (W : Type 0) : Type 0 where
  pub crt : W
  pub memory : Bytes

-- One CrtSlot; `none` is the null pointer. `real_msize` may be missing.
pub record Crt (W : Type 0) : Type 0 where
  pub real_malloc : ℕ → Process W → Process W × Option ℕ
  pub real_calloc : ℕ → ℕ → Process W → Process W × Option ℕ
  pub real_realloc : Option ℕ → ℕ → Process W → Process W × Option ℕ
  pub real_free : Option ℕ → Process W → Process W
  pub real_msize : Option (Option ℕ → Process W → ℕ)

-- The globals of the hook. `arena` is g_state.arena, `depth` is g_depth of the calling thread.
pub record Hook (W : Type 0) : Type 0 where
  pub process : Process W
  pub arena : Option Arena
  pub ready : Bool
  pub failed : Bool
  pub depth : ℕ
  pub redirected : ℕ
  pub redirected_bytes : ℕ
  pub passed_through : ℕ
  pub large_seen : ℕ
  pub large_bytes : ℕ

-- std::atomic<uint64_t>::fetch_add
abbrev pub plus : ℕ → ℕ → ℕ
plus a b = (a + b) % u64_mod

module _ {W : Type 0} where
  -- The constructor and the destructor of Reentry.
  abbrev pub enter : Hook W → Hook W
  enter h = record h { depth = h.depth + 1 }

  abbrev pub leave : Hook W → Hook W
  leave h = record h { depth = h.depth - 1 }

  abbrev pub note_large : ℕ → Hook W → Hook W
  note_large bytes h = record h {
    large_seen = plus h.large_seen 1;
    large_bytes = plus h.large_bytes bytes;
  }

  unfoldable pub arena_owns : ℕ → Hook W → Bool
  arena_owns p h = elim h.arena [ none ↦ false | some a ↦ h.ready && Arena.owns p a ]

  -- arena->block_size and arena->deallocate; the pointer is owned when they are called.
  unfoldable pub size_of : ℕ → Hook W → ℕ
  unfolding Arena.block_size
  size_of p h = elim h.arena [ none ↦ 0 | some a ↦ Arena.block_size p a ]

  unfoldable pub give_back : ℕ → Hook W → Hook W
  unfolding Arena.deallocate
  give_back p h = elim h.arena [
    | none ↦ h
    | some a ↦ record h { arena = some (Arena.deallocate p a) }
  ]

  abbrev pub with_memory : Bytes → Hook W → Hook W
  with_memory m h = record h { process = record h.process { memory = m } }

  -- memcpy(dst, src, n) and memset(dst, 0, n)
  abbrev pub memcpy : ℕ → ℕ → ℕ → Hook W → Hook W
  memcpy dst src n h = with_memory (copy_in h.process.memory dst (shift h.process.memory src) n) h

  abbrev pub clear : ℕ → ℕ → Hook W → Hook W
  clear dst n h = with_memory (fill h.process.memory dst 0 n) h

  -- A call of the runtime, inside the hook.
  abbrev pub call : (Process W → Process W × Option ℕ) → Hook W → Hook W × Option ℕ
  call f h = let (s, p) = f h.process in (record h { process = s }, p)

  -- The client, the remote heap and the arena are made once; `build` yields the region of the heap,
  -- or `none` when an exception was thrown.
  unfoldable pub ensure_initialized :
      (Process W → Process W × Option (ℕ × ℕ)) → Hook W → Hook W × Bool
  unfolding Arena.create
  ensure_initialized build h =
      let (s, region) = build h.process in
      let made : Hook W × Bool = elim region [
        | none ↦ (record h { process = s; failed = true; arena = none }, false)
        | some (base, size) ↦
            (record h { process = s; arena = some (Arena.create base size); ready = true }, true)
      ] in
      if h.ready then (h, true) else if h.failed then (h, false) else made

  -- What remote_allocate does once there is an arena.
  unfoldable pub allocate_in : ℕ → ℕ → Hook W → Hook W × Option ℕ
  unfolding Arena.allocate
  allocate_in bytes alignment h = elim h.arena [
    | none ↦ (h, none)
    | some a ↦
        let (a', p) = Arena.allocate bytes alignment a in
        elim p [
          | none ↦ (record h { arena = some a' }, none)
          | some q ↦ (
            record h {
              arena = some a';
              redirected = plus h.redirected 1;
              redirected_bytes = plus h.redirected_bytes bytes;
            },
            some q,
          )
        ]
  ]

module _ {W : Type 0} (config : Config) (build : Process W → Process W × Option (ℕ × ℕ)) where
  unfoldable pub remote_allocate : ℕ → ℕ → Hook W → Hook W × Option ℕ
  remote_allocate bytes alignment h =
      let (h', started) = ensure_initialized build h in
      if not config.remote_mode
      then (h, none)
      else if not started
      then (h', none)
      else allocate_in bytes alignment h'

module _ {W : Type 0} (crt : Crt W) where
  unfoldable pub hooked_free : Option ℕ → Hook W → Hook W
  hooked_free none h = record h { process = crt.real_free none h.process }
  hooked_free (some p) h =
      if arena_owns p h
      then leave (give_back p (enter h))
      else record h { process = crt.real_free (some p) h.process }

  -- `none` where the runtime has no such function, and the slot is not hooked.
  unfoldable pub hooked_msize : Option ℕ → Hook W → Option ℕ
  hooked_msize p h =
      let real = Option.map (λ (f : Option ℕ → Process W → ℕ). f p h.process) crt.real_msize in
      elim p [ none ↦ real | some q ↦ if arena_owns q h then some (size_of q h) else real ]

module _ {W : Type 0} (config : Config) (crt : Crt W) (servicing_fault : Bool)
    (build : Process W → Process W × Option (ℕ × ℕ)) where
  abbrev pub should_pass_through : Hook W → Bool
  should_pass_through h = ltb 0 h.depth || servicing_fault

  unfoldable pub hooked_malloc : ℕ → Hook W → Hook W × Option ℕ
  hooked_malloc bytes h =
      let (h1, p) = remote_allocate config build bytes 16 (note_large bytes (enter h)) in
      let served : Hook W × Option ℕ = elim p [
        | some q ↦ (leave h1, some q)
        | none ↦ let (h2, r) = call (crt.real_malloc bytes) h1 in (leave h2, r)
      ] in
      if ltb bytes config.threshold || should_pass_through h
      then call (crt.real_malloc bytes) (record h { passed_through = plus h.passed_through 1 })
      else served

  unfoldable pub hooked_calloc : ℕ → ℕ → Hook W → Hook W × Option ℕ
  hooked_calloc count size h =
      let bytes = count * size % u64_mod in
      let (h1, p) = remote_allocate config build bytes 16 (note_large bytes (enter h)) in
      let served : Hook W × Option ℕ = elim p [
        | some q ↦ (leave (clear q bytes h1), some q)
        | none ↦ let (h2, r) = call (crt.real_calloc count size) h1 in (leave h2, r)
      ] in
      if not (count == 0) && ltb (size_max / count) size
      then (h, none)
      else if ltb bytes config.threshold || should_pass_through h
      then call (crt.real_calloc count size) h
      else served

  -- The branch of hooked_realloc for a block of the arena.
  unfoldable pub move_owned : ℕ → ℕ → Hook W → Hook W × Option ℕ
  move_owned p bytes h =
      let old_bytes = size_of p h in
      let (h1, d) = remote_allocate config build bytes 16 (enter h) in
      let (h2, dst) : Hook W × Option ℕ = elim d [
        | some q ↦ (h1, some q)
        | none ↦ call (crt.real_malloc bytes) h1
      ] in
      elim dst [
        | none ↦ (leave h2, none)
        | some q ↦ (leave (give_back p (memcpy q p (min old_bytes bytes) h2)), some q)
      ]

  -- The last part of hooked_realloc, for a block of the runtime that grows past the threshold.
  unfoldable pub move_foreign : (Option ℕ → Process W → ℕ) → ℕ → ℕ → Hook W → Hook W × Option ℕ
  move_foreign msize p bytes h =
      let old_bytes = msize (some p) h.process in
      let (h1, d) = remote_allocate config build bytes 16 (note_large bytes (enter h)) in
      elim d [
        | none ↦ let (h2, r) = call (crt.real_realloc (some p) bytes) h1 in (leave h2, r)
        | some q ↦
            let h2 = memcpy q p (min old_bytes bytes) h1 in
            (leave (record h2 { process = crt.real_free (some p) h2.process }), some q)
      ]

  unfoldable pub hooked_realloc : Option ℕ → ℕ → Hook W → Hook W × Option ℕ
  hooked_realloc none bytes h = hooked_malloc bytes h
  hooked_realloc (some p) bytes h =
      let foreign : Hook W × Option ℕ = elim crt.real_msize [
        | none ↦ call (crt.real_realloc (some p) bytes) h
        | some msize ↦
            if ltb bytes config.threshold || should_pass_through h
            then call (crt.real_realloc (some p) bytes) h
            else move_foreign msize p bytes h
      ] in
      if bytes == 0
      then (hooked_free crt (some p) h, none)
      else if arena_owns p h
      then move_owned p bytes h
      else foreign
