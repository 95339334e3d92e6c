-- ===== src/Hook/Slots.antt =====
-- hook/meminfo_hook.cpp: the C runtimes that the hook finds in the process and detours. The loader
-- and Detours are what a Scan says of one run of scan_and_attach.
pub mod Once
use ram_vram_sharing.Prelude.{
  ℕ, Bool, true, false, ◌&&◌, ◌||◌, List, [], ◌∷◌, ◌++◌, leb, ◌==◌, if◌then◌else◌, length,
}

-- The functions of a runtime that are detoured.
pub data Function : Type 0 where
  malloc calloc realloc free msize : Function

-- A module is named by its place in kCrtModules.
abbrev pub crt_modules : List ℕ
crt_modules = 0 ∷ 1 ∷ 2 ∷ 3 ∷ []

abbrev pub max_slots : ℕ
max_slots = 4

-- What GetModuleHandle, GetProcAddress, DetourAttach and DetourTransactionCommit answer.
pub record Scan : Type 0 where
  pub is_loaded : ℕ → Bool
  pub resolve : ℕ → Function → Bool
  pub detour_attach : ℕ → Function → Bool
  pub commits : Bool

-- `slots` holds g_slots, each with its entry of g_slot_taken; `attached` is the history of the calls
-- of attach_slot.
pub record Slots : Type 0 where
  pub slots : List (ℕ × Bool)
  pub attached : List ℕ

-- What the program starts with.
abbrev pub no_slots : Slots
no_slots = record { slots = []; attached = [] }

unfoldable pub fill_slot : Scan → ℕ → Bool
fill_slot e m = e.is_loaded m && (e.resolve m malloc && e.resolve m free)

-- One of the five tests of attach_slot.
abbrev pub attach : Scan → ℕ → Function → Bool
attach e m f = e.resolve m f && e.detour_attach m f

unfoldable pub attach_slot : Scan → ℕ → Bool
attach_slot e m =
    attach e m malloc
    || (attach e m calloc || (attach e m realloc || (attach e m free || attach e m msize)))

pub occupies : ℕ → List (ℕ × Bool) → Bool
occupies m [] = false
occupies m ((n, taken) ∷ s) = if n == m then true else occupies m s

-- The loop over kCrtModules.
pub find_new : Scan → List ℕ → List (ℕ × Bool) → List (ℕ × Bool)
unfolding occupies fill_slot
find_new e [] s = s
find_new e (m ∷ ms) s =
    let rest =
      find_new e ms
        (if occupies m s then s else if fill_slot e m then s ++ (m, false) ∷ [] else s) in
    if leb max_slots (length s) then s else rest

-- The lines that attach each slot that is not taken, and mark it.
pub attach_new : Scan → List (ℕ × Bool) → List ℕ → (List (ℕ × Bool) × List ℕ) × Bool
unfolding attach_slot
attach_new e [] done = (([], done), false)
attach_new e ((m, taken) ∷ s) done =
    let ((s', done'), any) = attach_new e s (if taken then done else m ∷ done) in
    (((m, true) ∷ s', done'), (if taken then false else attach_slot e m) || any)

unfoldable pub scan_and_attach : Scan → Slots → Slots × Bool
unfolding find_new attach_new
scan_and_attach e g =
    let s = find_new e crt_modules g.slots in
    let ((s', done), any) = attach_new e s g.attached in
    if length s == length g.slots
    then (record g { slots = s }, false)
    else (record { slots = s'; attached = done }, e.commits && any)

-- The scans that installing the hooks and loading modules bring about, one after another.
pub scan_all : List Scan → Slots → Slots
scan_all [] g = g
scan_all (e ∷ es) g = scan_all es (scan_and_attach e g).0
