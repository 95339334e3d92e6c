-- ===== src/Memory/Raw.antt =====
-- Raw memory as a function from an offset to the byte there: what memset and memcpy do to it, and
-- the exceptions of memoryd.
use ram_vram_sharing.Prelude.{ℕ, ◌+◌, ◌-◌, ◌&&◌, List, ltb, leb, ◌==◌, if◌then◌else◌, get_or}

abbrev pub Bytes : Type 0
Bytes = ℕ → ℕ

-- The array cell `i` is set to `v`.
abbrev pub update {ℓ} : {A : Type ℓ} → (ℕ → A) → ℕ → A → ℕ → A
update f i v j = if i == j then v else f j

-- memset(m + at, v, n)
abbrev pub fill : Bytes → ℕ → ℕ → ℕ → Bytes
fill m at v n a = if leb at a && ltb a (at + n) then v else m a

-- memcpy(m + at, src, n)
abbrev pub copy_in : Bytes → ℕ → Bytes → ℕ → Bytes
copy_in m at src n a = if leb at a && ltb a (at + n) then src (a - at) else m a

-- The pointer `p + k`.
abbrev pub shift : Bytes → ℕ → Bytes
shift p k i = p (k + i)

-- The bytes of a vector, read through data().
abbrev pub data_of : List ℕ → Bytes
data_of xs i = get_or xs i 0

-- The C++ exceptions that memoryd throws and catches by type.
pub data Exception : Type 0 where
  bad_alloc invalid_argument out_of_range runtime_error permission_denied : Exception

pub data Result {ℓ} (A : Type ℓ) : Type ℓ where
  ok : A → Result A
  throw : Exception → Result A
