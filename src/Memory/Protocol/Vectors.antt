-- ===== src/Memory/Protocol/Vectors.antt =====
-- The bytes of a vector that was filled from memory.
use ram_vram_sharing.Prelude.{ℕ, zero, suc, ◌<◌, ◌≡◌, refl, ap, ◌∙◌, arith, length}
use ram_vram_sharing.Memory.Raw.{Bytes, shift, data_of}
use ram_vram_sharing.Memory.Protocol.{vector_of}

pub length-vector_of : (n : ℕ) (p : Bytes) → length (vector_of n p) ≡ n
unfolding vector_of
length-vector_of zero p = refl
length-vector_of (suc n) p = ap suc (length-vector_of n (shift p 1))

pub data_of-vector_of : (n : ℕ) (p : Bytes) (i : ℕ) → i < n → data_of (vector_of n p) i ≡ p i
unfolding vector_of
data_of-vector_of zero p i l = absurd (omega arith)
data_of-vector_of (suc n) p zero l = refl
data_of-vector_of (suc n) p (suc i) l =
    data_of-vector_of n (shift p 1) i (omega arith) ∙ ap p (omega arith)
