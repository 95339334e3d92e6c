-- ===== src/Common/Crc.antt =====
-- common/src/crc32c.cpp: the table and the portable loop. With SSE 4.2 the compiler's intrinsics
-- stand in for the loop; they are not modelled.
use Prim.Native.Nat.{bit_and, bit_xor}
use ram_vram_sharing.Prelude.{ℕ, zero, suc, ◌-◌, ◌/◌, ◌≡◌, refl, List, [], ◌∷◌, ◌==◌, if◌then◌else◌}

-- One of the eight rounds for a table entry.
pub crc_round : ℕ → ℕ
crc_round crc = if bit_and crc 1 == 1 then bit_xor (crc / 2) 0x82F63B78 else crc / 2

pub crc_rounds : ℕ → ℕ → ℕ
unfolding crc_round
crc_rounds zero crc = crc
crc_rounds (suc n) crc = crc_rounds n (crc_round crc)

-- The entry `i` of generate_crc32c_table().
pub table_entry : ℕ → ℕ
unfolding crc_rounds
table_entry i = crc_rounds 8 i

-- `~` on uint32_t.
abbrev pub complement : ℕ → ℕ
complement crc = 4294967295 - crc

pub crc_loop : ℕ → List ℕ → ℕ
unfolding table_entry
crc_loop crc [] = crc
crc_loop crc (b ∷ bs) =
    crc_loop (bit_xor (table_entry (bit_and (bit_xor crc b) 0xFF)) (crc / 256)) bs

unfoldable pub crc32c : List ℕ → ℕ → ℕ
unfolding crc_loop
crc32c data_ initial_crc = complement (crc_loop (complement initial_crc) data_)

-- The check value of CRC-32C over the digits 1 to 9.
crc_check_value : crc32c (49 ∷ 50 ∷ 51 ∷ 52 ∷ 53 ∷ 54 ∷ 55 ∷ 56 ∷ 57 ∷ []) 0 ≡ 0xE3069283
unfolding crc32c
crc_check_value = refl
