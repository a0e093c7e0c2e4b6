-- ===== src/Wal/Crc.antt =====
-- include/ome/crc32.hpp: the checksum of a log record, by table.
use order_matching_machine.Prelude.{
  ℕ, zero, suc, ◌-◌, ◌/◌, ◌<◌, ◌^◌, bit_and, bit_xor, ◌≡◌, refl, List, [], ◌∷◌, arith, ◌==◌,
  if◌then◌else◌,
}

-- `~c` on `uint32_t`.
abbrev pub not32 : ℕ → ℕ
not32 c = 2 ^ 32 - 1 - c

abbrev pub crc_shift : ℕ → ℕ
crc_shift c = if bit_and c 1 == 1 then bit_xor 0xEDB88320 (c / 2) else c / 2

unfoldable pub crc_steps : ℕ → ℕ → ℕ
crc_steps zero c = c
crc_steps (suc k) c = crc_steps k (crc_shift c)

-- The entry of the table at an index.
unfoldable pub table_entry : ℕ → ℕ
table_entry i = crc_steps 8 i

unfoldable pub crc_loop : ℕ → List ℕ → ℕ
crc_loop c [] = c
crc_loop c (b ∷ bs) = crc_loop (bit_xor (table_entry (bit_and (bit_xor c b) 255)) (c / 256)) bs

-- `crc32` with the default `crc` of 0.
unfoldable pub crc32 : List ℕ → ℕ
crc32 data_bytes = not32 (crc_loop (not32 0) data_bytes)

pub crc32-lt : (bs : List ℕ) → crc32 bs < 2 ^ 32
unfolding crc32
crc32-lt bs = omega arith

-- The check value of the polynomial: the checksum of the digits "123456789".
crc32_digits : crc32 (49 ∷ 50 ∷ 51 ∷ 52 ∷ 53 ∷ 54 ∷ 55 ∷ 56 ∷ 57 ∷ []) ≡ 0xCBF43926
unfolding crc32 crc_loop table_entry crc_steps
crc32_digits = refl
