-- ===== src/Log/Crc.antt =====
-- heraclitus-log/src/cpm.rs: CRC-32C by table and by the instructions of SSE4.2. A `u32` is a number
-- below 2 ^ 32; `crc >> 8` is `crc / 256`. The intrinsics of the processor and the split of a slice
-- into aligned words are parameters.
pub mod Linear
pub mod Hardware
mod Tests
use crates.Prelude.{
  ℕ, zero, suc, ◌+◌, ◌-◌, ◌*◌, ◌/◌, ◌%◌, ◌^◌, ◌<◌, arith, bit_and, bit_xor, Bool, true, false,
}
use crates.Prelude.{List, [], ◌∷◌, ◌++◌, Option, none, some, if◌then◌else◌, get_elem?, ◌==◌}

abbrev pub polynomial : ℕ
polynomial = 0x82F63B78

-- One round of the loop over `j`.
unfoldable pub crc_round : ℕ → ℕ
crc_round crc = if bit_and crc 1 == 0 then crc / 2 else bit_xor (crc / 2) polynomial

unfoldable pub crc_rounds : ℕ → ℕ → ℕ
unfolding crc_round
crc_rounds zero crc = crc
crc_rounds (suc j) crc = crc_rounds j (crc_round crc)

-- The entries from index `i` on, `n` of them.
table_from : ℕ → ℕ → List ℕ
unfolding crc_rounds
table_from i zero = []
table_from i (suc n) = crc_rounds 8 i ∷ table_from (i + 1) n

unfoldable pub crc32c_table : List ℕ
unfolding table_from
crc32c_table = table_from 0 256

-- `CRC32C_TABLE[i]`, for an index under 256.
unfoldable pub table_entry : ℕ → ℕ
unfolding crc32c_table
table_entry i = elim (get_elem? crc32c_table i) [ none ↦ 0 | some t ↦ t ]

unfoldable pub update_tabela : ℕ → List ℕ → ℕ
unfolding table_entry
update_tabela crc [] = crc
update_tabela crc (b ∷ bytes) =
    update_tabela (bit_xor (table_entry (bit_and (bit_xor crc b) 0xFF)) (crc / 256)) bytes

-- What the code asks of the processor and of the standard library: whether SSE4.2 was detected,
-- `_mm_crc32_u8`, `_mm_crc32_u64`, and the bytes before the aligned words, the words, and the bytes
-- behind them, of `align_to`.
pub record Cpu : Type 0 where
  pub sse42 : Bool
  pub mm_crc32_u8 : ℕ → ℕ → ℕ
  pub mm_crc32_u64 : ℕ → ℕ → ℕ
  pub align_to : List ℕ → List ℕ × List ℕ × List ℕ

-- A loop of `update_hardware`, over bytes or words; `c as u32` goes into each byte instruction.
unfoldable pub feed_all : (ℕ → ℕ → ℕ) → ℕ → List ℕ → ℕ
feed_all instruction c [] = c
feed_all instruction c (x ∷ xs) = feed_all instruction (instruction c x) xs

unfoldable pub update_hardware : Cpu → ℕ → List ℕ → ℕ
unfolding feed_all
update_hardware cpu crc bytes =
    let (pre, words, post) = cpu.align_to bytes in
    let by_byte = λ (c b : ℕ). cpu.mm_crc32_u8 (c % 2 ^ 32) b in
    feed_all by_byte (feed_all cpu.mm_crc32_u64 (feed_all by_byte crc pre) words) post % 2 ^ 32

unfoldable pub update_despachado : Cpu → ℕ → List ℕ → ℕ
unfolding update_tabela update_hardware
update_despachado cpu crc bytes =
    if cpu.sse42 then update_hardware cpu crc bytes else update_tabela crc bytes

-- The hasher, which is its state.
abbrev pub Crc32c : Type 0
Crc32c = ℕ

abbrev pub crc32c_new : Crc32c
crc32c_new = 0xFFFFFFFF

unfoldable pub crc32c_update : Cpu → Crc32c → List ℕ → Crc32c
unfolding update_despachado
crc32c_update cpu h bytes = update_despachado cpu h bytes

-- `!self.0` of a u32.
unfoldable pub crc32c_finalize : Crc32c → ℕ
crc32c_finalize h = 2 ^ 32 - 1 - h

unfoldable pub crc32c : Cpu → List ℕ → ℕ
unfolding crc32c_update crc32c_finalize
crc32c cpu bytes = crc32c_finalize (crc32c_update cpu crc32c_new bytes)

-- A checksum is a u32.
pub crc32c_lt : (cpu : Cpu) (bytes : List ℕ) → crc32c cpu bytes < 2 ^ 32
unfolding crc32c crc32c_finalize
crc32c_lt cpu bytes = omega arith
