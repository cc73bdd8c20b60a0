-- ===== src/Log/Crc/Tests.antt =====
-- The checksums of heraclitus-log/src/cpm.rs at concrete inputs.
use crates.Prelude.{
  ℕ, zero, suc, ◌+◌, ◌*◌, ◌/◌, ◌%◌, ◌++◌, ◌≡◌, refl, sym, ap, ◌∙◌, arith, List, [], ◌∷◌, true,
  false, bit_xor, All,
}
use crates.Prelude.{
  length, take, drop, leb, leb→le, if◌then◌else◌, take-append-drop, length-take, length-drop,
  append-nil, Bool-cases, inl, inr, All-take,
}
use crates.Prelude.Bits.{IsByte}
use crates.V6.Merkle.{to_le_bytes}
use crates.V6.Hrkm.Decode.{from_le_bytes}
use crates.Log.Crc.{
  Cpu, crc_rounds, feed_all, update_tabela, update_despachado, crc32c_new, crc32c_update,
  crc32c_finalize, crc32c,
}
use crates.Log.Crc.Hardware.{IsCpu, bytes_of, update_despachado-update_tabela, crc32c-append}

abbrev byte_instruction : ℕ → ℕ → ℕ
byte_instruction c b = crc_rounds 8 (bit_xor c b)

-- The byte in front of a word, the word, and what is left of a slice of nine bytes or more.
abbrev split : List ℕ → List ℕ × List ℕ × List ℕ
split bytes =
    if leb 9 (length bytes)
    then (take 1 bytes, from_le_bytes (take 8 (drop 1 bytes)) ∷ [], drop 8 (drop 1 bytes))
    else (bytes, [], [])

to_le_bytes-from_le_bytes :
    (xs : List ℕ) → All IsByte xs → to_le_bytes (length xs) (from_le_bytes xs) ≡ xs
unfolding to_le_bytes from_le_bytes
to_le_bytes-from_le_bytes [] w = refl
to_le_bytes-from_le_bytes (b ∷ xs) (h, w) =
    let low : (b + from_le_bytes xs * 256) % 256 ≡ b = omega (arith, h) in
    let high : (b + from_le_bytes xs * 256) / 256 ≡ from_le_bytes xs = omega (arith, h) in
    rw low (
      ap (λ (ys : List ℕ). b ∷ ys)
        (ap (to_le_bytes (length xs)) high ∙ to_le_bytes-from_le_bytes xs w))

All-drop : (n : ℕ) (xs : List ℕ) → All IsByte xs → All IsByte (drop n xs)
All-drop zero xs w = w
All-drop (suc n) [] w = tt
All-drop (suc n) (x ∷ xs) (h, w) = All-drop n xs w

split_whole :
    (bytes : List ℕ)
    → All IsByte bytes
    → (split bytes).0 ++ (bytes_of (split bytes).1 ++ (split bytes).2) ≡ bytes
split_whole bytes w = elim (Bool-cases (leb 9 (length bytes))) [
  | inr e ↦ rw e (append-nil bytes)
  | inl e ↦
      let word = take 8 (drop 1 bytes) in
      let l : length word ≡ 8 =
        omega (arith, leb→le _ _ e, length-take 8 (drop 1 bytes), length-drop 1 bytes) in
      let back : to_le_bytes 8 (from_le_bytes word) ≡ word =
        ap (λ (n : ℕ). to_le_bytes n (from_le_bytes word)) (sym l)
        ∙ to_le_bytes-from_le_bytes word (All-take IsByte 8 (drop 1 bytes) (All-drop 1 bytes w)) in
      rw e (
        rw back (
          rw (append-nil word) (rw (take-append-drop 8 (drop 1 bytes)) (take-append-drop 1 bytes))))
]

abbrev sse_cpu : Cpu
sse_cpu = record {
  sse42 = true;
  mm_crc32_u8 = byte_instruction;
  mm_crc32_u64 = λ c w. feed_all byte_instruction c (to_le_bytes 8 w);
  align_to = split;
}

sse_cpu-IsCpu : IsCpu sse_cpu
sse_cpu-IsCpu = record {
  mm_crc32_u8 = λ c b h k. refl;
  mm_crc32_u64 = λ c w h. refl;
  align_to = split_whole;
}

-- `123456789`.
abbrev digits_text : List ℕ
digits_text = 0x31 ∷ 0x32 ∷ 0x33 ∷ 0x34 ∷ 0x35 ∷ 0x36 ∷ 0x37 ∷ 0x38 ∷ 0x39 ∷ []

digits_text_bytes : All IsByte digits_text
digits_text_bytes = (
  omega arith,
  (
    omega arith,
    (
      omega arith,
      (omega arith, (omega arith, (omega arith, (omega arith, (omega arith, (omega arith, tt)))))),
    ),
  ),
)

check_value : crc32c sse_cpu digits_text ≡ 0xE3069283
unfolding crc32c crc_rounds to_le_bytes from_le_bytes
check_value = refl

check_value_table : crc32c (record sse_cpu { sse42 = false }) digits_text ≡ 0xE3069283
unfolding crc32c
check_value_table = refl

update_despachado-update_tabela_example :
    update_despachado sse_cpu crc32c_new digits_text ≡ update_tabela crc32c_new digits_text
update_despachado-update_tabela_example =
    update_despachado-update_tabela sse_cpu crc32c_new digits_text sse_cpu-IsCpu (omega arith)
      digits_text_bytes

crc32c-append_example :
    crc32c_finalize (crc32c_update sse_cpu (crc32c_update sse_cpu crc32c_new (7 ∷ [])) digits_text)
    ≡ crc32c sse_cpu (7 ∷ digits_text)
crc32c-append_example =
    crc32c-append sse_cpu (7 ∷ []) digits_text sse_cpu-IsCpu (omega arith, tt) digits_text_bytes
