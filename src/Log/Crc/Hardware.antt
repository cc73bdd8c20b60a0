-- ===== src/Log/Crc/Hardware.antt =====
-- The two ways of heraclitus-log/src/cpm.rs to the same checksum.
use crates.Prelude.{ℕ, zero, suc, ◌/◌, ◌%◌, ◌^◌, ◌<◌, ◌≡◌, refl, sym, ap, ◌∙◌, arith}
use crates.Prelude.{bit_xor, List, [], ◌∷◌, ◌++◌, All, Bool-cases, inl, inr}
use crates.Prelude.{All-append}
use crates.Prelude.Bits.{IsByte}
use crates.Prelude.Xor.{bit_xor-lt}
use crates.V6.Merkle.{to_le_bytes}
use crates.Log.Crc.{
  Cpu, crc_rounds, update_tabela, feed_all, update_hardware, update_despachado, crc32c_new,
  crc32c_update, crc32c_finalize, crc32c,
}
use crates.Log.Crc.Linear.{table_byte, crc_rounds-lt}
use native.Mathlib.Nat.{mod-eq_of_lt}

-- Words as the bytes that they were read from, the lowest first.
abbrev pub bytes_of : List ℕ → List ℕ
bytes_of [] = []
bytes_of (w ∷ ws) = to_le_bytes 8 w ++ bytes_of ws

-- What the processor's manual and the standard library say: the byte instruction divides by the
-- polynomial, the word instruction is eight of those from the lowest byte on, and `align_to` cuts the
-- slice in three, the words in the order of little-endian machines.
pub record IsCpu (cpu : Cpu) : Type 0 where
  pub mm_crc32_u8 :
      (c b : ℕ) → c < 2 ^ 32 → b < 256 → cpu.mm_crc32_u8 c b ≡ crc_rounds 8 (bit_xor c b)
  pub mm_crc32_u64 :
      (c w : ℕ) → c < 2 ^ 32 → cpu.mm_crc32_u64 c w ≡ feed_all cpu.mm_crc32_u8 c (to_le_bytes 8 w)
  pub align_to :
      (bytes : List ℕ)
      → All IsByte bytes
      → (cpu.align_to bytes).0 ++ (bytes_of (cpu.align_to bytes).1 ++ (cpu.align_to bytes).2)
        ≡ bytes

-- The division, byte by byte.
abbrev divide : ℕ → List ℕ → ℕ
divide crc [] = crc
divide crc (b ∷ bytes) = divide (crc_rounds 8 (bit_xor crc b)) bytes

divide-append : (crc : ℕ) (xs ys : List ℕ) → divide crc (xs ++ ys) ≡ divide (divide crc xs) ys
divide-append crc [] ys = refl
divide-append crc (x ∷ xs) ys = divide-append (crc_rounds 8 (bit_xor crc x)) xs ys

step-lt : (crc b : ℕ) → crc < 2 ^ 32 → b < 256 → crc_rounds 8 (bit_xor crc b) < 2 ^ 32
step-lt crc b h k = crc_rounds-lt 8 (bit_xor crc b) (bit_xor-lt 32 crc b h (omega (arith, k)))

divide-lt : (crc : ℕ) (bytes : List ℕ) → crc < 2 ^ 32 → All IsByte bytes → divide crc bytes < 2 ^ 32
divide-lt crc [] h w = h
divide-lt crc (b ∷ bytes) h (k, w) =
    divide-lt (crc_rounds 8 (bit_xor crc b)) bytes (step-lt crc b h k) w

update_tabela-divide :
    (crc : ℕ) (bytes : List ℕ) → All IsByte bytes → update_tabela crc bytes ≡ divide crc bytes
unfolding update_tabela
update_tabela-divide crc [] w = refl
update_tabela-divide crc (b ∷ bytes) (k, w) =
    ap (λ (c : ℕ). update_tabela c bytes) (table_byte crc b k)
    ∙ update_tabela-divide (crc_rounds 8 (bit_xor crc b)) bytes w

to_le_bytes-IsByte : (w x : ℕ) → All IsByte (to_le_bytes w x)
unfolding to_le_bytes
to_le_bytes-IsByte zero x = tt
to_le_bytes-IsByte (suc w) x = (omega arith, to_le_bytes-IsByte w (x / 256))

All-split : (xs ys : List ℕ) → All IsByte (xs ++ ys) → All IsByte xs × All IsByte ys
All-split [] ys w = (tt, w)
All-split (x ∷ xs) ys (h, w) = let (a, b) = All-split xs ys w in ((h, a), b)

module _ (cpu : Cpu) (lawful : IsCpu cpu) where
  abbrev by_byte : ℕ → ℕ → ℕ
  by_byte c b = cpu.mm_crc32_u8 (c % 2 ^ 32) b

  by_byte-divide :
      (crc : ℕ) (bytes : List ℕ)
      → crc < 2 ^ 32
      → All IsByte bytes
      → feed_all by_byte crc bytes ≡ divide crc bytes
  unfolding feed_all
  by_byte-divide crc [] h w = refl
  by_byte-divide crc (b ∷ bytes) h (k, w) =
      let e : by_byte crc b ≡ crc_rounds 8 (bit_xor crc b) =
        ap (λ (c : ℕ). cpu.mm_crc32_u8 c b) (mod-eq_of_lt h) ∙ lawful.mm_crc32_u8 crc b h k in
      ap (λ (c : ℕ). feed_all by_byte c bytes) e
      ∙ by_byte-divide (crc_rounds 8 (bit_xor crc b)) bytes (step-lt crc b h k) w

  u8-divide :
      (crc : ℕ) (bytes : List ℕ)
      → crc < 2 ^ 32
      → All IsByte bytes
      → feed_all cpu.mm_crc32_u8 crc bytes ≡ divide crc bytes
  unfolding feed_all
  u8-divide crc [] h w = refl
  u8-divide crc (b ∷ bytes) h (k, w) =
      ap (λ (c : ℕ). feed_all cpu.mm_crc32_u8 c bytes) (lawful.mm_crc32_u8 crc b h k)
      ∙ u8-divide (crc_rounds 8 (bit_xor crc b)) bytes (step-lt crc b h k) w

  words-divide :
      (crc : ℕ) (words : List ℕ)
      → crc < 2 ^ 32
      → feed_all cpu.mm_crc32_u64 crc words ≡ divide crc (bytes_of words)
  unfolding feed_all
  words-divide crc [] h = refl
  words-divide crc (w ∷ words) h =
      let bytes = to_le_bytes 8 w in
      let e = lawful.mm_crc32_u64 crc w h ∙ u8-divide crc bytes h (to_le_bytes-IsByte 8 w) in
      ap (λ (c : ℕ). feed_all cpu.mm_crc32_u64 c words) e
      ∙ words-divide (divide crc bytes) words (divide-lt crc bytes h (to_le_bytes-IsByte 8 w))
      ∙ sym (divide-append crc bytes (bytes_of words))

  update_hardware-divide :
      (crc : ℕ) (bytes : List ℕ)
      → crc < 2 ^ 32
      → All IsByte bytes
      → update_hardware cpu crc bytes ≡ divide crc bytes
  unfolding update_hardware
  update_hardware-divide crc bytes h w =
      let pre = (cpu.align_to bytes).0 in
      let words = (cpu.align_to bytes).1 in
      let post = (cpu.align_to bytes).2 in
      let cut = lawful.align_to bytes w in
      let (wp, ww, wq) = parts pre (bytes_of words) post (rw cut w) in
      let c1 = divide-lt crc pre h wp in
      let c2 = divide-lt (divide crc pre) (bytes_of words) c1 ww in
      let c3 = divide-lt (divide (divide crc pre) (bytes_of words)) post c2 wq in
      let e1 = by_byte-divide crc pre h wp in
      let e2 = words-divide (divide crc pre) words c1 in
      let e3 = by_byte-divide (divide (divide crc pre) (bytes_of words)) post c2 wq in
      let whole : feed_all by_byte (feed_all cpu.mm_crc32_u64 (feed_all by_byte crc pre) words) post
          ≡ divide (divide (divide crc pre) (bytes_of words)) post =
        rw e1 (rw e2 e3) in
      ap (λ (c : ℕ). c % 2 ^ 32) whole
      ∙ mod-eq_of_lt c3
      ∙ sym (divide-append (divide crc pre) (bytes_of words) post)
      ∙ sym (divide-append crc pre (bytes_of words ++ post))
      ∙ ap (divide crc) cut
    where
      parts :
          (a b c : List ℕ) → All IsByte (a ++ (b ++ c)) → All IsByte a × All IsByte b × All IsByte c
      parts a b c w =
          let (x, yz) = All-split a (b ++ c) w in let (y, z) = All-split b c yz in (x, y, z)

  despachado-divide :
      (crc : ℕ) (bytes : List ℕ)
      → crc < 2 ^ 32
      → All IsByte bytes
      → update_despachado cpu crc bytes ≡ divide crc bytes
  unfolding update_despachado
  despachado-divide crc bytes h w = elim (Bool-cases cpu.sse42) [
    | inl e ↦ rw e (update_hardware-divide crc bytes h w)
    | inr e ↦ rw e (update_tabela-divide crc bytes w)
  ]

  updated :
      (crc : ℕ) (bytes : List ℕ)
      → crc < 2 ^ 32
      → All IsByte bytes
      → crc32c_update cpu crc bytes ≡ divide crc bytes
  unfolding crc32c_update
  updated crc bytes h w = despachado-divide crc bytes h w

  crc32c_def :
      (bytes : List ℕ) → crc32c cpu bytes ≡ crc32c_finalize (crc32c_update cpu crc32c_new bytes)
  unfolding crc32c
  crc32c_def bytes = refl

-- With or without SSE4.2, and however `align_to` cuts the slice, the state is the one of the table.
pub update_despachado-update_tabela :
    (cpu : Cpu) (crc : ℕ) (bytes : List ℕ)
    → IsCpu cpu
    → crc < 2 ^ 32
    → All IsByte bytes
    → update_despachado cpu crc bytes ≡ update_tabela crc bytes
update_despachado-update_tabela cpu crc bytes lawful h w =
    despachado-divide cpu lawful crc bytes h w ∙ sym (update_tabela-divide crc bytes w)

-- Bytes that come in pieces, cut anywhere, give the checksum of the whole.
pub crc32c-append :
    (cpu : Cpu) (xs ys : List ℕ)
    → IsCpu cpu
    → All IsByte xs
    → All IsByte ys
    → crc32c_finalize (crc32c_update cpu (crc32c_update cpu crc32c_new xs) ys)
      ≡ crc32c cpu (xs ++ ys)
crc32c-append cpu xs ys lawful v w =
    let n : crc32c_new < 2 ^ 32 = omega arith in
    let front = updated cpu lawful crc32c_new xs n v in
    let back = updated cpu lawful (divide crc32c_new xs) ys (divide-lt crc32c_new xs n v) w in
    let whole = updated cpu lawful crc32c_new (xs ++ ys) n (All-append IsByte xs ys v w) in
    ap crc32c_finalize (
      ap (λ (c : ℕ). crc32c_update cpu c ys) front
      ∙ back
      ∙ sym (divide-append crc32c_new xs ys)
      ∙ sym whole)
    ∙ sym (crc32c_def cpu lawful (xs ++ ys))
