-- ===== src/Log/Crc/Linear.antt =====
-- The rounds of the table of heraclitus-log/src/cpm.rs over `^`, and its loop over bytes.
use crates.Prelude.{ℕ, zero, suc, ◌+◌, ◌*◌, ◌/◌, ◌%◌, ◌^◌, ◌<◌, ◌≡◌, refl, sym, ap, ◌∙◌, arith}
use crates.Prelude.{bit_and, bit_xor, some, get_elem?, ◌==◌, if◌then◌else◌}
use crates.Prelude.Xor.{
  bit_xor-div, bit_xor-mod, bit_xor_assoc, bit_xor_comm, bit_xor_self, bit_xor-zero, bit_xor-lt,
  bit_xor-shifted, bit_and-one, bit_and-byte,
}
use native.Mathlib.Nat.{pow-suc}
use crates.Log.Crc.{polynomial, crc_round, crc_rounds, table_from, crc32c_table, table_entry}

-- A round shifts, and takes off the polynomial where a one falls out.
abbrev feedback : ℕ → ℕ
feedback x = if x % 2 == 0 then 0 else polynomial

feedback-lt : (x : ℕ) → feedback x < 2 ^ 32
feedback-lt x = ground arith

crc_round-feedback : (x : ℕ) → crc_round x ≡ bit_xor (x / 2) (feedback x)
unfolding crc_round
crc_round-feedback x = ground (arith, bit_and-one x, bit_xor_comm (x / 2) 0, bit_xor-zero (x / 2))

feedback-bit_xor : (a b : ℕ) → feedback (bit_xor a b) ≡ bit_xor (feedback a) (feedback b)
feedback-bit_xor a b = ground (
  arith,
  bit_xor-mod a b,
  bit_xor_self polynomial,
  bit_xor-zero polynomial,
  bit_xor-zero 0,
  bit_xor_comm polynomial 0,
)

-- Two sums of two, added crosswise.
crosswise :
    (a b c d : ℕ) → bit_xor (bit_xor a b) (bit_xor c d) ≡ bit_xor (bit_xor a c) (bit_xor b d)
crosswise a b c d =
    bit_xor_assoc a b (bit_xor c d)
    ∙ ap (bit_xor a) (
        sym (bit_xor_assoc b c d)
        ∙ ap (λ (x : ℕ). bit_xor x d) (bit_xor_comm b c)
        ∙ bit_xor_assoc c b d)
    ∙ sym (bit_xor_assoc a c (bit_xor b d))

crc_round-bit_xor : (a b : ℕ) → crc_round (bit_xor a b) ≡ bit_xor (crc_round a) (crc_round b)
crc_round-bit_xor a b =
    rw (crc_round-feedback a, crc_round-feedback b)
      (crc_round-feedback (bit_xor a b)
        ∙ rw (bit_xor-div a b)
            (rw (feedback-bit_xor a b) (crosswise (a / 2) (b / 2) (feedback a) (feedback b))))

pub crc_rounds-bit_xor :
    (j a b : ℕ) → crc_rounds j (bit_xor a b) ≡ bit_xor (crc_rounds j a) (crc_rounds j b)
unfolding crc_rounds
crc_rounds-bit_xor zero a b = refl
crc_rounds-bit_xor (suc j) a b =
    ap (crc_rounds j) (crc_round-bit_xor a b) ∙ crc_rounds-bit_xor j (crc_round a) (crc_round b)

crc_round-even : (k : ℕ) → crc_round (k * 2) ≡ k
unfolding crc_round
crc_round-even k = ground (arith, bit_and-one (k * 2))

-- Rounds on zeros only shift.
crc_rounds-shifted : (j h : ℕ) → crc_rounds j (h * 2 ^ j) ≡ h
unfolding crc_rounds
crc_rounds-shifted zero h = omega arith
crc_rounds-shifted (suc j) h =
    let e : h * 2 ^ suc j ≡ h * 2 ^ j * 2 = rw (pow-suc 2 j) (omega arith) in
    ap (λ (x : ℕ). crc_rounds j (crc_round x)) e
    ∙ ap (crc_rounds j) (crc_round-even (h * 2 ^ j))
    ∙ crc_rounds-shifted j h

table_from-get : (n i k : ℕ) → k < n → get_elem? (table_from i n) k ≡ some (crc_rounds 8 (i + k))
unfolding table_from
table_from-get zero i k h = absurd (omega arith)
table_from-get (suc n) i zero h = ap (λ (x : ℕ). some (crc_rounds 8 x)) (omega arith)
table_from-get (suc n) i (suc k) h =
    table_from-get n (i + 1) k (omega arith) ∙ ap (λ (x : ℕ). some (crc_rounds 8 x)) (omega arith)

table_entry-crc_rounds : (i : ℕ) → i < 256 → table_entry i ≡ crc_rounds 8 i
unfolding table_entry crc32c_table
table_entry-crc_rounds i h = rw (table_from-get 256 0 i h) (ap (crc_rounds 8) (omega arith))

-- One byte through the table is eight rounds of the division by the polynomial.
pub table_byte :
    (crc b : ℕ)
    → b < 256
    → bit_xor (table_entry (bit_and (bit_xor crc b) 0xFF)) (crc / 256)
      ≡ crc_rounds 8 (bit_xor crc b)
table_byte crc b h =
    let hi = crc / 256 in
    let lo = bit_xor (crc % 256) b in
    let small : lo < 256 = bit_xor-lt 8 (crc % 256) b (omega arith) h in
    let whole : crc ≡ bit_xor (hi * 256) (crc % 256) =
      omega (arith, bit_xor-shifted 8 hi (crc % 256) (omega arith)) in
    let split : bit_xor crc b ≡ bit_xor (hi * 256) lo =
      ap (λ (x : ℕ). bit_xor x b) whole ∙ bit_xor_assoc (hi * 256) (crc % 256) b in
    let index : bit_and (bit_xor crc b) 0xFF ≡ lo =
      omega (arith, bit_and-byte (bit_xor crc b), split, bit_xor-shifted 8 hi lo small, small) in
    let read : table_entry (bit_and (bit_xor crc b) 0xFF) ≡ crc_rounds 8 lo =
      ap table_entry index ∙ table_entry-crc_rounds lo small in
    ap (λ (x : ℕ). bit_xor x hi) read
    ∙ bit_xor_comm (crc_rounds 8 lo) hi
    ∙ ap (λ (x : ℕ). bit_xor x (crc_rounds 8 lo)) (sym (crc_rounds-shifted 8 hi))
    ∙ sym (crc_rounds-bit_xor 8 (hi * 256) lo)
    ∙ ap (crc_rounds 8) (sym split)

-- The state stays a u32.
pub crc_rounds-lt : (j a : ℕ) → a < 2 ^ 32 → crc_rounds j a < 2 ^ 32
unfolding crc_rounds
crc_rounds-lt zero a h = h
crc_rounds-lt (suc j) a h =
    crc_rounds-lt j (crc_round a)
      (rw (crc_round-feedback a) (bit_xor-lt 32 (a / 2) (feedback a) (omega arith) (feedback-lt a)))
