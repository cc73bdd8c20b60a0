-- ===== src/V6/Varint/Decode.antt =====
-- One round of the loop of `read_varint`, on a last byte and on a byte with the continuation bit.
use crates.Prelude.{ℕ, ◌+◌, ◌*◌, ◌/◌, ◌%◌, ◌^◌, ◌<◌, ◌≡◌, ap, arith, String}
use crates.Prelude.{List, ◌∷◌, bit_or, false, ◌&&◌, ltb, ◌==◌, ◌≢◌}
use crates.Prelude.Bits.{bit_and-low, bit_and-top, bit_or-shifted}
use crates.V6.Error.{ok}
use crates.V6.Varint.{read_loop}
use native.Mathlib.Nat.{mod-eq_of_lt}
use native.Mathlib.Numerals.{towards_suc}

pub or_payload :
    (result p shift : ℕ)
    → result < 2 ^ shift
    → p * 2 ^ shift < 2 ^ 64
    → bit_or result (p * 2 ^ shift % 2 ^ 64) ≡ result + p * 2 ^ shift
or_payload result p shift h k = rw (mod-eq_of_lt k) (bit_or-shifted shift result p h)

-- A group more is a factor of 128.
pub power_next_group : (shift : ℕ) → 2 ^ (shift + 7) ≡ 2 ^ shift * 128
power_next_group shift = simp towards_suc (omega arith)

-- What one round adds to the result, and what the later rounds add.
pub regroup : (shift v : ℕ) → v / 128 * 2 ^ (shift + 7) + v % 128 * 2 ^ shift ≡ v * 2 ^ shift
regroup shift v =
    let parts : (v % 128 + v / 128 * 128) * 2 ^ shift ≡ v * 2 ^ shift =
      ap (λ (k : ℕ). k * 2 ^ shift) (omega arith) in
    omega (arith, parts, ap (λ (k : ℕ). v / 128 * k) (power_next_group shift))

fits_shift : (w shift : ℕ) → w * 2 ^ shift < 2 ^ 64 → (shift == 63 && ltb 1 w) ≡ false
fits_shift w shift h = ground arith

-- The accumulated groups stay below the next shift.
pub next_below : (result g s : ℕ) → result < 2 ^ s → g < 128 → result + g * 2 ^ s < 2 ^ (s + 7)
next_below result g s h k = rw (power_next_group s) (grind arith)

pub last_byte :
    (ctx : String) (len b : ℕ) (rest : List ℕ) (i result shift : ℕ)
    → b < 128
    → result < 2 ^ shift
    → b * 2 ^ shift < 2 ^ 64
    → (0 < i → 0 < b)
    → read_loop ctx len (b ∷ rest) i result shift ≡ ok (result + b * 2 ^ shift, i + 1)
unfolding read_loop
last_byte ctx len b rest i result shift hb hr fits pos =
    ground (arith, bit_and-low b, bit_and-top b, fits_shift b shift, or_payload result b shift)

pub inner_byte :
    (ctx : String) (len g : ℕ) (rest : List ℕ) (i result shift : ℕ)
    → g < 128
    → result < 2 ^ shift
    → g * 2 ^ shift < 2 ^ 64
    → shift ≢ 63
    → read_loop ctx len ((g + 128) ∷ rest) i result shift
      ≡ read_loop ctx len rest (i + 1) (result + g * 2 ^ shift) (shift + 7)
unfolding read_loop
inner_byte ctx len g rest i result shift hb hr fits h =
    ground (arith, bit_and-low (g + 128), bit_and-top (g + 128), or_payload result g shift)
