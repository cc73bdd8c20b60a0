-- ===== src/Prelude/Bits.antt =====
-- Masks and disjoint sums of bits as arithmetic. A law on one byte is a table checked by
-- evaluation; the law for a shifted group goes by induction on the shift.
use Prim.Native.Nat.{ℕ, zero, suc, ◌+◌, ◌*◌, ◌/◌, ◌%◌, ◌^◌, ◌≤◌, ◌<◌, max}
use Prim.Native.Nat.{bit_and, bit_or, digits, bit_or-bitwise}
use mathlib.Core.Path.{◌≡◌, refl}
use mathlib.Core.Bool.{Bool, true, false}
use native.Mathlib.Omega.{arith}
use native.Mathlib.Nat.{pow-suc}
use crates.Prelude.Tests.{if◌then◌else◌, ◌==◌, ==_iff}

abbrev pub IsByte : ℕ → Type 0
IsByte b = b < 256

-- The test holds of each number under the bound, from the bound downwards.
holds_under : (ℕ → Bool) → ℕ → Bool
holds_under test zero = true
holds_under test (suc k) = if test k then holds_under test k else false

holds_under-lt :
    (test : ℕ → Bool) (bound b : ℕ) → b < bound → holds_under test bound ≡ true → test b ≡ true
unfolding holds_under
holds_under-lt test zero b lt h = absurd (omega arith)
holds_under-lt test (suc k) b lt h = ground (arith, holds_under-lt test k b)

low_table : holds_under (λ b. bit_and b 0x7f == b % 128) 256 ≡ true
unfolding holds_under
low_table = refl

top_table : holds_under (λ b. bit_and b 0x80 == b / 128 * 128) 256 ≡ true
unfolding holds_under
top_table = refl

set_table : holds_under (λ b. bit_or b 0x80 == b % 128 + 128) 256 ≡ true
unfolding holds_under
set_table = refl

pub bit_and-low : (b : ℕ) → b < 256 → bit_and b 0x7f ≡ b % 128
bit_and-low b h = (==_iff _ _).0 (holds_under-lt _ 256 b h low_table)

pub bit_and-top : (b : ℕ) → b < 256 → bit_and b 0x80 ≡ b / 128 * 128
bit_and-top b h = (==_iff _ _).0 (holds_under-lt _ 256 b h top_table)

pub bit_or-top : (b : ℕ) → b < 256 → bit_or b 0x80 ≡ b % 128 + 128
bit_or-top b h = (==_iff _ _).0 (holds_under-lt _ 256 b h set_table)

abbrev or_digits : ℕ → ℕ → ℕ → ℕ
or_digits n a b = digits (λ b. b) max n a b

double_shift : (b s : ℕ) → b * 2 ^ suc s ≡ b * 2 ^ s * 2
double_shift b s = rw pow-suc (omega arith)

or_digits_disjoint : (n s a b : ℕ) → a < 2 ^ s → a ≤ n → or_digits n a (b * 2 ^ s) ≡ a + b * 2 ^ s
or_digits_disjoint zero s zero b h k = omega arith
or_digits_disjoint zero s (suc a) b h k = absurd (omega arith)
or_digits_disjoint (suc n) s zero b h k = omega arith
or_digits_disjoint (suc n) zero (suc a) b h k = absurd (omega arith)
or_digits_disjoint (suc n) (suc s) (suc a) b h k =
    let e = double_shift b s in
    let half : b * 2 ^ suc s / 2 ≡ b * 2 ^ s = omega arith in
    let even : b * 2 ^ suc s % 2 ≡ 0 = omega arith in
    let small : suc a < 2 ^ s * 2 = rw pow-suc at h in
    rw (half, even)
      (omega (arith, e, or_digits_disjoint n s (suc a / 2) b (omega arith) (omega arith)))

-- Bits below `s` and a number shifted to `s` have no bit in common: or is a sum.
pub bit_or-shifted : (s a b : ℕ) → a < 2 ^ s → bit_or a (b * 2 ^ s) ≡ a + b * 2 ^ s
bit_or-shifted s a b h = rw bit_or-bitwise (or_digits_disjoint a s a b h (omega arith))
