-- ===== src/Prelude/Xor.antt =====
-- `^` and `&` of unsigned integers, digit by digit.
use Prim.Native.Nat.{ℕ, zero, suc, ◌+◌, ◌*◌, ◌/◌, ◌%◌, ◌^◌, ◌≤◌, ◌<◌, min}
use Prim.Native.Nat.{bit_and, bit_xor, digits, differ, bit_and-bitwise, bit_xor-bitwise}
use mathlib.Core.Path.{◌≡◌, refl, sym, ap, ◌∙◌}
use native.Mathlib.Omega.{arith}
use native.Mathlib.Nat.{pow-suc}

abbrev xor_digits : ℕ → ℕ → ℕ → ℕ
xor_digits n a b = digits (λ b. b) differ n a b

abbrev and_digits : ℕ → ℕ → ℕ → ℕ
and_digits n a b = digits (λ b. 0) min n a b

xor_fuel : (m n a b : ℕ) → a ≤ m → a ≤ n → xor_digits m a b ≡ xor_digits n a b
xor_fuel zero zero zero b h k = refl
xor_fuel zero (suc n) zero b h k = refl
xor_fuel (suc m) zero zero b h k = refl
xor_fuel (suc m) (suc n) zero b h k = refl
xor_fuel zero n (suc a) b h k = absurd (omega arith)
xor_fuel (suc m) zero (suc a) b h k = absurd (omega arith)
xor_fuel (suc m) (suc n) (suc a) b h k =
    rw (xor_fuel m n (suc a / 2) (b / 2) (omega arith) (omega arith)) refl

and_fuel : (m n a b : ℕ) → a ≤ m → a ≤ n → and_digits m a b ≡ and_digits n a b
and_fuel zero zero zero b h k = refl
and_fuel zero (suc n) zero b h k = refl
and_fuel (suc m) zero zero b h k = refl
and_fuel (suc m) (suc n) zero b h k = refl
and_fuel zero n (suc a) b h k = absurd (omega arith)
and_fuel (suc m) zero (suc a) b h k = absurd (omega arith)
and_fuel (suc m) (suc n) (suc a) b h k =
    rw (and_fuel m n (suc a / 2) (b / 2) (omega arith) (omega arith)) refl

differ_bits : (x y : ℕ) → x < 2 → y < 2 → differ x y ≡ (x + y) % 2
differ_bits zero zero h k = refl
differ_bits zero (suc zero) h k = refl
differ_bits (suc zero) zero h k = refl
differ_bits (suc zero) (suc zero) h k = refl
differ_bits (suc (suc x)) y h k = absurd (omega arith)
differ_bits zero (suc (suc y)) h k = absurd (omega arith)
differ_bits (suc zero) (suc (suc y)) h k = absurd (omega arith)

pub bit_xor-zero : (b : ℕ) → bit_xor 0 b ≡ b
bit_xor-zero b = rw bit_xor-bitwise refl

pub bit_and-zero_left : (b : ℕ) → bit_and 0 b ≡ 0
bit_and-zero_left b = rw bit_and-bitwise refl

pub bit_xor-halves : (a b : ℕ) → bit_xor a b ≡ bit_xor (a / 2) (b / 2) * 2 + (a + b) % 2
bit_xor-halves zero b =
    let e : bit_xor (0 / 2) (b / 2) ≡ b / 2 = bit_xor-zero (b / 2) in
    omega (arith, bit_xor-zero b, e)
bit_xor-halves (suc a) b =
    let f = xor_fuel a (suc a / 2) (suc a / 2) (b / 2) (omega arith) (omega arith) in
    let d = differ_bits (suc a % 2) (b % 2) (omega arith) (omega arith) in
    let e : bit_xor (suc a / 2) (b / 2) ≡ xor_digits (suc a / 2) (suc a / 2) (b / 2) =
      rw bit_xor-bitwise refl in
    rw bit_xor-bitwise (rw f (rw d (omega (arith, e))))

pub bit_and-halves : (a b : ℕ) → bit_and a b ≡ bit_and (a / 2) (b / 2) * 2 + min (a % 2) (b % 2)
bit_and-halves zero b =
    let e : bit_and (0 / 2) (b / 2) ≡ 0 = bit_and-zero_left (b / 2) in
    omega (arith, bit_and-zero_left b, e)
bit_and-halves (suc a) b =
    let f = and_fuel a (suc a / 2) (suc a / 2) (b / 2) (omega arith) (omega arith) in
    let e : bit_and (suc a / 2) (b / 2) ≡ and_digits (suc a / 2) (suc a / 2) (b / 2) =
      rw bit_and-bitwise refl in
    rw bit_and-bitwise (rw f (omega (arith, e)))

pub bit_xor-div : (a b : ℕ) → bit_xor a b / 2 ≡ bit_xor (a / 2) (b / 2)
bit_xor-div a b = omega (arith, bit_xor-halves a b)

pub bit_xor-mod : (a b : ℕ) → bit_xor a b % 2 ≡ (a + b) % 2
bit_xor-mod a b = omega (arith, bit_xor-halves a b)

same_halves : (x y : ℕ) → x / 2 ≡ y / 2 → x % 2 ≡ y % 2 → x ≡ y
same_halves x y h k = omega arith

comm_below : (n a b : ℕ) → a ≤ n → b ≤ n → bit_xor a b ≡ bit_xor b a
comm_below zero zero zero h k = refl
comm_below zero (suc a) b h k = absurd (omega arith)
comm_below zero zero (suc b) h k = absurd (omega arith)
comm_below (suc n) a b h k =
    same_halves _ _
      (bit_xor-div a b
        ∙ comm_below n (a / 2) (b / 2) (omega arith) (omega arith)
        ∙ sym (bit_xor-div b a))
      (omega (arith, bit_xor-mod a b, bit_xor-mod b a))

pub bit_xor_comm : (a b : ℕ) → bit_xor a b ≡ bit_xor b a
bit_xor_comm a b = comm_below (a + b) a b (omega arith) (omega arith)

assoc_below :
    (n a b c : ℕ) → a ≤ n → b ≤ n → c ≤ n → bit_xor (bit_xor a b) c ≡ bit_xor a (bit_xor b c)
assoc_below zero zero zero zero h k l = refl
assoc_below zero (suc a) b c h k l = absurd (omega arith)
assoc_below zero zero (suc b) c h k l = absurd (omega arith)
assoc_below zero zero zero (suc c) h k l = absurd (omega arith)
assoc_below (suc n) a b c h k l =
    same_halves _ _
      (bit_xor-div (bit_xor a b) c
        ∙ ap (λ (x : ℕ). bit_xor x (c / 2)) (bit_xor-div a b)
        ∙ assoc_below n (a / 2) (b / 2) (c / 2) (omega arith) (omega arith) (omega arith)
        ∙ ap (bit_xor (a / 2)) (sym (bit_xor-div b c))
        ∙ sym (bit_xor-div a (bit_xor b c)))
      (omega (
        arith,
        bit_xor-mod (bit_xor a b) c,
        bit_xor-mod a b,
        bit_xor-mod a (bit_xor b c),
        bit_xor-mod b c,
      ))

pub bit_xor_assoc : (a b c : ℕ) → bit_xor (bit_xor a b) c ≡ bit_xor a (bit_xor b c)
bit_xor_assoc a b c = assoc_below (a + b + c) a b c (omega arith) (omega arith) (omega arith)

self_below : (n a : ℕ) → a ≤ n → bit_xor a a ≡ 0
self_below zero zero h = refl
self_below zero (suc a) h = absurd (omega arith)
self_below (suc n) a h = omega (arith, bit_xor-halves a a, self_below n (a / 2) (omega arith))

pub bit_xor_self : (a : ℕ) → bit_xor a a ≡ 0
bit_xor_self a = self_below a a (omega arith)

-- Of two numbers of `k` bits the exclusive or has `k` bits.
pub bit_xor-lt : (k a b : ℕ) → a < 2 ^ k → b < 2 ^ k → bit_xor a b < 2 ^ k
bit_xor-lt zero a b h i = let e : a ≡ 0 = omega arith in rw e (rw (bit_xor-zero b) i)
bit_xor-lt (suc k) a b h i =
    let p = pow-suc 2 k in
    let ih = bit_xor-lt k (a / 2) (b / 2) (omega (arith, p, h)) (omega (arith, p, i)) in
    omega (arith, p, ih, bit_xor-halves a b)

-- Low bits and a number shifted above them.
pub bit_xor-shifted : (k h l : ℕ) → l < 2 ^ k → bit_xor (h * 2 ^ k) l ≡ h * 2 ^ k + l
bit_xor-shifted zero h l lt =
    let e : l ≡ 0 = omega arith in
    rw e (bit_xor_comm (h * 2 ^ 0) 0 ∙ bit_xor-zero (h * 2 ^ 0) ∙ omega arith)
bit_xor-shifted (suc k) h l lt =
    let p = pow-suc 2 k in
    let even : h * 2 ^ suc k ≡ h * 2 ^ k * 2 = rw p (omega arith) in
    let half : h * 2 ^ suc k / 2 ≡ h * 2 ^ k = omega (arith, even) in
    let ih = bit_xor-shifted k h (l / 2) (omega (arith, p, lt)) in
    bit_xor-halves (h * 2 ^ suc k) l ∙ rw half (omega (arith, ih, even))

and_zero_below : (n a : ℕ) → a ≤ n → bit_and a 0 ≡ 0
and_zero_below zero zero h = bit_and-zero_left 0
and_zero_below zero (suc a) h = absurd (omega arith)
and_zero_below (suc n) a h =
    let ih : bit_and (a / 2) (0 / 2) ≡ 0 = and_zero_below n (a / 2) (omega arith) in
    omega (arith, bit_and-halves a 0, ih)

pub bit_and-zero : (a : ℕ) → bit_and a 0 ≡ 0
bit_and-zero a = and_zero_below a a (omega arith)

pub bit_and-one : (a : ℕ) → bit_and a 1 ≡ a % 2
bit_and-one a =
    let e : bit_and a 1 ≡ bit_and (a / 2) 0 * 2 + min (a % 2) 1 = bit_and-halves a 1 in
    omega (arith, e, bit_and-zero (a / 2))

-- The mask of one bit more.
wider :
    (m k a : ℕ) → ((x : ℕ) → bit_and x m ≡ x % k) → bit_and a (m * 2 + 1) ≡ a / 2 % k * 2 + a % 2
wider m k a h =
    let e : bit_and (a / 2) ((m * 2 + 1) / 2) ≡ a / 2 % k =
      ap (bit_and (a / 2)) (omega arith) ∙ h (a / 2) in
    omega (arith, bit_and-halves a (m * 2 + 1), e)

pub bit_and-byte : (a : ℕ) → bit_and a 0xFF ≡ a % 256
bit_and-byte a = wider 127 128 a (λ x. seven x) ∙ omega arith
  where
    two : (x : ℕ) → bit_and x 3 ≡ x % 4
    two x = wider 1 2 x bit_and-one ∙ omega arith

    three : (x : ℕ) → bit_and x 7 ≡ x % 8
    three x = wider 3 4 x two ∙ omega arith

    four : (x : ℕ) → bit_and x 15 ≡ x % 16
    four x = wider 7 8 x three ∙ omega arith

    five : (x : ℕ) → bit_and x 31 ≡ x % 32
    five x = wider 15 16 x four ∙ omega arith

    six : (x : ℕ) → bit_and x 63 ≡ x % 64
    six x = wider 31 32 x five ∙ omega arith

    seven : (x : ℕ) → bit_and x 127 ≡ x % 128
    seven x = wider 63 64 x six ∙ omega arith
