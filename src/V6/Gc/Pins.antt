-- ===== src/V6/Gc/Pins.antt =====
-- `PinRegistry`: the readers of a generation, and what they keep out of a plan.
use crates.Prelude.{ℕ, ◌-◌, ◌%◌, ◌^◌, ◌+◌, ◌≡◌, ◌<◌, inl, inr, arith, ap, true}
use crates.Prelude.{[], ◌∷◌, Bool-cases, All}
use crates.Prelude.Search.{any, modify_first}
use crates.V6.Pins.{Pin, PinRegistry, is_key, pin, unpin}

abbrev add_reader : Pin → Pin
add_reader p = record p { readers = (p.readers + 1) % 2 ^ 32 }

-- A registry as the guards leave it: no entry is empty or about to wrap.
abbrev pub IsHeld : PinRegistry → Type 0
IsHeld = All (λ p. (0 < p.readers) × (p.readers + 1 < 2 ^ 32))

back_again : (n : ℕ) → n + 1 < 2 ^ 32 → (n + 1) % 2 ^ 32 - 1 ≡ n
back_again n b = omega arith

unpin-add_reader :
    (id n : ℕ) (p : Pin) (pins : PinRegistry)
    → 0 < p.readers
    → p.readers + 1 < 2 ^ 32
    → is_key id n p ≡ true
    → unpin (add_reader p ∷ pins) id n ≡ p ∷ pins
unfolding unpin
unpin-add_reader id n p pins r b t =
    let back = back_again p.readers b in
    ground (arith, t, back, ap (λ k. record p { readers = k }) back)

unpin-modified :
    (id n : ℕ) (pins : PinRegistry)
    → IsHeld pins
    → any (is_key id n) pins ≡ true
    → unpin (modify_first (is_key id n) add_reader pins) id n ≡ pins
unfolding any modify_first unpin
unpin-modified id n [] a h = absurd (cc)
unpin-modified id n (p ∷ pins) ((r, b), a) h = elim (Bool-cases (is_key id n p)) [
  | inl t ↦ rw t (unpin-add_reader id n p pins r b t)
  | inr f ↦ ground (arith, f, unpin-modified id n pins a)
]

-- A reader that comes and goes leaves the registry as it was.
pub unpin-pin : (pins : PinRegistry) (id n : ℕ) → IsHeld pins → unpin (pin pins id n) id n ≡ pins
unfolding pin unpin
unpin-pin pins id n a = elim (Bool-cases (any (is_key id n) pins)) [
  | inl t ↦ rw (t, pin) (unpin-modified id n pins a t)
  | inr f ↦ ground (arith, f)
]
