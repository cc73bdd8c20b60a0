-- ===== src/Prelude/Partial.antt =====
-- Code that may panic: `none` is the panic, and the bind of a do block stops at it.

use mathlib.Core.Option.{Option, none, some}

infixl 5 ◌>>=◌
abbrev pub ◌>>=◌ {ℓ κ} : {A : Type ℓ} {B : Type κ} → Option A → (A → Option B) → Option B
none >>= f = none
some a >>= f = f a
