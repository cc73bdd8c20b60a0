-- ===== src/V6/Varint/Encode.antt =====
-- What the writers of varint.rs write, in plain arithmetic.
use crates.Prelude.{ℕ, zero, suc, ◌+◌, ◌/◌, ◌%◌, ◌^◌, ◌≤◌, ◌<◌, ◌≡◌, arith}
use crates.Prelude.{List, [], ◌∷◌, ◌++◌, append_assoc, leb, if◌then◌else◌}
use crates.Prelude.{bit_or, length, All}
use crates.Prelude.{some, drop, refl, ap, set, length-append}
use crates.Prelude.Bits.{IsByte, bit_or-top}
use crates.V6.Varint.{
  IsU64, len_loop, varint_len, put_loop, put_varint, into_loop, store, encode_varint_into,
}
use crates.Prelude.Order.{lt_wf}
use mathlib.Core.WellFounded.{Acc}

-- The groups of seven bits of `v`, lowest first, for `v` below 128 ^ (k + 1).
unfoldable pub groups : ℕ → ℕ → List ℕ
groups zero v = v ∷ []
groups (suc k) v =
    let rest = groups k (v / 128) in if leb 128 v then (v % 128 + 128) ∷ rest else v ∷ []

inner_byte : (v : ℕ) → bit_or (v % 256) 0x80 ≡ v % 128 + 128
inner_byte v = omega (arith, bit_or-top (v % 256))

put_loop-groups :
    (k : ℕ) (out : List ℕ) (v : ℕ) (w : Acc ◌<◌ v)
    → v < 128 ^ suc k
    → put_loop out v w ≡ out ++ groups k v
unfolding put_loop groups
put_loop-groups zero out v (Acc.intro _ smaller) h = ground arith
put_loop-groups (suc k) out v (Acc.intro _ smaller) h = grind (
  arith,
  inner_byte v,
  λ (w : Acc ◌<◌ (v / 128)).
      put_loop-groups k (out ++ ((v % 128 + 128) ∷ [])) (v / 128) w (omega arith),
  append_assoc out ((v % 128 + 128) ∷ []) (groups k (v / 128)),
)

pub put_varint-groups : (out : List ℕ) (v : ℕ) → IsU64 v → put_varint out v ≡ out ++ groups 9 v
unfolding put_varint
put_varint-groups out v h = put_loop-groups 9 out v (lt_wf.apply v) (omega arith)

pub groups-IsByte : (k v : ℕ) → v < 128 ^ suc k → All IsByte (groups k v)
unfolding groups
groups-IsByte zero v h = omega arith
groups-IsByte (suc k) v h = ground (arith, groups-IsByte k (v / 128) (omega arith))

pub length-groups : (k v : ℕ) → (1 ≤ length (groups k v)) × (length (groups k v) ≤ k + 1)
unfolding groups
length-groups zero v = omega arith
length-groups (suc k) v = ground (arith, length-groups k (v / 128))

len_loop-groups :
    (k n v : ℕ) (w : Acc ◌<◌ v) → v < 128 ^ suc k → len_loop n v w + 1 ≡ n + length (groups k v)
unfolding len_loop groups
len_loop-groups zero n v (Acc.intro _ smaller) h = ground arith
len_loop-groups (suc k) n v (Acc.intro _ smaller) h =
    grind (arith, λ (w : Acc ◌<◌ (v / 128)). len_loop-groups k (n + 1) (v / 128) w (omega arith))

pub varint_len-groups : (v : ℕ) → IsU64 v → varint_len v ≡ length (groups 9 v)
unfolding varint_len
varint_len-groups v h = omega (arith, len_loop-groups 9 1 v (lt_wf.apply v) (omega arith))

set_at :
    (front back : List ℕ) (b c : ℕ)
    → set (front ++ (b ∷ back)) (length front) c ≡ front ++ (c ∷ back)
set_at [] back b c = refl
set_at (x ∷ front) back b c = ap (λ zs. x ∷ zs) (set_at front back b c)

store_at :
    (front back : List ℕ) (b c : ℕ)
    → store (front ++ (b ∷ back)) (length front) c ≡ some (front ++ (c ∷ back))
unfolding store
store_at front back b c = ground (arith, set_at front back b c, length-append front (b ∷ back))

-- `v` written into a buffer with room for its groups behind the first `n` bytes.
into_loop-groups :
    (k : ℕ) (front back : List ℕ) (v : ℕ) (w : Acc ◌<◌ v)
    → v < 128 ^ suc k
    → length (groups k v) ≤ length back
    → into_loop (front ++ back) (length front) v w
      ≡ some (
        front ++ (groups k v ++ drop (length (groups k v)) back),
        length front + length (groups k v),
      )
unfolding into_loop groups
into_loop-groups k front [] v w h room = absurd (omega (arith, length-groups k v))
into_loop-groups zero front (b ∷ back) v (Acc.intro _ smaller) h room =
    grind (arith, store_at front back b v)
into_loop-groups (suc k) front (b ∷ back) v (Acc.intro _ smaller) h room = grind (
  arith,
  inner_byte v,
  store_at front back b v,
  store_at front back b (v % 128 + 128),
  λ (w : Acc ◌<◌ (v / 128)).
      into_loop-groups k (front ++ ((v % 128 + 128) ∷ [])) back (v / 128) w (omega arith),
  append_assoc front ((v % 128 + 128) ∷ []) back,
  append_assoc front ((v % 128 + 128) ∷ [])
      (groups k (v / 128) ++ drop (length (groups k (v / 128))) back),
  length-append front ((v % 128 + 128) ∷ []),
)

-- Into a buffer of ten bytes `encode_varint_into` never writes out of bounds, and what it leaves is
-- what `put_varint` writes, in front of the rest of the buffer, with the number of bytes used.
pub encode_varint_into-put_varint :
    (buf : List ℕ) (v : ℕ)
    → length buf ≡ 10
    → IsU64 v
    → encode_varint_into buf v ≡ some (put_varint [] v ++ drop (varint_len v) buf, varint_len v)
unfolding encode_varint_into
encode_varint_into-put_varint buf v hb h =
    rw (put_varint-groups [] v h, varint_len-groups v h)
      (ground (arith, into_loop-groups 9 [] buf v (lt_wf.apply v), length-groups 9 v))

-- `put_varint` keeps what the buffer holds, and appends bytes only, as many as `varint_len` says,
-- from one to ten.
pub put_varint_shape :
    (out : List ℕ) (v : ℕ)
    → IsU64 v
    → (put_varint out v ≡ out ++ put_varint [] v)
      × All IsByte (put_varint [] v)
      × (length (put_varint [] v) ≡ varint_len v)
      × (1 ≤ varint_len v)
      × (varint_len v ≤ 10)
put_varint_shape out v h =
    let (lo, hi) = length-groups 9 v in
    rw (put_varint-groups out v h, put_varint-groups [] v h, varint_len-groups v h)
      (refl, groups-IsByte 9 v (omega arith), refl, lo, hi)
