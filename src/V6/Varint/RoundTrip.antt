-- ===== src/V6/Varint/RoundTrip.antt =====
-- Reading back what the writers of varint.rs wrote.
use crates.Prelude.{ℕ, zero, suc, ◌+◌, ◌*◌, ◌-◌, ◌/◌, ◌%◌, ◌^◌, ◌≤◌, ◌<◌, ◌≡◌, ap, arith, String}
use crates.Prelude.{List, [], ◌∷◌, ◌++◌, length, take}
use crates.Prelude.{length-take, take_all}
use crates.V6.Error.{ok, err, corrupt, varint_truncated}
use crates.V6.Varint.{IsU64, read_loop, read_varint, put_varint, varint_len}
use crates.V6.Varint.Encode.{groups, put_varint-groups, length-groups, varint_len-groups}
use crates.V6.Varint.Decode.{last_byte, inner_byte, regroup, next_below}

-- `w` is what is still to be read, and it counts from bit `shift` on.
read_loop-groups :
    (ctx : String) (len : ℕ) (rest : List ℕ) (k w i result shift : ℕ)
    → w < 128 ^ suc k
    → result < 2 ^ shift
    → result + w * 2 ^ shift < 2 ^ 64
    → (0 < i → 0 < w)
    → read_loop ctx len (groups k w ++ rest) i result shift
      ≡ ok (result + w * 2 ^ shift, i + length (groups k w))
unfolding groups
read_loop-groups ctx len rest zero w i result shift hw hr fits pos =
    last_byte ctx len w rest i result shift hw hr (omega arith) pos
read_loop-groups ctx len rest (suc k) w i result shift hw hr fits pos = ground (
  arith,
  last_byte ctx len w rest i result shift,
  regroup shift w,
  next_below result (w % 128) shift,
  inner_byte ctx len (w % 128) (groups k (w / 128) ++ rest) i result shift,
  read_loop-groups ctx len rest k (w / 128) (i + 1) (result + w % 128 * 2 ^ shift) (shift + 7),
)

take-append_short {ℓ} :
    {A : Type ℓ} (n : ℕ) (xs ys : List A)
    → length xs ≤ n
    → take n (xs ++ ys) ≡ xs ++ take (n - length xs) ys
take-append_short n [] ys h = let e : n - 0 ≡ n = omega arith in rw e
take-append_short zero (x ∷ xs) ys h = absurd (omega arith)
take-append_short (suc n) (x ∷ xs) ys h =
    let e : suc n - suc (length xs) ≡ n - length xs = omega arith in
    rw e (ap (λ zs. x ∷ zs) (take-append_short n xs ys (omega arith)))

-- `read_varint` reads back the u64 that `put_varint` wrote, whatever follows it, and says that it
-- consumed `varint_len` bytes.
pub read-put_varint :
    (ctx : String) (v : ℕ) (rest : List ℕ)
    → IsU64 v
    → read_varint (put_varint [] v ++ rest) ctx ≡ ok (v, varint_len v)
unfolding read_varint
read-put_varint ctx v rest h =
    rw (put_varint-groups [] v h, varint_len-groups v h)
      (rw (take-append_short 10 (groups 9 v) rest (length-groups 9 v).1) (
        ground (
          arith,
          read_loop-groups ctx (length (groups 9 v ++ rest)) (take (10 - length (groups 9 v)) rest)
              9 v 0 0 0,
        )))

-- A cut through the groups leaves only bytes with the continuation bit.
read_loop_cut :
    (ctx : String) (len k w n i result shift : ℕ)
    → n < length (groups k w)
    → w < 128 ^ suc k
    → result < 2 ^ shift
    → result + w * 2 ^ shift < 2 ^ 64
    → len < 10
    → read_loop ctx len (take n (groups k w)) i result shift ≡ err (corrupt ctx varint_truncated)
unfolding read_loop groups
read_loop_cut ctx len k w zero i result shift hn hw hr fits hl = ground arith
read_loop_cut ctx len zero w (suc n) i result shift hn hw hr fits hl = absurd (omega arith)
read_loop_cut ctx len (suc k) w (suc n) i result shift hn hw hr fits hl = ground (
  arith,
  regroup shift w,
  next_below result (w % 128) shift,
  inner_byte ctx len (w % 128) (take n (groups k (w / 128))) i result shift,
  read_loop_cut ctx len k (w / 128) n (i + 1) (result + w % 128 * 2 ^ shift) (shift + 7),
)

-- Every proper prefix of what `put_varint` wrote is refused as truncated.
pub read_varint_truncated :
    (ctx : String) (v n : ℕ)
    → IsU64 v
    → n < varint_len v
    → read_varint (take n (put_varint [] v)) ctx ≡ err (corrupt ctx varint_truncated)
unfolding read_varint
read_varint_truncated ctx v n h lt = rw (put_varint-groups [] v h) (
    rw (take_all 10 (take n (groups 9 v)) (omega (arith, short)))
      (ground (arith, short, read_loop_cut ctx (length (take n (groups 9 v))) 9 v n 0 0 0)))
  where
    short : (length (take n (groups 9 v)) < 10) × (n < length (groups 9 v))
    short = omega (arith, varint_len-groups v h, length-take n (groups 9 v), length-groups 9 v)
