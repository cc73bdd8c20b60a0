-- ===== src/V6/Varint.antt =====
-- heraclitus-log/src/v6/varint.rs: the canonical ULEB128 of the v6 format. A `u64` is a number below
-- 2 ^ 64, a byte buffer a list of numbers below 256; `v as u8` is `v % 256` and `v >> 7` is `v / 128`.
pub mod Encode
pub mod Decode
pub mod RoundTrip
pub mod Canonical
mod Tests
use crates.Prelude.{ℕ, zero, suc, ◌+◌, ◌*◌, ◌/◌, ◌%◌, ◌^◌, ◌≤◌, ◌<◌, bit_and, bit_or, String, arith}
use crates.Prelude.{List, [], ◌∷◌, ◌++◌, Option, none, some, Bool, true, ◌&&◌}
use crates.Prelude.{ltb, leb, ◌==◌, if◌then◌else◌, length, take, set}
use crates.Prelude.Order.{lt_wf}
use crates.V6.Error.{V6Result, ok, err, ◌>>=◌, corrupt, varint_overflow, varint_non_canonical}
use crates.V6.Error.{varint_too_long, varint_truncated, varint_exceeds_usize}
use mathlib.Core.Logic.{dite}
use mathlib.Core.Option
use mathlib.Core.WellFounded.{Acc}
use native.Mathlib.Decide.{dec_le}

abbrev pub IsU64 : ℕ → Type 0
IsU64 v = v < 2 ^ 64

abbrev pub max_varint_len : ℕ
max_varint_len = 10

pub shift_smaller : (v : ℕ) → 0x80 ≤ v → v / 128 < v
shift_smaller v h = omega arith

-- The loop variables of `varint_len` are `n` and `v`.
len_loop : ℕ → (v : ℕ) → Acc ◌<◌ v → ℕ
len_loop n v (Acc.intro _ smaller) =
    dite (dec_le 0x80 v) (λ h. len_loop (n + 1) (v / 128) (smaller _ (shift_smaller v h))) (λ _. n)

unfoldable pub varint_len : ℕ → ℕ
unfolding len_loop lt_wf dec_le
varint_len v = len_loop 1 v (lt_wf.apply v)

put_loop : List ℕ → (v : ℕ) → Acc ◌<◌ v → List ℕ
put_loop out v (Acc.intro _ smaller) =
    dite (dec_le 0x80 v)
      (λ h.
        put_loop (out ++ (bit_or (v % 256) 0x80 ∷ [])) (v / 128) (smaller _ (shift_smaller v h)))
      (λ _. out ++ ((v % 256) ∷ []))

unfoldable pub put_varint : List ℕ → ℕ → List ℕ
unfolding put_loop lt_wf dec_le
put_varint out v = put_loop out v (lt_wf.apply v)

-- `buf[n] = b`, which panics out of bounds: `none`.
store : List ℕ → ℕ → ℕ → Option (List ℕ)
store buf n b = if ltb n (length buf) then some (set buf n b) else none

into_loop : List ℕ → ℕ → (v : ℕ) → Acc ◌<◌ v → Option (List ℕ × ℕ)
into_loop buf n v (Acc.intro _ smaller) =
    dite (dec_le 0x80 v)
      (λ h. elim (store buf n (bit_or (v % 256) 0x80)) [
        | none ↦ none
        | some buf' ↦ into_loop buf' (n + 1) (v / 128) (smaller _ (shift_smaller v h))
      ])
      (λ _. Option.map (λ buf'. (buf', n + 1)) (store buf n (v % 256)))

unfoldable pub encode_varint_into : List ℕ → ℕ → Option (List ℕ × ℕ)
unfolding into_loop store lt_wf dec_le
encode_varint_into buf v = into_loop buf 0 v (lt_wf.apply v)

-- `len` is the length of the whole buffer, which the code after the loop tests.
unfoldable pub read_loop : String → ℕ → List ℕ → ℕ → ℕ → ℕ → V6Result (ℕ × ℕ)
read_loop ctx len [] i result shift =
    err (corrupt ctx (if leb max_varint_len len then varint_too_long else varint_truncated))
read_loop ctx len (byte ∷ rest) i result shift =
    let payload = bit_and byte 0x7f in
    let result' = bit_or result (payload * 2 ^ shift % 2 ^ 64) in
    let more = read_loop ctx len rest (i + 1) result' (shift + 7) in
    if shift == 63 && ltb 1 payload
    then err (corrupt ctx varint_overflow)
    else if bit_and byte 0x80 == 0
    then (if ltb 0 i && byte == 0
        then err (corrupt ctx varint_non_canonical)
        else ok (result', i + 1))
    else more

unfoldable pub read_varint : List ℕ → String → V6Result (ℕ × ℕ)
unfolding read_loop
read_varint buf ctx = read_loop ctx (length buf) (take max_varint_len buf) 0 0 0

-- `usize` is as wide as the platform makes it.
unfoldable pub read_varint_usize : ℕ → List ℕ → String → V6Result (ℕ × ℕ)
unfolding read_varint
read_varint_usize usize_bits buf ctx = do
  (v, n) ← read_varint buf ctx
  if ltb v (2 ^ usize_bits) then ok (v, n) else err (corrupt ctx varint_exceeds_usize)
