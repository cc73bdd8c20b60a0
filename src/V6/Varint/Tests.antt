-- ===== src/V6/Varint/Tests.antt =====
-- The codec of varint.rs at concrete inputs, and the theorems at inputs that meet their hypotheses.
use crates.Prelude.{◌≡◌, refl, arith, [], ◌∷◌, ◌++◌, replicate}
use crates.Prelude.{take}
use crates.V6.Error.{ok, err, corrupt, varint_overflow, varint_non_canonical, varint_truncated}
use crates.V6.Varint.{IsU64, varint_len, put_varint, read_varint}
use crates.V6.Varint.RoundTrip.{read-put_varint, read_varint_truncated}
use crates.V6.Varint.Canonical.{put_varint-read}

put_300 : put_varint [] 300 ≡ 0xac ∷ 0x02 ∷ []
unfolding put_varint
put_300 = refl

long_form_refused : read_varint (0x81 ∷ 0x00 ∷ []) "t" ≡ err (corrupt "t" varint_non_canonical)
unfolding read_varint
long_form_refused = refl

overflow_refused :
    read_varint (replicate 9 0xff ++ (0x02 ∷ [])) "t" ≡ err (corrupt "t" varint_overflow)
unfolding read_varint
overflow_refused = refl

read_300 : read_varint (0xac ∷ 0x02 ∷ 7 ∷ []) "t" ≡ ok (300, 2)
unfolding read_varint
read_300 = refl

read-put_varint_example : read_varint (put_varint [] 300 ++ (9 ∷ [])) "t" ≡ ok (300, varint_len 300)
read-put_varint_example = read-put_varint "t" 300 (9 ∷ []) (omega arith)

read_varint_truncated_example :
    read_varint (take 1 (put_varint [] 300)) "t" ≡ err (corrupt "t" varint_truncated)
unfolding varint_len
read_varint_truncated_example = read_varint_truncated "t" 300 1 (omega arith) (omega arith)

put_varint-read_example :
    IsU64 300 × (put_varint [] 300 ≡ take 2 (0xac ∷ 0x02 ∷ 7 ∷ [])) × (2 ≡ varint_len 300)
put_varint-read_example = put_varint-read "t" (0xac ∷ 0x02 ∷ 7 ∷ []) 300 2 (omega arith) read_300
