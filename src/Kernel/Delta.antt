-- ===== src/Kernel/Delta.antt =====
-- `delta` of hume-kernel/src/compression.rs. An i64 is its 64-bit pattern, on which the casts from and
-- to u64 do nothing.
use crates.Prelude.{ℕ, ◌+◌, ◌-◌, ◌%◌, ◌^◌, ◌<◌, ◌≡◌, refl, ap, arith, List, [], ◌∷◌, All}

unfoldable pub wrapping_sub : ℕ → ℕ → ℕ
wrapping_sub a b = (a + (2 ^ 64 - b)) % 2 ^ 64

unfoldable pub wrapping_add : ℕ → ℕ → ℕ
wrapping_add a b = (a + b) % 2 ^ 64

-- The rounds after the first, from the value before.
unfoldable pub encode_after : ℕ → List ℕ → List ℕ
unfolding wrapping_sub
encode_after prev [] = []
encode_after prev (v ∷ values) = wrapping_sub v prev ∷ encode_after v values

unfoldable pub encode : List ℕ → List ℕ
unfolding encode_after
encode [] = []
encode (v ∷ values) = v ∷ encode_after v values

unfoldable pub decode_after : ℕ → List ℕ → List ℕ
unfolding wrapping_add
decode_after acc [] = []
decode_after acc (d ∷ deltas) = wrapping_add acc d ∷ decode_after (wrapping_add acc d) deltas

unfoldable pub decode : List ℕ → List ℕ
unfolding decode_after
decode [] = []
decode (d ∷ deltas) = d ∷ decode_after d deltas

abbrev pub IsWord : ℕ → Type 0
IsWord v = v < 2 ^ 64

add_back : (v prev : ℕ) → IsWord v → IsWord prev → wrapping_add prev (wrapping_sub v prev) ≡ v
unfolding wrapping_add wrapping_sub
add_back v prev h k = omega arith

decode_after-encode_after :
    (prev : ℕ) (values : List ℕ)
    → IsWord prev
    → All IsWord values
    → decode_after prev (encode_after prev values) ≡ values
unfolding decode_after encode_after
decode_after-encode_after prev [] p h = refl
decode_after-encode_after prev (v ∷ values) p (k, h) =
    rw (add_back v prev k p) (ap (λ zs. v ∷ zs) (decode_after-encode_after v values k h))

-- Every column of u64 comes back from its differences, decreasing ones and the extremes included.
pub decode-encode_deltas : (values : List ℕ) → All IsWord values → decode (encode values) ≡ values
unfolding decode encode
decode-encode_deltas [] h = refl
decode-encode_deltas (v ∷ values) (k, h) =
    ap (λ zs. v ∷ zs) (decode_after-encode_after v values k h)
