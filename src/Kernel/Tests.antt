-- ===== src/Kernel/Tests.antt =====
-- The columns of the unit tests of hume-kernel, and the theorems there.
use crates.Prelude.{ℕ, ◌-◌, ◌^◌, ◌≡◌, refl, arith, List, [], ◌∷◌}
use crates.Kernel.Rle as Rle
use crates.Kernel.Delta as Delta

abbrev sample : List ℕ
sample = 7 ∷ 7 ∷ 7 ∷ 3 ∷ 3 ∷ []

runs : Rle.encode sample ≡ (7, 3) ∷ (3, 2) ∷ []
unfolding Rle.encode
runs = refl

differences : Delta.encode (100 ∷ 102 ∷ 101 ∷ []) ≡ 100 ∷ 2 ∷ (2 ^ 64 - 1) ∷ []
unfolding Delta.encode
differences = refl

decode-encode_runs_example :
    (Rle.decode (Rle.encode sample) ≡ sample) × Rle.IsMaximal (Rle.encode sample)
decode-encode_runs_example = Rle.decode-encode_runs sample (omega arith)

decode-encode_deltas_example : Delta.decode (Delta.encode sample) ≡ sample
decode-encode_deltas_example = Delta.decode-encode_deltas sample (omega arith)
