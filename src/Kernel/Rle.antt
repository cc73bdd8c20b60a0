-- ===== src/Kernel/Rle.antt =====
-- `rle` of hume-kernel/src/compression.rs: runs of a value with their lengths, which are u32
-- and wrap around, as in a build without overflow checks.
use crates.Prelude.{
  ℕ, zero, suc, ◌+◌, ◌%◌, ◌^◌, ◌<◌, ◌≡◌, refl, sym, ap, ◌∙◌, arith, ◌==◌, if◌then◌else◌,
}
use crates.Prelude.{inl, inr, Bool-cases, List, [], ◌∷◌, ◌++◌, replicate, length}
use crates.Prelude.{append_assoc, append-nil, length-append, length-replicate, ◌≢◌}

-- A round of the loop: the last run grows, or a new one begins.
unfoldable pub extend_runs : List (ℕ × ℕ) → ℕ → List (ℕ × ℕ)
extend_runs [] v = (v, 1) ∷ []
extend_runs ((val, count) ∷ []) v =
    if val == v then (val, (count + 1) % 2 ^ 32) ∷ [] else (val, count) ∷ (v, 1) ∷ []
extend_runs (run ∷ next ∷ runs) v = run ∷ extend_runs (next ∷ runs) v

unfoldable pub encode_from : List (ℕ × ℕ) → List ℕ → List (ℕ × ℕ)
unfolding extend_runs
encode_from out [] = out
encode_from out (v ∷ values) = encode_from (extend_runs out v) values

unfoldable pub encode : List ℕ → List (ℕ × ℕ)
unfolding encode_from
encode values = encode_from [] values

unfoldable pub decode : List (ℕ × ℕ) → List ℕ
decode [] = []
decode ((v, c) ∷ runs) = replicate c v ++ decode runs

replicate-snoc : (n v : ℕ) → replicate (suc n) v ≡ replicate n v ++ (v ∷ [])
replicate-snoc zero v = refl
replicate-snoc (suc n) v = ap (λ zs. v ∷ zs) (replicate-snoc n v)

longer_run : (c v : ℕ) → c + 1 < 2 ^ 32 → replicate ((c + 1) % 2 ^ 32) v ≡ replicate c v ++ (v ∷ [])
longer_run c v h =
    let e : (c + 1) % 2 ^ 32 ≡ suc c = omega arith in
    ap (λ (k : ℕ). replicate k v) e ∙ replicate-snoc c v

-- A run more, or a longer last one, carries the value more.
decode-extend_runs :
    (runs : List (ℕ × ℕ)) (v : ℕ)
    → length (decode runs) + 1 < 2 ^ 32
    → decode (extend_runs runs v) ≡ decode runs ++ (v ∷ [])
unfolding decode extend_runs
decode-extend_runs [] v h = refl
decode-extend_runs ((val, c) ∷ []) v h =
    let l : c + 1 < 2 ^ 32 =
      omega (arith, length-append (replicate c val) [], length-replicate c val) in
    elim (Bool-cases (val == v)) [
      | inl e ↦
          let q : val ≡ v = ground arith in
          rw e (
            append-nil (replicate ((c + 1) % 2 ^ 32) val)
            ∙ longer_run c val l
            ∙ ap (λ (x : ℕ). replicate c val ++ (x ∷ [])) q
            ∙ ap (λ zs. zs ++ (v ∷ [])) (sym (append-nil (replicate c val))))
      | inr e ↦ rw e (ap (λ zs. zs ++ (v ∷ [])) (sym (append-nil (replicate c val))))
    ]
decode-extend_runs ((val, c) ∷ next ∷ runs) v h =
    let l = length-append (replicate c val) (decode (next ∷ runs)) in
    rw (decode-extend_runs (next ∷ runs) v (omega arith))
      (sym (append_assoc (replicate c val) (decode (next ∷ runs)) (v ∷ [])))

decode-encode_from :
    (runs : List (ℕ × ℕ)) (values : List ℕ)
    → length (decode runs) + length values < 2 ^ 32
    → decode (encode_from runs values) ≡ decode runs ++ values
unfolding encode_from
decode-encode_from runs [] h = sym (append-nil (decode runs))
decode-encode_from runs (v ∷ values) h =
    let d = decode-extend_runs runs v (omega arith) in
    let l = length-append (decode runs) (v ∷ []) in
    decode-encode_from (extend_runs runs v) values (omega (arith, ap length d))
    ∙ rw d (append_assoc (decode runs) (v ∷ []) values)

abbrev IsUnlike : ℕ → List (ℕ × ℕ) → Type 0
IsUnlike v [] = Unit
IsUnlike v ((w, d) ∷ runs) = v ≢ w

-- Two runs that follow each other have different values, and no run is empty.
abbrev pub IsMaximal : List (ℕ × ℕ) → Type 0
IsMaximal [] = Unit
IsMaximal ((v, c) ∷ runs) = (0 < c) × IsUnlike v runs × IsMaximal runs

IsUnlike-extend_runs :
    (x w d v : ℕ) (runs : List (ℕ × ℕ)) → x ≢ w → IsUnlike x (extend_runs ((w, d) ∷ runs) v)
unfolding extend_runs
IsUnlike-extend_runs x w d v [] h = elim (Bool-cases (w == v)) [ inl e ↦ rw e h | inr e ↦ rw e h ]
IsUnlike-extend_runs x w d v (run ∷ runs) h = h

extend_runs-IsMaximal :
    (runs : List (ℕ × ℕ)) (v : ℕ)
    → length (decode runs) + 1 < 2 ^ 32
    → IsMaximal runs
    → IsMaximal (extend_runs runs v)
unfolding extend_runs decode
extend_runs-IsMaximal [] v h m = (omega arith, tt, tt)
extend_runs-IsMaximal ((val, c) ∷ []) v h (p, q, m) =
    let l : c + 1 < 2 ^ 32 =
      omega (arith, length-append (replicate c val) [], length-replicate c val) in
    elim (Bool-cases (val == v)) [
      | inl e ↦ rw e (omega arith, tt, tt)
      | inr e ↦ rw e (p, (λ (q : val ≡ v). absurd (ground arith)), (omega arith, tt, tt))
    ]
extend_runs-IsMaximal ((val, c) ∷ (w, d) ∷ runs) v h (p, q, m) =
    let l = length-append (replicate c val) (decode ((w, d) ∷ runs)) in
    (
      p,
      IsUnlike-extend_runs val w d v runs q,
      extend_runs-IsMaximal ((w, d) ∷ runs) v (omega arith) m,
    )

encode_from-IsMaximal :
    (runs : List (ℕ × ℕ)) (values : List ℕ)
    → length (decode runs) + length values < 2 ^ 32
    → IsMaximal runs
    → IsMaximal (encode_from runs values)
unfolding encode_from
encode_from-IsMaximal runs [] h m = m
encode_from-IsMaximal runs (v ∷ values) h m =
    let d = decode-extend_runs runs v (omega arith) in
    let l = length-append (decode runs) (v ∷ []) in
    encode_from-IsMaximal (extend_runs runs v) values (omega (arith, ap length d))
      (extend_runs-IsMaximal runs v (omega arith) m)

-- A column of fewer than 2 ^ 32 values comes back from its runs, and the runs are as long as they can
-- be: none is empty, and neighbours have different values.
pub decode-encode_runs :
    (values : List ℕ)
    → length values < 2 ^ 32
    → (decode (encode values) ≡ values) × IsMaximal (encode values)
unfolding encode decode
decode-encode_runs values h =
    (decode-encode_from [] values (omega arith), encode_from-IsMaximal [] values (omega arith) tt)
