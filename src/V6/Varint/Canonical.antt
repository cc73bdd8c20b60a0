-- ===== src/V6/Varint/Canonical.antt =====
-- One value, one byte sequence: whatever `read_varint` accepts is what `put_varint` writes.
use crates.Prelude.{
  ℕ, zero, suc, ◌+◌, ◌*◌, ◌-◌, ◌/◌, ◌%◌, ◌^◌, ◌≤◌, ◌<◌, ◌≡◌, refl, ap, arith, String,
}
use crates.Prelude.{List, [], ◌∷◌, length, take, ◌∙◌, All}
use crates.Prelude.{length-take, All-take, take-take, sym}
use crates.Prelude.Bits.{IsByte, bit_and-low, bit_and-top}
use crates.V6.Error.{ok}
use crates.V6.Varint.{IsU64, read_loop, read_varint, put_varint, varint_len}
use crates.V6.Varint.Encode.{groups, put_varint-groups, length-groups, varint_len-groups}
use crates.Prelude.{dec_lt}
use mathlib.Core.Path.{subst}
use crates.V6.Varint.Decode.{or_payload, next_below, power_next_group}

-- A group of index `i` on top of the groups below it fits a u64.
group_fits :
    (i p r : ℕ) → i ≤ 9 → p < 128 → (i ≡ 9 → p ≤ 1) → r < 2 ^ (7 * i) → r + p * 2 ^ (7 * i) < 2 ^ 64
group_fits zero p r h k l m = omega arith
group_fits (suc zero) p r h k l m = omega arith
group_fits (suc (suc zero)) p r h k l m = omega arith
group_fits (suc (suc (suc zero))) p r h k l m = omega arith
group_fits (suc (suc (suc (suc zero)))) p r h k l m = omega arith
group_fits (suc (suc (suc (suc (suc zero))))) p r h k l m = omega arith
group_fits (suc (suc (suc (suc (suc (suc zero)))))) p r h k l m = omega arith
group_fits (suc (suc (suc (suc (suc (suc (suc zero))))))) p r h k l m = omega arith
group_fits (suc (suc (suc (suc (suc (suc (suc (suc zero)))))))) p r h k l m = omega arith
group_fits (suc (suc (suc (suc (suc (suc (suc (suc (suc zero))))))))) p r h k l m = omega arith
group_fits (suc (suc (suc (suc (suc (suc (suc (suc (suc (suc i)))))))))) p r h k l m =
    absurd (omega arith)

module _ (ctx : String) (len : ℕ) where
  last_inv :
      (b : ℕ) (rest : List ℕ) (i result v n : ℕ)
      → b < 128
      → i ≤ 9
      → result < 2 ^ (7 * i)
      → read_loop ctx len (b ∷ rest) i result (7 * i) ≡ ok (v, n)
      → (v ≡ result + b * 2 ^ (7 * i)) × (v < 2 ^ 64) × (n ≡ i + 1) × (0 < i → 0 < b)
  unfolding read_loop
  last_inv b rest i result v n hb hi hr h =
      ground
        (arith, bit_and-low b, bit_and-top b, group_fits i b result, or_payload result b (7 * i))

  inner_inv :
      (g : ℕ) (rest : List ℕ) (i result v n : ℕ)
      → g < 128
      → i ≤ 9
      → result < 2 ^ (7 * i)
      → read_loop ctx len ((g + 128) ∷ rest) i result (7 * i) ≡ ok (v, n)
      → read_loop ctx len rest (i + 1) (result + g * 2 ^ (7 * i)) (7 * i + 7) ≡ ok (v, n)
  unfolding read_loop
  inner_inv g rest i result v n hb hi hr h = ground (
    arith,
    bit_and-low (g + 128),
    bit_and-top (g + 128),
    group_fits i g result,
    or_payload result g (7 * i),
  )

  inner :
      (b : ℕ) (rest : List ℕ) (i result v n : ℕ)
      → b < 256
      → ¬ (b < 128)
      → i ≤ 9
      → result < 2 ^ (7 * i)
      → read_loop ctx len (b ∷ rest) i result (7 * i) ≡ ok (v, n)
      → read_loop ctx len rest (i + 1) (result + (b - 128) * 2 ^ (7 * i)) (7 * i + 7) ≡ ok (v, n)
  inner b rest i result v n hb big hi hr h =
      let e : b ≡ b - 128 + 128 = omega arith in
      inner_inv (b - 128) rest i result v n (omega arith) hi hr
        (subst (λ x. read_loop ctx len (x ∷ rest) i result (7 * i) ≡ ok (v, n)) e h)

-- What a run from the middle of the loop has read: the groups of `w`, in canonical form.
record Accepted (k i result : ℕ) (bytes : List ℕ) (v n : ℕ) : Type 0 where
  w : ℕ
  value : v ≡ result + w * 2 ^ (7 * i)
  in_u64 : v < 2 ^ 64
  written : take (length (groups k w)) bytes ≡ groups k w
  taken : n ≡ i + length (groups k w)
  no_padding : 0 < i → 0 < w

groups_small : (k b : ℕ) → b < 128 → groups k b ≡ b ∷ []
unfolding groups
groups_small zero b h = refl
groups_small (suc k) b h = ground arith

groups_more : (k g w : ℕ) → g < 128 → 0 < w → groups (suc k) (g + w * 128) ≡ (g + 128) ∷ groups k w
unfolding groups
groups_more k g w h p =
    let d : (g + w * 128) / 128 ≡ w = omega arith in
    let m : (g + w * 128) % 128 ≡ g = omega arith in rw (d, m) (ground arith)

more_value :
    (g w i result : ℕ)
    → result + g * 2 ^ (7 * i) + w * 2 ^ (7 * i + 7) ≡ result + (g + w * 128) * 2 ^ (7 * i)
more_value g w i result = omega (arith, ap (λ (t : ℕ). w * t) (power_next_group (7 * i)))

Accepted-last :
    (b k i result v n : ℕ) (rest : List ℕ)
    → b < 128
    → (v ≡ result + b * 2 ^ (7 * i)) × (v < 2 ^ 64) × (n ≡ i + 1) × (0 < i → 0 < b)
    → Accepted k i result (b ∷ rest) v n
Accepted-last b k i result v n rest small (value, in_u64, taken, no_padding) = record {
  w = b;
  value = value;
  in_u64 = in_u64;
  written = rw (groups_small k b small);
  taken = rw (groups_small k b small) taken;
  no_padding = no_padding;
}

Accepted-more :
    (g k i result v n : ℕ) (rest : List ℕ)
    → g < 128
    → Accepted k (i + 1) (result + g * 2 ^ (7 * i)) rest v n
    → Accepted (suc k) i result ((g + 128) ∷ rest) v n
Accepted-more g k i result v n rest small a =
    let e = groups_more k g a.w small (a.no_padding (omega arith)) in
    let seven : 7 * (i + 1) ≡ 7 * i + 7 = omega arith in
    record {
      w = g + a.w * 128;
      value = a.value ∙ rw seven (more_value g a.w i result);
      in_u64 = a.in_u64;
      written = rw e (ap (λ zs. (g + 128) ∷ zs) a.written);
      taken = rw e (omega (arith, a.taken));
      no_padding = λ p. omega (arith, a.no_padding (omega arith));
    }

module _ (ctx : String) (len : ℕ) where
  read_loop-ne-ok : (i result shift v n : ℕ) → read_loop ctx len [] i result shift ≡ ok (v, n) → ⊥
  unfolding read_loop
  read_loop-ne-ok i result shift v n h = cc

  read_loop-Accepted :
      (bytes : List ℕ) (k i result v n : ℕ)
      → All IsByte bytes
      → i + k ≡ 9
      → length bytes ≤ suc k
      → result < 2 ^ (7 * i)
      → read_loop ctx len bytes i result (7 * i) ≡ ok (v, n)
      → Accepted k i result bytes v n
  read_loop-Accepted [] k i result v n hb hk hl hr h = absurd (read_loop-ne-ok i result _ v n h)
  read_loop-Accepted (b ∷ []) zero i result v n hb hk hl hr h = elim (dec_lt b 128) [
    | yes small ↦
        Accepted-last b zero i result v n [] small
          (last_inv ctx len b [] i result v n small (omega arith) hr h)
    | no big ↦
        absurd
          (read_loop-ne-ok _ _ _ v n (inner ctx len b [] i result v n hb.0 big (omega arith) hr h))
  ]
  read_loop-Accepted (b ∷ c ∷ rest) zero i result v n hb hk hl hr h = absurd (omega arith)
  read_loop-Accepted (b ∷ rest) (suc k) i result v n (hb, hbs) hk hl hr h = elim (dec_lt b 128) [
    | yes small ↦
        Accepted-last b (suc k) i result v n rest small
          (last_inv ctx len b rest i result v n small (omega arith) hr h)
    | no big ↦
        let e : b - 128 + 128 ≡ b = omega arith in
        let seven : 7 * i + 7 ≡ 7 * (i + 1) = omega arith in
        let r = result + (b - 128) * 2 ^ (7 * i) in
        subst (λ x. Accepted (suc k) i result (x ∷ rest) v n) e
          (Accepted-more (b - 128) k i result v n rest (omega arith) (
            read_loop-Accepted rest k (i + 1) r v n hbs (omega arith) (omega arith)
              (subst (λ x. r < 2 ^ x) seven (next_below result (b - 128) (7 * i) hr (omega arith)))
              (subst (λ x. read_loop ctx len rest (i + 1) r x ≡ ok (v, n)) seven
                (inner ctx len b rest i result v n hb big (omega arith) hr h))))
  ]

Accepted-start :
    (buf : List ℕ) (v n : ℕ)
    → Accepted 9 0 0 (take 10 buf) v n
    → (v < 2 ^ 64) × (groups 9 v ≡ take n buf) × (n ≡ length (groups 9 v))
Accepted-start buf v n a =
    let e : a.w ≡ v = omega (arith, a.value) in
    let long = length-groups 9 a.w in
    let taken : n ≡ length (groups 9 a.w) = omega (arith, a.taken) in
    let written : take n buf ≡ groups 9 a.w =
      rw taken (sym (take-take (length (groups 9 a.w)) 10 buf long.1) ∙ a.written) in
    (a.in_u64, rw e at (sym written), rw e at taken)

-- On any bytes that `read_varint` accepts, the value is a u64, the bytes consumed are exactly what
-- `put_varint` writes for it, and their number is `varint_len` of it.
pub put_varint-read :
    (ctx : String) (buf : List ℕ) (v n : ℕ)
    → All IsByte buf
    → read_varint buf ctx ≡ ok (v, n)
    → IsU64 v × (put_varint [] v ≡ take n buf) × (n ≡ varint_len v)
unfolding read_varint
put_varint-read ctx buf v n hb h =
    let (small, written, taken) = Accepted-start buf v n (
      read_loop-Accepted ctx (length buf) (take 10 buf) 9 0 0 v n (All-take IsByte 10 buf hb)
        (omega arith) (omega (arith, length-take 10 buf)) (omega arith) h) in
    (small, put_varint-groups [] v small ∙ written, taken ∙ sym (varint_len-groups v small))
