-- ===== src/V6/Hrkm/Reading.antt =====
-- The primitive readers of heraclitus-log/src/v6/manifest.rs, where the wanted bytes stand at the position.
use crates.Prelude.{ℕ, ◌+◌, ◌^◌, ◌≤◌, ◌<◌, ◌≡◌, refl, sym, ap, ◌∙◌, arith, min}
use crates.Prelude.{Bool, true, false, String, ltb, lt→ltb}
use crates.Prelude.{List, [], ◌∷◌, ◌++◌, length, take, drop, drop-drop, length-append, replicate}
use crates.Prelude.{take-append_self, drop-append_self}
use crates.V6.Platform.{Platform, IsPlatform}
use crates.V6.Error.{V6Result, ok, ◌>>=◌, slice_at}
use crates.V6.Varint.{IsU64, put_varint, varint_len, read_varint, read_varint_usize}
use crates.V6.Varint.Encode.{encode_varint_into-put_varint, put_varint_shape}
use crates.V6.Varint.RoundTrip.{read-put_varint}
use crates.V6.Hrkm.{varint_bytes, bool_u8, hard_max_location_bytes}
use crates.V6.Hrkm.Decode.{
  from_le_bytes, read_u8, read_bool, read_v, read_u32, read_array, read_string,
}

-- The bytes of a u64 are those of `put_varint`.
pub varint_bytes-put_varint :
    (v : ℕ)
    → IsU64 v
    → (varint_bytes v ≡ put_varint [] v) × (length (varint_bytes v) ≡ varint_len v)
unfolding varint_bytes
varint_bytes-put_varint v h =
    let (_, _, l, _, _) = put_varint_shape [] v h in
    let e : take (varint_len v) (put_varint [] v ++ drop (varint_len v) (replicate 10 0))
        ≡ put_varint [] v =
      rw (sym l)
        (take-append_self (put_varint [] v) (drop (length (put_varint [] v)) (replicate 10 0))) in
    let f : varint_bytes v ≡ put_varint [] v =
      rw (varint_bytes, encode_varint_into-put_varint (replicate 10 0) v refl h) e in
    (f, ap length f ∙ l)

-- The unread bytes are `xs`.
abbrev pub IsAt : List ℕ → ℕ → List ℕ → Type 0
IsAt buf pos xs = (drop pos buf ≡ xs) × (pos + length xs ≡ length buf)

-- A read that gives `x` and leaves the position before `rest`.
abbrev pub Reads {ℓ} : {A : Type ℓ} → List ℕ → V6Result (A × ℕ) → A → List ℕ → Type ℓ
Reads buf r x rest = (pos : ℕ) × (r ≡ ok (x, pos)) × IsAt buf pos rest

pub IsAt-start : (buf xs : List ℕ) → buf ≡ xs → IsAt buf 0 xs
IsAt-start buf xs e = (e, omega (arith, ap length e))

pub IsAt-append :
    (buf s rest : List ℕ) (pos : ℕ) → IsAt buf pos (s ++ rest) → IsAt buf (pos + length s) rest
IsAt-append buf s rest pos (d, e) = (
  sym (drop-drop pos (length s) buf) ∙ rw d (drop-append_self s rest),
  omega (arith, length-append s rest),
)

-- The code behind a read goes on with what was read.
pub Reads-bind {ℓ κ} :
    {A : Type ℓ} {B : Type κ} {buf rest rest' : List ℕ} {r : V6Result (A × ℕ)} {x : A} {y : B}
    (f : A × ℕ → V6Result (B × ℕ))
    → Reads buf r x rest
    → ((pos : ℕ) → IsAt buf pos rest → Reads buf (f (x, pos)) y rest')
    → Reads buf (r >>= f) y rest'
Reads-bind f (pos, e, h) k = let (pos', e', h') = k pos h in (pos', rw e e', h')

module _ (p : Platform) (buf : List ℕ) (lawful : IsPlatform p)
    (short : length buf < 2 ^ p.usize_bits) where
  pub read_array-Reads :
      (s rest : List ℕ) (n pos : ℕ) (ctx : String)
      → length s ≡ n
      → IsAt buf pos (s ++ rest)
      → Reads buf (read_array p buf n pos ctx) s rest
  unfolding read_array slice_at
  read_array-Reads s rest n pos ctx l h =
      let cut : take n (drop pos buf) ≡ s = rw h.0 (rw (sym l) (take-append_self s rest)) in
      let k = IsAt-append buf s rest pos h in
      (pos + length s, ground (arith, length-append s rest), k)

  pub read_u8-Reads :
      (b : ℕ) (rest : List ℕ) (pos : ℕ) (ctx : String)
      → IsAt buf pos (b ∷ rest)
      → Reads buf (read_u8 p buf pos ctx) b rest
  unfolding read_u8 slice_at from_le_bytes
  read_u8-Reads b rest pos ctx h = (pos + 1, ground arith, IsAt-append buf (b ∷ []) rest pos h)

  pub read_bool-Reads :
      (b : Bool) (rest : List ℕ) (pos : ℕ) (ctx : String)
      → IsAt buf pos (bool_u8 b ∷ rest)
      → Reads buf (read_bool p buf pos ctx) b rest
  unfolding read_bool
  read_bool-Reads true rest pos ctx h =
      Reads-bind _ (read_u8-Reads 1 rest pos ctx h) (λ q k. (q, refl, k))
  read_bool-Reads false rest pos ctx h =
      Reads-bind _ (read_u8-Reads 0 rest pos ctx h) (λ q k. (q, refl, k))

  -- The varint that stands at the position.
  pub varint_at :
      (v : ℕ) (rest : List ℕ) (pos : ℕ) (ctx : String)
      → IsU64 v
      → IsAt buf pos (varint_bytes v ++ rest)
      → (read_varint (drop (min pos (length buf)) buf) ctx ≡ ok (v, length (varint_bytes v)))
        × (read_varint (drop pos buf) ctx ≡ ok (v, length (varint_bytes v)))
  varint_at v rest pos ctx u h =
      let (e, l) = varint_bytes-put_varint v u in
      let m : min pos (length buf) ≡ pos = omega arith in
      let r : read_varint (drop pos buf) ctx ≡ ok (v, length (varint_bytes v)) =
        rw (h.0, l) (rw e (read-put_varint ctx v rest u)) in
      (rw m r, r)

  pub read_v-Reads :
      (v : ℕ) (rest : List ℕ) (pos : ℕ) (ctx : String)
      → IsU64 v
      → IsAt buf pos (varint_bytes v ++ rest)
      → Reads buf (read_v p buf pos ctx) v rest
  unfolding read_v
  read_v-Reads v rest pos ctx u h = (
    pos + length (varint_bytes v),
    rw (varint_at v rest pos ctx u h).0 refl,
    IsAt-append buf _ rest pos h,
  )

  pub read_u32-Reads :
      (v : ℕ) (rest : List ℕ) (pos : ℕ) (ctx : String)
      → v < 2 ^ 32
      → IsAt buf pos (varint_bytes v ++ rest)
      → Reads buf (read_u32 p buf pos ctx) v rest
  unfolding read_u32
  read_u32-Reads v rest pos ctx u h =
      Reads-bind _ (read_v-Reads v rest pos ctx (omega arith) h) (λ q k. (q, ground arith, k))

  pub read_string-Reads :
      (t : String) (rest : List ℕ) (pos : ℕ) (ctx : String)
      → length (p.as_bytes t) ≤ hard_max_location_bytes
      → IsAt buf pos (varint_bytes (length (p.as_bytes t)) ++ (p.as_bytes t ++ rest))
      → Reads buf (read_string p buf pos ctx) t rest
  unfolding read_string read_varint_usize
  read_string-Reads t rest pos ctx l h =
      let bytes = p.as_bytes t in
      let (e, _) = varint_at (length bytes) (bytes ++ rest) pos ctx (omega arith) h in
      let k = IsAt-append buf (varint_bytes (length bytes)) (bytes ++ rest) pos h in
      let (q, f, m) = read_array-Reads bytes rest (length bytes) _ ctx refl k in
      let lt : length bytes < 2 ^ p.usize_bits = omega (
        arith,
        h.1,
        short,
        length-append (varint_bytes (length bytes)) (bytes ++ rest),
        length-append bytes rest,
      ) in
      let fits : ltb (length bytes) (2 ^ p.usize_bits) ≡ true = lt→ltb _ _ lt in
      let small : ltb hard_max_location_bytes (length bytes) ≡ false = ground arith in
      (q, rw e (rw fits (rw small (rw f (rw (lawful.utf8 t) refl)))), m)
