-- ===== src/V6/Store/Lines.antt =====
-- The text of `CURRENT` in heraclitus-log/src/v6/manifest.rs: the bytes of names and digests, and its lines.
use crates.Prelude.{ℕ, ◌/◌, ◌%◌, ◌≤◌, ◌<◌, ◌≡◌, refl, ap, arith, Bool, true, false, ◌&&◌}
use crates.Prelude.{◌⊎◌, inl, inr, List, [], ◌∷◌, ◌++◌, some, ltb, leb, ◌==◌, All, All-append}
use crates.V6.Store.{
  Text, name_prefix, name_suffix, path_for, split_line, next_line, has_byte, hex_digit, hex32,
}
use crates.V6.Store.Commit.{payload_of}
use crates.V6.Store.Names.{IsText}

abbrev pub IsVisible : ℕ → Type 0
IsVisible b = (33 ≤ b) × (b < 127)

all_visible : List ℕ → Bool
all_visible [] = true
all_visible (b ∷ bs) = (leb 33 b && ltb b 127) && all_visible bs

all_visible-IsVisible : (bs : List ℕ) → all_visible bs ≡ true → All IsVisible bs
unfolding all_visible
all_visible-IsVisible [] h = tt
all_visible-IsVisible (b ∷ bs) h = ground (arith, all_visible-IsVisible bs)

prefix-IsVisible : All IsVisible name_prefix
unfolding all_visible
prefix-IsVisible = all_visible-IsVisible name_prefix refl

suffix-IsVisible : All IsVisible name_suffix
unfolding all_visible
suffix-IsVisible = all_visible-IsVisible name_suffix refl

digits-IsVisible : (bs : List ℕ) → All (λ b. (48 ≤ b) × (b ≤ 57)) bs → All IsVisible bs
digits-IsVisible [] w = tt
digits-IsVisible (b ∷ bs) (h, w) = (omega (arith, h), digits-IsVisible bs w)

visible-ascii : (bs : List ℕ) → All IsVisible bs → All (λ b. b < 128) bs
visible-ascii [] w = tt
visible-ascii (b ∷ bs) (h, w) = (omega (arith, h), visible-ascii bs w)

has_byte-append :
    (b : ℕ) (xs ys : List ℕ)
    → has_byte b xs ≡ false
    → has_byte b ys ≡ false
    → has_byte b (xs ++ ys) ≡ false
unfolding has_byte
has_byte-append b [] ys h k = k
has_byte-append b (x ∷ xs) ys h k = ground (arith, has_byte-append b xs ys)

has_byte-digits :
    (b : ℕ) (bs : List ℕ)
    → All (λ b. (48 ≤ b) × (b ≤ 57)) bs
    → (b < 48) ⊎ (57 < b)
    → has_byte b bs ≡ false
unfolding has_byte
has_byte-digits b [] w o = refl
has_byte-digits b (c ∷ cs) (h, w) o = ground (arith, has_byte-digits b cs w o)

hex_digit-IsVisible : (n : ℕ) → n < 16 → IsVisible (hex_digit n)
hex_digit-IsVisible n h = ground arith

pub hex32-IsVisible : (bs : List ℕ) → All IsVisible (hex32 bs)
unfolding hex32
hex32-IsVisible [] = tt
hex32-IsVisible (b ∷ bs) = (
  hex_digit-IsVisible (b / 16 % 16) (omega arith),
  (hex_digit-IsVisible (b % 16) (omega arith), hex32-IsVisible bs),
)

split_line-append :
    (line rest : List ℕ) → All IsVisible line → split_line (line ++ (10 ∷ rest)) ≡ (line, rest)
unfolding split_line
split_line-append [] rest w = refl
split_line-append (c ∷ line) rest (h, w) =
    let other : (c == 10) ≡ false = ground (arith, h) in
    rw other (rw (split_line-append line rest w) refl)

-- A line that no line end cuts.
pub next_line-append :
    (line rest : List ℕ) → All IsVisible line → next_line (line ++ (10 ∷ rest)) ≡ some (line, rest)
unfolding next_line
next_line-append [] rest w = ap some (split_line-append [] rest w)
next_line-append (b ∷ line) rest w = ap some (split_line-append (b ∷ line) rest w)

module _ (t : Text) (text : IsText t) where
  pub path_for-IsVisible : (g : ℕ) → All IsVisible (path_for t g)
  unfolding path_for
  path_for-IsVisible g = All-append IsVisible name_prefix _ prefix-IsVisible (
      All-append IsVisible (t.decimal g) name_suffix (digits-IsVisible _ (text.digits g))
        suffix-IsVisible)

  pub path_for-has_no_slash :
      (g : ℕ) → (has_byte 47 (path_for t g) ≡ false) × (has_byte 92 (path_for t g) ≡ false)
  unfolding path_for has_byte
  path_for-has_no_slash g = (
    has_byte-append 47 name_prefix (t.decimal g ++ name_suffix) refl (
        has_byte-append 47 (t.decimal g) name_suffix
          (has_byte-digits 47 _ (text.digits g) (inl (omega arith))) refl),
    has_byte-append 92 name_prefix (t.decimal g ++ name_suffix) refl (
        has_byte-append 92 (t.decimal g) name_suffix
          (has_byte-digits 92 _ (text.digits g) (inr (omega arith))) refl),
  )

  pub payload_of-is_utf8 :
      (g : ℕ) (digest : List ℕ) → t.is_utf8 (payload_of (path_for t g) digest) ≡ true
  unfolding payload_of
  payload_of-is_utf8 g digest =
      let end : All (λ b. b < 128) (10 ∷ []) = (omega arith, tt) in
      let hex =
        All-append (λ b. b < 128) (hex32 digest) (10 ∷ [])
          (visible-ascii _ (hex32-IsVisible digest)) end in
      text.ascii _ (
        All-append (λ b. b < 128) (path_for t g) _ (visible-ascii _ (path_for-IsVisible g))
          (omega arith, hex))
