-- ===== src/V6/Store/Names.antt =====
-- The names of `ManifestStore` in heraclitus-log/src/v6/manifest.rs, and the directory behind its writes.
use crates.Prelude.{ℕ, ◌^◌, ◌≤◌, ◌<◌, ◌≡◌, inl, inr, refl, ap, ◌∙◌, arith}
use crates.Prelude.{
  true, false, List, [], ◌∷◌, ◌++◌, Option, none, some, length, length-append, if◌then◌else◌, ◌==◌,
  Bool-cases, All,
}
use crates.Prelude.Bytes.{bytes_eq, bytes_eq_refl, bytes_eq_sound}
use crates.Prelude.ByteMap.{
  get, insert, remove, IsSorted, get-insert, get-remove, insert-IsSorted, remove-IsSorted,
}
use crates.Prelude.{Option-cases}
use crates.V6.Store.{
  next_generation, generations, last_of, Name, Dir, Text, tmp_suffix, current_file, with_tmp,
  path_for,
}
use crates.V6.Store.Commit.{rename, replace_file}

-- What the standard library says: a number is printed in decimal digits, ASCII is UTF-8, and `trim`
-- keeps a text of visible ASCII characters.
pub record IsText (t : Text) : Type 0 where
  pub digits : (n : ℕ) → All (λ b. (48 ≤ b) × (b ≤ 57)) (t.decimal n)
  pub ascii : (bytes : List ℕ) → All (λ b. b < 128) bytes → t.is_utf8 bytes ≡ true
  pub trim : (bytes : List ℕ) → All (λ b. (33 ≤ b) × (b < 127)) bytes → t.trim bytes ≡ bytes

other_name : (a b : Name) → (a ≡ b → ⊥) → bytes_eq a b ≡ false
other_name a b ne = elim (Bool-cases (bytes_eq a b)) [
  | inl e ↦ absurd (ne (bytes_eq_sound a b e))
  | inr e ↦ e
]

pub with_tmp-ne : (name : Name) → bytes_eq name (with_tmp name) ≡ false
with_tmp-ne name =
    other_name name (with_tmp name)
      (λ e. absurd (omega (arith, length-append name tmp_suffix, ap length e)))

last_byte_of : ℕ → List ℕ → ℕ
last_byte_of b [] = b
last_byte_of b (c ∷ cs) = last_byte_of c cs

last_byte_of-append :
    (b : ℕ) (xs : List ℕ) (c : ℕ) (cs : List ℕ)
    → last_byte_of b (xs ++ (c ∷ cs)) ≡ last_byte_of c cs
unfolding last_byte_of
last_byte_of-append b [] c cs = refl
last_byte_of-append b (x ∷ xs) c cs = last_byte_of-append x xs c cs

module _ (t : Text) where
  -- A manifest's name is no temporary name, and is not `CURRENT`.
  pub path_for-ne_tmp : (g : ℕ) (name : Name) → bytes_eq (path_for t g) (with_tmp name) ≡ false
  unfolding path_for last_byte_of
  path_for-ne_tmp g name = other_name (path_for t g) (with_tmp name) (λ e.
      let left : last_byte_of 0 (path_for t g) ≡ 109 =
        last_byte_of-append 45 (t.decimal g) 46 (104 ∷ 114 ∷ 107 ∷ 109 ∷ []) in
      let right : last_byte_of 0 (with_tmp name) ≡ 112 =
        last_byte_of-append 0 name 46 (116 ∷ 109 ∷ 112 ∷ []) in
      let same : last_byte_of 0 (path_for t g) ≡ last_byte_of 0 (with_tmp name) =
        ap (last_byte_of 0) e in
      absurd (omega (arith, left, right, same)))

  pub path_for-ne_empty : (g : ℕ) → (length (path_for t g) == 0) ≡ false
  unfolding path_for
  path_for-ne_empty g = ground arith

  pub path_for-ne_current : (g : ℕ) → bytes_eq (path_for t g) current_file ≡ false
  unfolding path_for bytes_eq
  path_for-ne_current g = refl

  pub current-ne_path_for : (g : ℕ) → bytes_eq current_file (path_for t g) ≡ false
  unfolding path_for bytes_eq
  current-ne_path_for g = refl

  pub current-ne_tmp : (g : ℕ) → bytes_eq current_file (with_tmp (path_for t g)) ≡ false
  unfolding path_for bytes_eq
  current-ne_tmp g = refl

rename-some :
    (from to : Name) (bytes : List ℕ) (d : Dir)
    → get from d ≡ some bytes
    → rename from to d ≡ insert to bytes (remove from d)
unfolding rename
rename-some from to bytes d e = rw (e, rename) refl

replace_file-insert :
    (name : Name) (bytes : List ℕ) (d : Dir)
    → replace_file name bytes d
      ≡ insert name bytes (remove (with_tmp name) (insert (with_tmp name) bytes d))
unfolding replace_file
replace_file-insert name bytes d =
    rename-some (with_tmp name) name bytes (insert (with_tmp name) bytes d)
      (get-insert (with_tmp name) (with_tmp name) bytes d ∙ rw (bytes_eq_refl (with_tmp name)) refl)

pub replace_file-IsSorted :
    (name : Name) (bytes : List ℕ) (d : Dir) → IsSorted d → IsSorted (replace_file name bytes d)
replace_file-IsSorted name bytes d s = rw (replace_file-insert name bytes d) (
    insert-IsSorted name bytes _
      (remove-IsSorted (with_tmp name) _ (insert-IsSorted (with_tmp name) bytes d s)))

pub next_generation-lt : (t : Text) (d : Dir) → next_generation t d < 2 ^ 64
unfolding next_generation
next_generation-lt t d = elim (Option-cases (last_of (generations t d))) [
  | inl e ↦ rw (e, next_generation) (omega arith)
  | inr (g, e) ↦ rw (e, next_generation) (omega arith)
]

-- A file that is replaced is the only one that changes, but for the temporary name.
pub get-replace_file :
    (name j : Name) (bytes : List ℕ) (d : Dir)
    → IsSorted d
    → get j (replace_file name bytes d) ≡ (
        if bytes_eq j name
        then some bytes
        else if bytes_eq j (with_tmp name)
        then none
        else get j d)
get-replace_file name j bytes d s =
    let tmp = with_tmp name in
    let behind : get j (remove tmp (insert tmp bytes d))
        ≡ (if bytes_eq j tmp then none else get j d) =
      get-remove j tmp (insert tmp bytes d) (insert-IsSorted tmp bytes d s)
      ∙ elim (Bool-cases (bytes_eq j tmp)) [
        | inl e ↦ rw e refl
        | inr e ↦ rw e (get-insert j tmp bytes d ∙ rw e refl)
      ] in
    ap (get j) (replace_file-insert name bytes d)
    ∙ get-insert j name bytes (remove tmp (insert tmp bytes d))
    ∙ ap (λ (o : Option (List ℕ)). if bytes_eq j name then some bytes else o) behind
