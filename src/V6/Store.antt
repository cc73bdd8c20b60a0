-- ===== src/V6/Store.antt =====
-- heraclitus-log/src/v6/manifest.rs, `ManifestStore`: the directory of manifests, its commit and its
-- load. A directory is a map from the names in it to the contents, in order of the names; a name is a
-- list of bytes, and joining it to the directory's path is left out.
pub mod Commit
pub mod Names
pub mod Lines
pub mod Loading
pub mod Written
pub mod Crash
mod Tests
use crates.Prelude.{ℕ, zero, suc, ◌+◌, ◌-◌, ◌/◌, ◌%◌, ◌^◌, Bool, true, false, not, ◌&&◌, ◌||◌}
use crates.Prelude.{
  List, [], ◌∷◌, ◌++◌, Option, none, some, ltb, ◌==◌, if◌then◌else◌, length, take, drop,
}
use crates.Prelude.Bytes.{bytes_eq}
use crates.Prelude.ByteMap.{get, insert, remove}
use crates.Core.Runtime.{DatabaseManifest}
use mathlib.Core.List.{reverse}
use crates.V6.Platform.{Platform}
use crates.V6.Error.{V6Result, ok, err, ◌>>=◌, corrupt, generation_exists}
use crates.V6.SegmentCheck.{sort_unstable}
use crates.V6.Hrkm.Frame.{hrkm_magic, encode_manifest, decode_manifest}

abbrev pub Name : Type 0
Name = List ℕ

abbrev pub Dir : Type 0
Dir = List (Name × List ℕ)

-- What the code takes from the standard library's formatting and text: `{:010}`, `parse::<u64>`, the
-- test of `read_to_string` and `to_str`, and `trim`.
pub record Text : Type 0 where
  pub decimal : ℕ → List ℕ
  pub parse_u64 : List ℕ → Option ℕ
  pub is_utf8 : List ℕ → Bool
  pub trim : List ℕ → List ℕ

-- `manifest-`, `.hrkm`, `.tmp` and `CURRENT`.
abbrev pub name_prefix : List ℕ
name_prefix = 109 ∷ 97 ∷ 110 ∷ 105 ∷ 102 ∷ 101 ∷ 115 ∷ 116 ∷ 45 ∷ []

abbrev pub name_suffix : List ℕ
name_suffix = 46 ∷ 104 ∷ 114 ∷ 107 ∷ 109 ∷ []

abbrev pub tmp_suffix : List ℕ
tmp_suffix = 46 ∷ 116 ∷ 109 ∷ 112 ∷ []

abbrev pub current_file : Name
current_file = 67 ∷ 85 ∷ 82 ∷ 82 ∷ 69 ∷ 78 ∷ 84 ∷ []

abbrev pub with_tmp : Name → Name
with_tmp name = name ++ tmp_suffix

-- `strip_prefix` and `strip_suffix`.
unfoldable pub strip_prefix : List ℕ → List ℕ → Option (List ℕ)
strip_prefix [] xs = some xs
strip_prefix (c ∷ cs) [] = none
strip_prefix (c ∷ cs) (x ∷ xs) = let rest = strip_prefix cs xs in if c == x then rest else none

unfoldable pub strip_suffix : List ℕ → List ℕ → Option (List ℕ)
strip_suffix s xs =
    let at = length xs - length s in if bytes_eq (drop at xs) s then some (take at xs) else none

unfoldable pub last_of : List ℕ → Option ℕ
last_of [] = none
last_of (g ∷ []) = some g
last_of (g ∷ h ∷ gs) = last_of (h ∷ gs)

-- The digits of `{x:02x}` of a byte.
abbrev pub hex_digit : ℕ → ℕ
hex_digit n = if ltb n 10 then 48 + n else 87 + n

unfoldable pub hex32 : List ℕ → List ℕ
hex32 [] = []
hex32 (b ∷ bs) = hex_digit (b / 16 % 16) ∷ hex_digit (b % 16) ∷ hex32 bs

-- What stands before the first end of line, and what stands behind it.
unfoldable pub split_line : List ℕ → List ℕ × List ℕ
split_line [] = ([], [])
split_line (c ∷ cs) =
    let (line, rest) = split_line cs in if c == 10 then ([], cs) else (c ∷ line, rest)

-- `next` of `lines()`, without the carriage return that `trim` removes.
unfoldable pub next_line : List ℕ → Option (List ℕ × List ℕ)
unfolding split_line
next_line [] = none
next_line (c ∷ cs) = some (split_line (c ∷ cs))

unfoldable pub has_byte : ℕ → List ℕ → Bool
has_byte b [] = false
has_byte b (c ∷ cs) = b == c || has_byte b cs

pub record LoadedManifest : Type 0 where
  pub manifest : DatabaseManifest
  pub generation : ℕ
  pub digest : List ℕ
  pub path : Name
  pub recovered_by_scan : Bool

module _ (t : Text) where
  unfoldable pub path_for : ℕ → Name
  path_for generation = name_prefix ++ (t.decimal generation ++ name_suffix)

  -- `to_str` fails on a name that is not UTF-8.
  unfoldable pub generation_of : Name → Option ℕ
  unfolding strip_prefix strip_suffix
  generation_of name = if not (t.is_utf8 name) then none else elim (strip_prefix name_prefix name) [
    | none ↦ none
    | some rest ↦ elim (strip_suffix name_suffix rest) [
      | none ↦ none
      | some stem ↦ t.parse_u64 stem
    ]
  ]

  unfoldable pub listed : Dir → List ℕ
  unfolding generation_of
  listed [] = []
  listed ((name, _) ∷ d) = elim (generation_of name) [ none ↦ listed d | some g ↦ g ∷ listed d ]

  unfoldable pub generations : Dir → List ℕ
  unfolding listed sort_unstable
  generations d = sort_unstable (listed d)

  -- The `+ 1` is that of a u64.
  unfoldable pub next_generation : Dir → ℕ
  unfolding generations last_of
  next_generation d = elim (last_of (generations d)) [ none ↦ 1 | some g ↦ (g + 1) % 2 ^ 64 ]

  -- The name in `CURRENT`, and the lines behind it.
  unfoldable pub current_name : Dir → Option (Name × List ℕ)
  unfolding next_line has_byte
  current_name d = elim (get current_file d) [
    | none ↦ none
    | some raw ↦ if not (t.is_utf8 raw) then none else elim (next_line raw) [
      | none ↦ none
      | some (line, rest) ↦
          let name = t.trim line in
          if length name == 0 || (has_byte 47 name || has_byte 92 name)
          then none
          else some (name, rest)
    ]
  ]

  -- Whether `CURRENT` has a digest that is not the one of the file.
  unfoldable pub other_digest : List ℕ → List ℕ → Bool
  unfolding next_line hex32
  other_digest rest digest = elim (next_line rest) [
    | none ↦ false
    | some (line, _) ↦
        let expected = t.trim line in
        not (length expected == 0) && not (bytes_eq expected (hex32 digest))
  ]

  module _ (p : Platform) where
    unfoldable pub open_named : Dir → Name × List ℕ → Option LoadedManifest
    unfolding decode_manifest other_digest
    open_named d (name, rest) = elim (get name d) [
      | none ↦ none
      | some bytes ↦
          if other_digest rest (p.blake3 bytes) then none else elim (decode_manifest p bytes) [
            | err _ ↦ none
            | ok m ↦ some (record {
              manifest = m;
              generation = m.manifest_generation;
              digest = p.blake3 bytes;
              path = name;
              recovered_by_scan = false;
            })
          ]
    ]

    unfoldable pub load_from_current : Dir → Option LoadedManifest
    unfolding current_name open_named
    load_from_current d = elim (current_name d) [ none ↦ none | some x ↦ open_named d x ]

    -- The loop over the generations, the highest first.
    unfoldable pub scan : Dir → List ℕ → Option LoadedManifest
    unfolding path_for decode_manifest
    scan d [] = none
    scan d (g ∷ gs) = elim (get (path_for g) d) [
      | none ↦ scan d gs
      | some bytes ↦ elim (decode_manifest p bytes) [
        | err _ ↦ scan d gs
        | ok m ↦ some (record {
          manifest = m;
          generation = m.manifest_generation;
          digest = p.blake3 bytes;
          path = path_for g;
          recovered_by_scan = true;
        })
      ]
    ]

    unfoldable pub load : Dir → Option LoadedManifest
    unfolding load_from_current scan generations
    load d = elim (load_from_current d) [
      | some l ↦ some l
      | none ↦ scan d (reverse (generations d))
    ]
