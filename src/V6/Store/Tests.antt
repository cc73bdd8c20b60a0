-- ===== src/V6/Store/Tests.antt =====
-- Commits and loads of heraclitus-log/src/v6/manifest.rs in a small directory.
use crates.Prelude.{
  All-append, zero, suc, ℕ, ◌+◌, ◌*◌, ◌-◌, ◌/◌, ◌%◌, ◌≤◌, ◌≡◌, ◌⊎◌, refl, arith, true, List, [],
  ◌∷◌, ◌++◌, Option, none, some, foldl, All,
}
use crates.Prelude.ByteMap.{bytes_lt, get, insert, remove, IsSorted}
use crates.Prelude.{◌∙◌}
use crates.Prelude.Bytes.{bytes_eq}
use crates.Core.Runtime.{DatabaseManifest}
use crates.V6.Error.{ok}
use crates.V6.Hrkm.Frame.{encode_manifest}
use crates.V6.Hrkm.RoundTrip.{as_read, decode_manifest-encode_manifest}
use crates.V6.Hrkm.Samples.{
  small_platform, stored_manifest, small_platform-IsPlatform, stored_manifest-IsManifest,
}
use crates.V6.Store.{
  Dir, Text, LoadedManifest, path_for, load, load_from_current, with_tmp, generation_of,
  next_generation,
}
use crates.V6.Store.Commit.{
  numbered_manifest, target_of, with_current, committed, writing, replace_file,
}
use crates.V6.Store.Written.{current_new}
use crates.V6.Store.Names.{IsText, replace_file-IsSorted}
use crates.V6.Store.Crash.{
  load-commit, load-IsInterrupted, commit-fresh, numbered_manifest-IsManifest, reads_back,
}

-- The lowest `n` digits.
abbrev digits_of : ℕ → ℕ → List ℕ
digits_of zero x = []
digits_of (suc n) x = digits_of n (x / 10) ++ ((48 + x % 10) ∷ [])

-- Digits only; the empty text is no number.
abbrev number_of : List ℕ → Option ℕ
number_of [] = none
number_of (b ∷ bs) = some (foldl (λ n c. n * 10 + (c - 48)) 0 (b ∷ bs))

abbrev ascii_text : Text
ascii_text = record {
  decimal = digits_of 10;
  parse_u64 = number_of;
  is_utf8 = λ bytes. true;
  trim = λ bytes. bytes;
}

ascii_text-IsText : IsText ascii_text
ascii_text-IsText = record {
  digits = λ n. digits_of-digits 10 n;
  ascii = λ bytes w. refl;
  trim = λ bytes w. refl;
}
  where
    digits_of-digits : (k n : ℕ) → All (λ b. (48 ≤ b) × (b ≤ 57)) (digits_of k n)
    digits_of-digits zero n = tt
    digits_of-digits (suc k) n =
        All-append _ (digits_of k (n / 10)) _ (digits_of-digits k (n / 10))
          ((omega arith, omega arith), tt)

name_of_seven : generation_of ascii_text (path_for ascii_text 7) ≡ some 7
unfolding generation_of path_for bytes_eq
name_of_seven = refl

temporary_ignored : generation_of ascii_text (with_tmp (path_for ascii_text 7)) ≡ none
unfolding generation_of path_for bytes_eq
temporary_ignored = refl

-- The first commit, into an empty directory.
abbrev first_numbered : DatabaseManifest
first_numbered = numbered_manifest ascii_text small_platform [] stored_manifest

first_encoded : (file : List ℕ) × (encode_manifest small_platform first_numbered ≡ ok file)
first_encoded =
    let (file, e, _) =
      decode_manifest-encode_manifest small_platform first_numbered small_platform-IsPlatform (
        numbered_manifest-IsManifest ascii_text small_platform [] stored_manifest
          stored_manifest-IsManifest) in
    (file, e)

abbrev first_file : List ℕ
first_file = first_encoded.0

abbrev first_dir : Dir
first_dir = with_current ascii_text small_platform [] first_file

abbrev first_loaded : LoadedManifest
first_loaded = committed ascii_text small_platform [] stored_manifest first_file

load-commit_example :
    load ascii_text small_platform first_dir
    ≡ some record first_loaded { manifest = as_read first_numbered }
unfolding get
load-commit_example =
    load-commit ascii_text small_platform [] first_dir stored_manifest first_loaded
      ascii_text-IsText small_platform-IsPlatform tt stored_manifest-IsManifest
      (commit-fresh ascii_text small_platform [] stored_manifest refl ∙ rw first_encoded.1 refl)

first_dir-IsSorted : IsSorted first_dir
first_dir-IsSorted = replace_file-IsSorted _ _ _ (replace_file-IsSorted _ _ [] tt)

first_current :
    load_from_current ascii_text small_platform first_dir
    ≡ some record first_loaded { manifest = as_read first_numbered }
first_current =
    current_new ascii_text small_platform ascii_text-IsText small_platform-IsPlatform [] tt
      first_file (as_read first_numbered)
      (reads_back ascii_text small_platform [] stored_manifest first_file small_platform-IsPlatform
        stored_manifest-IsManifest first_encoded.1)
      refl

-- The second commit, stopped while it writes its manifest.
abbrev second_numbered : DatabaseManifest
second_numbered = numbered_manifest ascii_text small_platform first_dir stored_manifest

second_encoded : (file : List ℕ) × (encode_manifest small_platform second_numbered ≡ ok file)
second_encoded =
    let (file, e, _) =
      decode_manifest-encode_manifest small_platform second_numbered small_platform-IsPlatform (
        numbered_manifest-IsManifest ascii_text small_platform first_dir stored_manifest
          stored_manifest-IsManifest) in
    (file, e)

abbrev torn_dir : Dir
torn_dir = insert (with_tmp (target_of ascii_text small_platform first_dir)) (1 ∷ 2 ∷ []) first_dir

second_is_fresh : get (target_of ascii_text small_platform first_dir) first_dir ≡ none
unfolding next_generation path_for replace_file get insert bytes_eq remove bytes_lt
second_is_fresh = refl

load-IsInterrupted_example :
    (load ascii_text small_platform torn_dir
      ≡ some record first_loaded { manifest = as_read first_numbered })
    ⊎ (load ascii_text small_platform torn_dir
        ≡ some
            record (committed ascii_text small_platform first_dir stored_manifest
              second_encoded.0) { manifest = as_read second_numbered })
unfolding next_generation
load-IsInterrupted_example =
    load-IsInterrupted ascii_text small_platform first_dir stored_manifest second_encoded.0 torn_dir
      (record first_loaded { manifest = as_read first_numbered }) 1 ascii_text-IsText
      small_platform-IsPlatform first_dir-IsSorted stored_manifest-IsManifest second_is_fresh
      second_encoded.1 first_current refl (writing (1 ∷ 2 ∷ []))
