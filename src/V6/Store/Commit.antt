-- ===== src/V6/Store/Commit.antt =====
-- heraclitus-log/src/v6/manifest.rs, `ManifestStore::commit`, and the directories that it passes through.
use crates.Prelude.{ℕ, List, [], ◌∷◌, ◌++◌, none, some, false}
use crates.Prelude.ByteMap.{get, insert, remove}
use crates.Core.Runtime.{DatabaseManifest}
use crates.V6.Platform.{Platform}
use crates.V6.Error.{V6Result, ok, err, ◌>>=◌, corrupt, generation_exists}
use crates.V6.Hrkm.Frame.{hrkm_magic, encode_manifest}
use crates.V6.Store.{
  Name, Dir, Text, LoadedManifest, with_tmp, current_file, hex32, path_for, next_generation,
}

-- `rename`, which replaces what the new name held.
unfoldable pub rename : Name → Name → Dir → Dir
rename from to d = elim (get from d) [ none ↦ d | some bytes ↦ insert to bytes (remove from d) ]

-- `write_and_sync` under a temporary name, `rename` and `sync_dir`.
unfoldable pub replace_file : Name → List ℕ → Dir → Dir
unfolding rename
replace_file name bytes d = rename (with_tmp name) name (insert (with_tmp name) bytes d)

-- What `CURRENT` holds for a file.
unfoldable pub payload_of : Name → List ℕ → List ℕ
unfolding hex32
payload_of name digest = name ++ (10 ∷ (hex32 digest ++ (10 ∷ [])))

module _ (t : Text) (p : Platform) where
  -- The manifest as `commit` leaves it, with its new generation.
  abbrev pub numbered_manifest : Dir → DatabaseManifest → DatabaseManifest
  numbered_manifest d m = record m {
    manifest_generation = next_generation t d;
    format_identifier = hrkm_magic;
  }

  abbrev pub target_of : Dir → Name
  target_of d = path_for t (next_generation t d)

  -- The directory once the manifest stands under its name, and once `CURRENT` names it.
  abbrev pub with_manifest : Dir → List ℕ → Dir
  with_manifest d bytes = replace_file (target_of d) bytes d

  abbrev pub with_current : Dir → List ℕ → Dir
  with_current d bytes =
      replace_file current_file (payload_of (target_of d) (p.blake3 bytes)) (with_manifest d bytes)

  abbrev pub committed : Dir → DatabaseManifest → List ℕ → LoadedManifest
  committed d m bytes = record {
    manifest = numbered_manifest d m;
    generation = next_generation t d;
    digest = p.blake3 bytes;
    path = target_of d;
    recovered_by_scan = false;
  }

  unfoldable pub commit : Dir → DatabaseManifest → V6Result (Dir × LoadedManifest)
  unfolding next_generation path_for encode_manifest replace_file payload_of
  commit d m = elim (get (target_of d) d) [
    | some _ ↦ err (corrupt "hrkm commit" generation_exists)
    | none ↦ do
      bytes ← encode_manifest p (numbered_manifest d m)
      ok (with_current d bytes, committed d m bytes)
  ]

  -- The directories that a commit of `bytes` that stops anywhere may leave: a file that was being
  -- written under its temporary name may hold anything.
  pub data IsInterrupted (d : Dir) (bytes : List ℕ) : Dir → Type 0 where
    untouched : IsInterrupted d bytes d
    writing : (torn : List ℕ) → IsInterrupted d bytes (insert (with_tmp (target_of d)) torn d)
    written : IsInterrupted d bytes (with_manifest d bytes)
    pointing :
        (torn : List ℕ)
        → IsInterrupted d bytes (insert (with_tmp current_file) torn (with_manifest d bytes))
    pointed : IsInterrupted d bytes (with_current d bytes)
