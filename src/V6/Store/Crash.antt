-- ===== src/V6/Store/Crash.antt =====
-- What `ManifestStore::load` of heraclitus-log/src/v6/manifest.rs finds after a commit, whole or interrupted.
use crates.Prelude.{ℕ, ◌≡◌, ◌⊎◌, inl, inr, refl, sym, ap, ◌∙◌}
use crates.Prelude.{List, none, some, Option-cases}
use crates.Prelude.ByteMap.{get, IsSorted, get-insert}
use crates.Core.Runtime.{DatabaseManifest}
use crates.V6.Platform.{Platform, IsPlatform}
use crates.V6.Error.{V6Result, ok, err, ◌>>=◌, ok_inj, bind-eq-ok}
use crates.V6.Hrkm.Frame.{encode_manifest, decode_manifest}
use crates.V6.Hrkm.Layout.{IsManifest}
use crates.V6.Hrkm.RoundTrip.{as_read, decode_manifest-encode_manifest}
use crates.V6.Store.{
  Dir, Text, LoadedManifest, current_file, with_tmp, path_for, load_from_current, load,
}
use crates.V6.Store.Commit.{
  numbered_manifest, target_of, with_manifest, with_current, committed, commit, IsInterrupted,
  untouched, writing, written, pointing, pointed,
}
use crates.V6.Error.{V6Error, corrupt, generation_exists}
use crates.V6.Store.Names.{next_generation-lt, IsText, get-replace_file}
use crates.V6.Store.Loading.{found}
use crates.V6.Store.Written.{kept, loaded_new}

pub numbered_manifest-IsManifest :
    (t : Text) (p : Platform) (d : Dir) (m : DatabaseManifest)
    → IsManifest p m
    → IsManifest p (numbered_manifest t p d m)
numbered_manifest-IsManifest t p d m w = record {
  manifest_generation = next_generation-lt t d;
  storage_namespace_id = w.storage_namespace_id;
  cumulative_watermark = w.cumulative_watermark;
  exported_through_lsn = w.exported_through_lsn;
  statistics_root_hash = w.statistics_root_hash;
  segments = w.segments;
  ascending = w.ascending;
  few = w.few;
  short = w.short;
}

-- The bytes that were encoded are read as the manifest that was numbered.
pub reads_back :
    (t : Text) (p : Platform) (d : Dir) (m : DatabaseManifest) (bytes : List ℕ)
    → IsPlatform p
    → IsManifest p m
    → encode_manifest p (numbered_manifest t p d m) ≡ ok bytes
    → decode_manifest p bytes ≡ ok (as_read (numbered_manifest t p d m))
reads_back t p d m bytes lawful w h =
    let m' = numbered_manifest t p d m in
    let (file, e, back) =
      decode_manifest-encode_manifest p m' lawful (numbered_manifest-IsManifest t p d m w) in
    let same : file ≡ bytes = ok_inj (sym e ∙ h) in ap (decode_manifest p) (sym same) ∙ back

pub commit-fresh :
    (t : Text) (p : Platform) (d : Dir) (m : DatabaseManifest)
    → get (target_of t p d) d ≡ none
    → commit t p d m ≡ (
        encode_manifest p (numbered_manifest t p d m)
        >>= (λ bytes. ok (with_current t p d bytes, committed t p d m bytes)))
unfolding commit
commit-fresh t p d m e = rw (e, commit) refl

commit-taken :
    (t : Text) (p : Platform) (d : Dir) (m : DatabaseManifest) (bytes : List ℕ)
    → get (target_of t p d) d ≡ some bytes
    → commit t p d m ≡ err (corrupt "hrkm commit" generation_exists)
unfolding commit
commit-taken t p d m bytes e = rw (e, commit) refl

refused_twice :
    {x : V6Error} {a : Dir × LoadedManifest}
    → ◌≡◌ {A = V6Result (Dir × LoadedManifest)} (err x) (ok a)
    → ⊥
refused_twice h = cc

found_as :
    (t : Text) (p : Platform) (x y : Dir × LoadedManifest)
    → x ≡ y
    → load t p x.0 ≡ some (record (x.1) { manifest = as_read x.1.manifest })
    → load t p y.0 ≡ some (record (y.1) { manifest = as_read y.1.manifest })
found_as t p x y e h = rw (← e) h

-- Where a commit of a well-formed manifest within the limits returns, the next load finds, through
-- `CURRENT` and under the path and the digest that commit returned, the manifest that commit numbered
-- as the format keeps it: with version 1, the format's identifier and no v1 segments, whatever these
-- were in the argument, and with every other field as it was committed.
pub load-commit :
    (t : Text) (p : Platform) (d e : Dir) (m : DatabaseManifest) (l : LoadedManifest)
    → IsText t
    → IsPlatform p
    → IsSorted d
    → IsManifest p m
    → commit t p d m ≡ ok (e, l)
    → load t p e ≡ some record l { manifest = as_read l.manifest }
load-commit t p d e m l text lawful sorted w h = elim (Option-cases (get (target_of t p d) d)) [
  | inr (b, there) ↦ absurd (refused_twice (sym (commit-taken t p d m b there) ∙ h))
  | inl fresh ↦
      let (bytes, encoded, same) =
        bind-eq-ok (encode_manifest p (numbered_manifest t p d m)) _
          (sym (commit-fresh t p d m fresh) ∙ h) in
      found_as t p (with_current t p d bytes, committed t p d m bytes) (e, l) (ok_inj same)
        (loaded_new t p text lawful d sorted bytes (as_read (numbered_manifest t p d m))
          (reads_back t p d m bytes lawful w encoded) refl)
]

-- A commit that stops anywhere leaves a directory whose load gives what `CURRENT` led to before it, or
-- the new manifest.
pub load-IsInterrupted :
    (t : Text) (p : Platform) (d : Dir) (m : DatabaseManifest) (bytes : List ℕ) (e : Dir)
    (l : LoadedManifest) (g : ℕ)
    → IsText t
    → IsPlatform p
    → IsSorted d
    → IsManifest p m
    → get (target_of t p d) d ≡ none
    → encode_manifest p (numbered_manifest t p d m) ≡ ok bytes
    → load_from_current t p d ≡ some l
    → l.path ≡ path_for t g
    → IsInterrupted t p d bytes e
    → (load t p e ≡ some l)
      ⊎ (load t p e
          ≡ some
              record (committed t p d m bytes) { manifest = as_read (numbered_manifest t p d m) })
load-IsInterrupted t p d m bytes _ l g text lawful sorted w fresh h c path untouched =
    inl (found t p d l c)
load-IsInterrupted t p d m bytes _ l g text lawful sorted w fresh h c path (writing torn) = inl (
    kept t p text lawful d sorted bytes l g _ c path fresh
      (λ j a b f. get-insert j (with_tmp (target_of t p d)) torn d ∙ rw b refl))
load-IsInterrupted t p d m bytes _ l g text lawful sorted w fresh h c path written = inl (
    kept t p text lawful d sorted bytes l g _ c path fresh
      (λ j a b f. get-replace_file (target_of t p d) j bytes d sorted ∙ rw a (rw b refl)))
load-IsInterrupted t p d m bytes _ l g text lawful sorted w fresh h c path (pointing torn) = inl (
    kept t p text lawful d sorted bytes l g _ c path fresh (λ j a b f.
      get-insert j (with_tmp current_file) torn (with_manifest t p d bytes)
      ∙ rw f (get-replace_file (target_of t p d) j bytes d sorted ∙ rw a (rw b refl))))
load-IsInterrupted t p d m bytes _ l g text lawful sorted w fresh h c path pointed = inr (
    loaded_new t p text lawful d sorted bytes (as_read (numbered_manifest t p d m))
      (reads_back t p d m bytes lawful w h) refl)
