-- ===== src/V6/Store/Written.antt =====
-- The files that `ManifestStore::commit` of heraclitus-log/src/v6/manifest.rs writes, and what leads to them.
use crates.Prelude.{ℕ, ◌≡◌, inl, inr, refl, sym, ap, ◌∙◌}
use crates.Prelude.{false, List, [], ◌∷◌, ◌++◌, none, some, Bool-cases, none-ne-some}
use crates.Prelude.Bytes.{bytes_eq, bytes_eq_refl, bytes_eq_sound}
use crates.Prelude.ByteMap.{get, IsSorted}
use crates.Core.Runtime.{DatabaseManifest}
use crates.V6.Platform.{Platform, IsPlatform}
use crates.V6.Error.{ok}
use crates.V6.Hrkm.Frame.{decode_manifest}
use crates.V6.Store.{
  Name, Dir, Text, LoadedManifest, current_file, with_tmp, path_for, next_generation, current_name,
  load_from_current, load, hex32,
}
use crates.V6.Store.Commit.{payload_of, target_of, with_manifest, with_current}
use crates.V6.Store.Lines.{
  hex32-IsVisible, next_line-append, path_for-IsVisible, path_for-has_no_slash, payload_of-is_utf8,
}
use crates.V6.Store.Names.{
  path_for-ne_empty, IsText, with_tmp-ne, path_for-ne_tmp, path_for-ne_current, current-ne_path_for,
  current-ne_tmp, get-replace_file, replace_file-IsSorted,
}
use crates.V6.Store.Loading.{
  loaded_as, load_from_current-agree, load_from_current-get, current_name-lines, open_named-ok,
  other_digest-lines, found, named,
}

module _ (t : Text) (p : Platform) where
  module _ (text : IsText t) (lawful : IsPlatform p) (d : Dir) (sorted : IsSorted d)
      (bytes : List ℕ) where
    -- A commit that stops before `CURRENT` is replaced leaves what `CURRENT` leads to.
    pub kept :
        (l : LoadedManifest) (g : ℕ) (e : Dir)
        → load_from_current t p d ≡ some l
        → l.path ≡ path_for t g
        → get (target_of t p d) d ≡ none
        → ((j : Name)
            → bytes_eq j (target_of t p d) ≡ false
            → bytes_eq j (with_tmp (target_of t p d)) ≡ false
            → bytes_eq j (with_tmp current_file) ≡ false
            → get j e ≡ get j d)
        → load t p e ≡ some l
    kept l g e h path fresh same =
        let target = target_of t p d in
        let apart : bytes_eq (path_for t g) target ≡ false =
          elim (Bool-cases (bytes_eq (path_for t g) target)) [
            | inr x ↦ x
            | inl x ↦
                let same_name = bytes_eq_sound (path_for t g) target x in
                let (b, there) = load_from_current-get t p d l h in
                absurd (
                  none-ne-some
                    (sym fresh ∙ ap (λ (n : Name). get n d) (sym (path ∙ same_name)) ∙ there))
          ] in
        load_from_current-agree t p d e l h
          (same current_file (current-ne_path_for t (next_generation t d))
            (current-ne_tmp t (next_generation t d)) (with_tmp-ne current_file))
          (rw path (
            same (path_for t g) apart (path_for-ne_tmp t g target)
              (path_for-ne_tmp t g current_file)))

    -- The new manifest's file, and `CURRENT`, once they are written.
    manifest_file :
        (get (target_of t p d) (with_current t p d bytes) ≡ some bytes)
        × (get current_file (with_current t p d bytes)
            ≡ some (payload_of (target_of t p d) (p.blake3 bytes)))
    manifest_file =
        let target = target_of t p d in
        let g = next_generation t d in
        let payload = payload_of target (p.blake3 bytes) in
        let d' = with_manifest t p d bytes in
        let s' = replace_file-IsSorted target bytes d sorted in
        let there : get target d' ≡ some bytes =
          get-replace_file target target bytes d sorted ∙ rw (bytes_eq_refl target) refl in
        (
          get-replace_file current_file target payload d' s'
              ∙ rw (path_for-ne_current t g) (rw (path_for-ne_tmp t g current_file) there),
          get-replace_file current_file current_file payload d' s'
              ∙ rw (bytes_eq_refl current_file) refl,
        )

    -- `CURRENT` names the new manifest.
    current_written :
        current_name t (with_current t p d bytes)
        ≡ some (target_of t p d, hex32 (p.blake3 bytes) ++ (10 ∷ []))
    unfolding payload_of
    current_written =
        let g = next_generation t d in
        let target = path_for t g in
        let hex = hex32 (p.blake3 bytes) ++ (10 ∷ []) in
        let visible = path_for-IsVisible t text g in
        let (no_slash, no_backslash) = path_for-has_no_slash t text g in
        current_name-lines t p (with_current t p d bytes) (payload_of target (p.blake3 bytes))
          target hex manifest_file.1 (payload_of-is_utf8 t text g (p.blake3 bytes))
          (next_line-append target hex visible) (text.trim target visible) (path_for-ne_empty t g)
          no_slash no_backslash

    -- What `CURRENT` leads to behind a commit.
    pub current_new :
        (m : DatabaseManifest)
        → decode_manifest p bytes ≡ ok m
        → m.manifest_generation ≡ next_generation t d
        → load_from_current t p (with_current t p d bytes)
          ≡ some (loaded_as m (next_generation t d) (p.blake3 bytes) (target_of t p d))
    current_new m e g =
        let e' = with_current t p d bytes in
        let hex = hex32 (p.blake3 bytes) in
        let visible = hex32-IsVisible (p.blake3 bytes) in
        let digest =
          other_digest-lines t p (hex ++ (10 ∷ [])) (p.blake3 bytes) hex []
            (next_line-append hex [] visible) (text.trim hex visible) in
        let opened =
          open_named-ok t p e' (target_of t p d) (hex ++ (10 ∷ [])) bytes m manifest_file.0 digest
            e in
        named t p e' _ current_written
        ∙ opened
        ∙ ap (λ (n : ℕ). some (loaded_as m n (p.blake3 bytes) (target_of t p d))) g

    pub loaded_new :
        (m : DatabaseManifest)
        → decode_manifest p bytes ≡ ok m
        → m.manifest_generation ≡ next_generation t d
        → load t p (with_current t p d bytes)
          ≡ some (loaded_as m (next_generation t d) (p.blake3 bytes) (target_of t p d))
    loaded_new m e g = found t p _ _ (current_new m e g)
