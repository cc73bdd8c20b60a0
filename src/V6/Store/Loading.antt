-- ===== src/V6/Store/Loading.antt =====
-- What `ManifestStore::load` of heraclitus-log/src/v6/manifest.rs reads of a directory.
use crates.Prelude.{ℕ, ◌≡◌, inl, inr, refl, sym, ap, ◌∙◌}
use crates.Prelude.{
  Bool, true, false, List, none, some, length, Bool-cases, Option-cases, none-ne-some, some_inj,
}
use crates.Prelude.{◌==◌, not, ◌&&◌}
use crates.Prelude.Bytes.{bytes_eq, bytes_eq_refl}
use crates.Prelude.ByteMap.{get}
use crates.Core.Runtime.{DatabaseManifest}
use crates.V6.Platform.{Platform}
use crates.V6.Error.{V6Result-cases, ok}
use crates.V6.Hrkm.Frame.{decode_manifest}
use crates.V6.Store.{
  Name, Dir, Text, LoadedManifest, current_file, current_name, other_digest, open_named,
  load_from_current, load, next_line, has_byte, hex32,
}

-- What a load through `CURRENT` gives.
abbrev pub loaded_as : DatabaseManifest → ℕ → List ℕ → Name → LoadedManifest
loaded_as m generation digest path = record {
  manifest = m;
  generation = generation;
  digest = digest;
  path = path;
  recovered_by_scan = false;
}

and_false : (b : Bool) → (b && false) ≡ false
and_false true = refl
and_false false = refl

module _ (t : Text) (p : Platform) where
  open_named-path :
      (d : Dir) (name : Name) (rest : List ℕ) (l : LoadedManifest)
      → open_named t p d (name, rest) ≡ some l
      → l.path ≡ name
  unfolding open_named
  open_named-path d name rest l h = elim (Option-cases (get name d)) [
    | inl e ↦ absurd (none-ne-some (rw (e, open_named) at h))
    | inr (bytes, e) ↦ elim (Bool-cases (other_digest t rest (p.blake3 bytes))) [
      | inl o ↦ absurd (none-ne-some (rw (e, o, open_named) at h))
      | inr o ↦ elim (V6Result-cases (decode_manifest p bytes)) [
        | inl (x, f) ↦ absurd (none-ne-some (rw (e, o, f, open_named) at h))
        | inr (m, f) ↦
            sym (ap (λ (k : LoadedManifest). k.path) (some_inj (rw (e, o, f, open_named) at h)))
      ]
    ]
  ]

  open_named-get :
      (d : Dir) (name : Name) (rest : List ℕ) (l : LoadedManifest)
      → open_named t p d (name, rest) ≡ some l
      → (bytes : List ℕ) × (get name d ≡ some bytes)
  unfolding open_named
  open_named-get d name rest l h = elim (Option-cases (get name d)) [
    | inl e ↦ absurd (none-ne-some (rw (e, open_named) at h))
    | inr x ↦ x
  ]

  current_name-agree :
      (d e : Dir) → get current_file e ≡ get current_file d → current_name t e ≡ current_name t d
  unfolding current_name
  current_name-agree d e c = rw (c, current_name) refl

  pub current_name-lines :
      (d : Dir) (raw line rest : List ℕ)
      → get current_file d ≡ some raw
      → t.is_utf8 raw ≡ true
      → next_line raw ≡ some (line, rest)
      → t.trim line ≡ line
      → (length line == 0) ≡ false
      → has_byte 47 line ≡ false
      → has_byte 92 line ≡ false
      → current_name t d ≡ some (line, rest)
  unfolding current_name
  current_name-lines d raw line rest c u n e z f b =
      rw (c, current_name) (rw u (rw n (rw e (rw z (rw f (rw b refl))))))

  pub open_named-ok :
      (d : Dir) (name : Name) (rest bytes : List ℕ) (m : DatabaseManifest)
      → get name d ≡ some bytes
      → other_digest t rest (p.blake3 bytes) ≡ false
      → decode_manifest p bytes ≡ ok m
      → open_named t p d (name, rest)
        ≡ some record {
          manifest = m;
          generation = m.manifest_generation;
          digest = p.blake3 bytes;
          path = name;
          recovered_by_scan = false;
        }
  unfolding open_named
  open_named-ok d name rest bytes m h o e = rw (h, open_named) (rw o (rw e refl))

  pub other_digest-lines :
      (rest digest line tail : List ℕ)
      → next_line rest ≡ some (line, tail)
      → t.trim line ≡ hex32 digest
      → other_digest t rest digest ≡ false
  unfolding other_digest
  other_digest-lines rest digest line tail n e =
      let same : bytes_eq (hex32 digest) (hex32 digest) ≡ true = bytes_eq_refl (hex32 digest) in
      rw (n, other_digest) (rw e (rw same (and_false (not (length (hex32 digest) == 0)))))

  open_named-agree :
      (d e : Dir) (name : Name) (rest : List ℕ)
      → get name e ≡ get name d
      → open_named t p e (name, rest) ≡ open_named t p d (name, rest)
  unfolding open_named
  open_named-agree d e name rest f = rw (f, open_named) refl

  pub found :
      (d : Dir) (l : LoadedManifest) → load_from_current t p d ≡ some l → load t p d ≡ some l
  unfolding load
  found d l h = rw (h, load) refl

  pub named :
      (d : Dir) (x : Name × List ℕ)
      → current_name t d ≡ some x
      → load_from_current t p d ≡ open_named t p d x
  unfolding load_from_current
  named d x h = rw (h, load_from_current) refl

  unnamed : (d : Dir) → current_name t d ≡ none → load_from_current t p d ≡ none
  unfolding load_from_current
  unnamed d h = rw (h, load_from_current) refl

  -- What `CURRENT` leads to depends on `CURRENT` and on the file that it names.
  pub load_from_current-agree :
      (d e : Dir) (l : LoadedManifest)
      → load_from_current t p d ≡ some l
      → get current_file e ≡ get current_file d
      → get l.path e ≡ get l.path d
      → load t p e ≡ some l
  load_from_current-agree d e l h c f = elim (Option-cases (current_name t d)) [
    | inl n ↦ absurd (none-ne-some (sym (unnamed d n) ∙ h))
    | inr ((name, rest), n) ↦
        let opened : open_named t p d (name, rest) ≡ some l = sym (named d (name, rest) n) ∙ h in
        let path = open_named-path d name rest l opened in
        let same : get name e ≡ get name d = rw path at f in
        found e l (
          named e (name, rest) (current_name-agree d e c ∙ n)
          ∙ open_named-agree d e name rest same
          ∙ opened)
  ]

  -- The file that `CURRENT` led to is there.
  pub load_from_current-get :
      (d : Dir) (l : LoadedManifest)
      → load_from_current t p d ≡ some l
      → (bytes : List ℕ) × (get l.path d ≡ some bytes)
  load_from_current-get d l h = elim (Option-cases (current_name t d)) [
    | inl n ↦ absurd (none-ne-some (sym (unnamed d n) ∙ h))
    | inr ((name, rest), n) ↦
        let opened : open_named t p d (name, rest) ≡ some l = sym (named d (name, rest) n) ∙ h in
        rw (open_named-path d name rest l opened) (open_named-get d name rest l opened)
  ]
