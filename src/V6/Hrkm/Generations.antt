-- ===== src/V6/Hrkm/Generations.antt =====
-- Generations and derived artifacts of heraclitus-log/src/v6/manifest.rs, written and read back.
use crates.Prelude.{ℕ, ◌+◌, ◌*◌, ◌^◌, ◌≤◌, ◌<◌, ◌≡◌, refl, ◌∙◌, arith}
use crates.Prelude.{String}
use crates.Prelude.{
  List, [], ◌∷◌, ◌++◌, append_assoc, Option, none, some, All, length, length-append,
}
use crates.Core.Runtime.{PhysicalGeneration, DerivedArtifactRef}
use crates.Core.Codes.{layout_u8, codec_u8, state_u8}
use crates.Core.Codes.RoundTrip.{layout_from_u8_iff, codec_from_u8_iff, state_from_u8_iff}
use crates.V6.Platform.{Platform, IsPlatform}
use crates.V6.Varint.{IsU64}
use crates.V6.Hrkm.{
  hard_max_location_bytes, varint_bytes, encode_generation, encode_generations, encode_artifact,
}
use crates.V6.Hrkm.Decode.{
  decode_generation, decode_generations, decode_some_artifact, decode_artifact,
}
use crates.V6.Hrkm.Reading.{
  IsAt, Reads, Reads-bind, read_u8-Reads, read_u32-Reads, read_v-Reads, read_array-Reads,
  read_string-Reads,
}

module _ (p : Platform) where
  -- A text with its length in front, before what follows it.
  abbrev pub text_then : String → List ℕ → List ℕ
  text_then t rest = varint_bytes (length (p.as_bytes t)) ++ (p.as_bytes t ++ rest)

  abbrev pub generation_then : PhysicalGeneration → List ℕ → List ℕ
  generation_then g rest =
      varint_bytes g.generation
      ++ (layout_u8 g.layout
          ∷ codec_u8 g.compression
          ∷ state_u8 g.state
          ∷ (varint_bytes g.physical_size
              ++ (g.physical_digest
                  ++ text_then g.location (
                      varint_bytes g.created_hlc
                      ++ (varint_bytes g.verified_hlc
                          ++ (varint_bytes g.superseded_hlc
                              ++ (varint_bytes g.verified_copies ++ rest)))))))

  abbrev pub generations_then : List PhysicalGeneration → List ℕ → List ℕ
  generations_then [] rest = rest
  generations_then (g ∷ gs) rest = generation_then g (generations_then gs rest)

  abbrev pub artifact_then : Option DerivedArtifactRef → List ℕ → List ℕ
  artifact_then none rest = 0 ∷ rest
  artifact_then (some a) rest =
      1
      ∷ text_then a.location (
          varint_bytes a.size
          ++ (a.digest ++ (a.logical_root ++ (varint_bytes a.created_hlc ++ rest))))

  pub encode_generation-then :
      (out : List ℕ) (g : PhysicalGeneration) (rest : List ℕ)
      → encode_generation p out g ++ rest ≡ out ++ generation_then g rest
  unfolding encode_generation
  encode_generation-then out g rest = simp append_assoc refl

  pub encode_generations-then :
      (out : List ℕ) (gs : List PhysicalGeneration) (rest : List ℕ)
      → encode_generations p out gs ++ rest ≡ out ++ generations_then gs rest
  unfolding encode_generations
  encode_generations-then out [] rest = refl
  encode_generations-then out (g ∷ gs) rest =
      encode_generations-then (encode_generation p out g) gs rest
      ∙ encode_generation-then out g (generations_then gs rest)

  pub encode_artifact-then :
      (out : List ℕ) (a : Option DerivedArtifactRef) (rest : List ℕ)
      → encode_artifact p out a ++ rest ≡ out ++ artifact_then a rest
  unfolding encode_artifact
  encode_artifact-then out none rest = simp append_assoc refl
  encode_artifact-then out (some a) rest = simp append_assoc refl

  -- A text that the reader accepts.
  abbrev pub IsLocation : String → Type 0
  IsLocation t = length (p.as_bytes t) ≤ hard_max_location_bytes

  -- The fields are those of the Rust record: u64, u32, arrays of 32 bytes.
  pub record IsGeneration (g : PhysicalGeneration) : Type 0 where
    pub generation : g.generation < 2 ^ 32
    pub location : IsLocation g.location
    pub physical_size : IsU64 g.physical_size
    pub physical_digest : length g.physical_digest ≡ 32
    pub created_hlc : IsU64 g.created_hlc
    pub verified_hlc : IsU64 g.verified_hlc
    pub superseded_hlc : IsU64 g.superseded_hlc
    pub verified_copies : g.verified_copies < 2 ^ 32

  pub record IsArtifact (a : DerivedArtifactRef) : Type 0 where
    pub location : IsLocation a.location
    pub size : IsU64 a.size
    pub digest : length a.digest ≡ 32
    pub logical_root : length a.logical_root ≡ 32
    pub created_hlc : IsU64 a.created_hlc

  abbrev pub IsOptionalArtifact : Option DerivedArtifactRef → Type 0
  IsOptionalArtifact none = Unit {0}
  IsOptionalArtifact (some a) = IsArtifact a

  module _ (buf : List ℕ) (lawful : IsPlatform p) (short : length buf < 2 ^ p.usize_bits) where
    pub decode_generation-Reads :
        (g : PhysicalGeneration) (rest : List ℕ) (pos : ℕ)
        → IsGeneration g
        → IsAt buf pos (generation_then g rest)
        → Reads buf (decode_generation p buf pos) g rest
    unfolding decode_generation
    decode_generation-Reads g rest pos w h =
        Reads-bind _ (read_u32-Reads p buf lawful short _ _ _ _ w.generation h) λ _ h.
          Reads-bind _ (read_u8-Reads p buf lawful short _ _ _ _ h) λ _ h.
            rw ((layout_from_u8_iff (layout_u8 g.layout) g.layout).1 refl) (
              Reads-bind _ (read_u8-Reads p buf lawful short _ _ _ _ h) λ _ h.
                rw ((codec_from_u8_iff (codec_u8 g.compression) g.compression).1 refl) (
                  Reads-bind _ (read_u8-Reads p buf lawful short _ _ _ _ h) λ _ h.
                    rw ((state_from_u8_iff (state_u8 g.state) g.state).1 refl) (
                      Reads-bind _ (read_v-Reads p buf lawful short _ _ _ _ w.physical_size h)
                        λ _ h.
                          Reads-bind _
                            (read_array-Reads p buf lawful short _ _ _ _ _ w.physical_digest h)
                            λ _ h.
                              Reads-bind _
                                (read_string-Reads p buf lawful short _ _ _ _ w.location h)
                                λ _ h.
                                  Reads-bind _
                                    (read_v-Reads p buf lawful short _ _ _ _ w.created_hlc h)
                                    λ _ h.
                                      Reads-bind _
                                        (read_v-Reads p buf lawful short _ _ _ _ w.verified_hlc h)
                                        λ _ h.
                                          Reads-bind _
                                            (read_v-Reads p buf lawful short _ _ _ _
                                              w.superseded_hlc h)
                                            λ _ h.
                                              Reads-bind _
                                                (read_u32-Reads p buf lawful short _ _ _ _
                                                  w.verified_copies h)
                                                λ q h. (q, refl, h))))

    pub decode_generations-Reads :
        (gs : List PhysicalGeneration) (rest : List ℕ) (pos : ℕ)
        → All IsGeneration gs
        → IsAt buf pos (generations_then gs rest)
        → Reads buf (decode_generations p buf (length gs) pos) gs rest
    unfolding decode_generations
    decode_generations-Reads [] rest pos w h = (pos, refl, h)
    decode_generations-Reads (g ∷ gs) rest pos (w, ws) h =
        Reads-bind _ (decode_generation-Reads g _ _ w h)
          λ _ h. Reads-bind _ (decode_generations-Reads gs rest _ ws h) λ q h. (q, refl, h)

    pub decode_artifact-Reads :
        (a : Option DerivedArtifactRef) (rest : List ℕ) (pos : ℕ)
        → IsOptionalArtifact a
        → IsAt buf pos (artifact_then a rest)
        → Reads buf (decode_artifact p buf pos) a rest
    unfolding decode_artifact decode_some_artifact
    decode_artifact-Reads none rest pos w h =
        Reads-bind _ (read_u8-Reads p buf lawful short _ _ _ _ h) λ q h. (q, refl, h)
    decode_artifact-Reads (some a) rest pos w h =
        Reads-bind _ (read_u8-Reads p buf lawful short _ _ _ _ h) λ _ h.
          Reads-bind _ (read_string-Reads p buf lawful short _ _ _ _ w.location h) λ _ h.
            Reads-bind _ (read_v-Reads p buf lawful short _ _ _ _ w.size h) λ _ h.
              Reads-bind _ (read_array-Reads p buf lawful short _ _ _ _ _ w.digest h) λ _ h.
                Reads-bind _ (read_array-Reads p buf lawful short _ _ _ _ _ w.logical_root h) λ _ h.
                  Reads-bind _ (read_v-Reads p buf lawful short _ _ _ _ w.created_hlc h)
                    λ q h. (q, refl, h)

  -- A generation takes 32 bytes at least, its digest's.
  pub length-generations_then :
      (gs : List PhysicalGeneration) (rest : List ℕ)
      → All IsGeneration gs
      → length gs * 32 + length rest ≤ length (generations_then gs rest)
  length-generations_then [] rest w = omega arith
  length-generations_then (g ∷ gs) rest (w, ws) =
      let ih = length-generations_then gs rest ws in
      simp length-append (omega (arith, w.physical_digest, ih))
