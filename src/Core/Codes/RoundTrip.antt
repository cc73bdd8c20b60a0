-- ===== src/Core/Codes/RoundTrip.antt =====
-- The published numbers name layouts, codecs and states one to one.
use crates.Prelude.{ℕ, ◌≡◌, ◌↔◌, arith, some}
use crates.Core.Runtime.{PhysicalLayout, CompressionCodec, GenerationState}
use crates.Core.Codes.{layout_u8, codec_u8, state_u8, layout_from_u8, codec_from_u8, state_from_u8}

pub layout_from_u8_iff :
    (v : ℕ) (l : PhysicalLayout) → (layout_from_u8 v ≡ some l) ↔ (v ≡ layout_u8 l)
unfolding layout_from_u8
layout_from_u8_iff v l = ground arith

pub codec_from_u8_iff :
    (v : ℕ) (c : CompressionCodec) → (codec_from_u8 v ≡ some c) ↔ (v ≡ codec_u8 c)
unfolding codec_from_u8
codec_from_u8_iff v c = ground arith

pub state_from_u8_iff :
    (v : ℕ) (s : GenerationState) → (state_from_u8 v ≡ some s) ↔ (v ≡ state_u8 s)
unfolding state_from_u8
state_from_u8_iff v s = ground arith
