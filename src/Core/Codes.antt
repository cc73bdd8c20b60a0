-- ===== src/Core/Codes.antt =====
-- heraclitus-core/src/runtime.rs: the published numbers and names of the physical vocabulary. An
-- unknown number is a corruption error; what it says is left out.
pub mod RoundTrip
use crates.Prelude.{ℕ, String, Option, none, some, ◌==◌, if◌then◌else◌}
use crates.Core.Runtime.{PhysicalLayout, CompressionCodec, GenerationState}

-- `as u8` of the three enums.
abbrev pub layout_u8 : PhysicalLayout → ℕ
layout_u8 PhysicalLayout.raw = 0
layout_u8 PhysicalLayout.packed = 1

abbrev pub codec_u8 : CompressionCodec → ℕ
codec_u8 CompressionCodec.raw = 0
codec_u8 CompressionCodec.zstd = 1
codec_u8 CompressionCodec.lz4_raw = 2

abbrev pub state_u8 : GenerationState → ℕ
state_u8 GenerationState.writing = 0
state_u8 GenerationState.verified = 1
state_u8 GenerationState.active = 2
state_u8 GenerationState.superseded = 3
state_u8 GenerationState.archived = 4
state_u8 GenerationState.quarantined = 5

unfoldable pub layout_from_u8 : ℕ → Option PhysicalLayout
layout_from_u8 v =
    if v == 0 then some PhysicalLayout.raw else if v == 1 then some PhysicalLayout.packed else none

unfoldable pub codec_from_u8 : ℕ → Option CompressionCodec
codec_from_u8 v =
    if v == 0
    then some CompressionCodec.raw
    else if v == 1
    then some CompressionCodec.zstd
    else if v == 2
    then some CompressionCodec.lz4_raw
    else none

unfoldable pub state_from_u8 : ℕ → Option GenerationState
state_from_u8 v =
    if v == 0
    then some GenerationState.writing
    else if v == 1
    then some GenerationState.verified
    else if v == 2
    then some GenerationState.active
    else if v == 3
    then some GenerationState.superseded
    else if v == 4
    then some GenerationState.archived
    else if v == 5
    then some GenerationState.quarantined
    else none

abbrev pub layout_str : PhysicalLayout → String
layout_str PhysicalLayout.raw = "RAW"
layout_str PhysicalLayout.packed = "PACKED"

abbrev pub codec_str : CompressionCodec → String
codec_str CompressionCodec.raw = "RAW"
codec_str CompressionCodec.zstd = "ZSTD"
codec_str CompressionCodec.lz4_raw = "LZ4_RAW"

abbrev pub state_str : GenerationState → String
state_str GenerationState.writing = "WRITING"
state_str GenerationState.verified = "VERIFIED"
state_str GenerationState.active = "ACTIVE"
state_str GenerationState.superseded = "SUPERSEDED"
state_str GenerationState.archived = "ARCHIVED"
state_str GenerationState.quarantined = "QUARANTINED"
