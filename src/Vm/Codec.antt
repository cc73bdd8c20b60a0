-- ===== src/Vm/Codec.antt =====
-- heraclitus-core/src/vm/codec.rs: frames of instructions, an 8-byte header and a payload.
pub mod Reading
pub mod RoundTrip
pub mod Truncated
pub mod Stream
use crates.Prelude.{ℕ, suc, zero, ◌+◌, ◌-◌, ◌^◌, ◌%◌, List, [], ◌∷◌, ◌++◌, Option, none, some}
use crates.Prelude.{length, take, drop, ltb, leb, ◌==◌, if◌then◌else◌, not}
use crates.Prelude.Outcome.{Outcome, ok, err, ◌>>=◌}
use crates.Prelude.BigEndian.{to_be_bytes, from_be, from_be_bytes}
use crates.Vm.{VmInstruction, upsert, delete, split_shard}

-- opcode of vm/mod.rs.
abbrev pub op_upsert_le : ℕ
op_upsert_le = 1

abbrev pub op_delete_le : ℕ
op_delete_le = 2

abbrev pub op_split_lt : ℕ
op_split_lt = 257

abbrev pub header_len : ℕ
header_len = 8

pub data VmCodecError : Type 0 where
  truncated : (need have : ℕ) → VmCodecError
  unknown_opcode : ℕ → VmCodecError
  length_mismatch : (op declared consumed : ℕ) → VmCodecError

unfoldable pub put_bytes : List ℕ → List ℕ → List ℕ
put_bytes buf b = buf ++ to_be_bytes 4 (length b % 2 ^ 32) ++ b

unfoldable pub encode_payload : VmInstruction → ℕ × List ℕ
unfolding put_bytes
encode_payload (upsert key val lsn ev_id) =
    (op_upsert_le, put_bytes (put_bytes (to_be_bytes 8 lsn ++ ev_id) key) val)
encode_payload (delete key lsn ev_id) = (op_delete_le, put_bytes (to_be_bytes 8 lsn ++ ev_id) key)
encode_payload (split_shard shard_id split_key new_shard_id lsn) = (
  op_split_lt,
  put_bytes (to_be_bytes 8 lsn ++ to_be_bytes 8 shard_id ++ to_be_bytes 8 new_shard_id) split_key,
)

unfoldable pub encode : ℕ → VmInstruction → List ℕ
unfolding encode_payload
encode version instr =
    let (op, payload) = encode_payload instr in
    to_be_bytes 2 op
    ++ (to_be_bytes 2 version ++ (to_be_bytes 4 (length payload % 2 ^ 32) ++ payload))

-- A cursor over a payload.
pub record Reader : Type 0 where
  pub b : List ℕ
  pub pos : ℕ

unfoldable pub take_bytes : Reader → ℕ → Outcome VmCodecError (List ℕ × Reader)
take_bytes r n =
    let end = r.pos + n in
    if leb (2 ^ 64) end
    then err (truncated (2 ^ 64 - 1) (length r.b))
    else if ltb (length r.b) end
    then err (truncated end (length r.b))
    else ok (take n (drop r.pos r.b), record { b = r.b; pos = end })

unfoldable pub read_uint : ℕ → Reader → Outcome VmCodecError (ℕ × Reader)
unfolding take_bytes
read_uint w r = do (raw, r') ← take_bytes r w; ok (from_be_bytes raw, r')

unfoldable pub event_id : Reader → Outcome VmCodecError (List ℕ × Reader)
unfolding take_bytes
event_id r = take_bytes r 16

unfoldable pub var_bytes : Reader → Outcome VmCodecError (List ℕ × Reader)
unfolding read_uint take_bytes
var_bytes r = do (n, r') ← read_uint 4 r; take_bytes r' n

unfoldable pub read_upsert : Reader → Outcome VmCodecError (VmInstruction × Reader)
unfolding read_uint event_id var_bytes
read_upsert r = do
  (lsn, r1) ← read_uint 8 r
  (ev_id, r2) ← event_id r1
  (key, r3) ← var_bytes r2
  (val, r4) ← var_bytes r3
  ok (upsert key val lsn ev_id, r4)

unfoldable pub read_delete : Reader → Outcome VmCodecError (VmInstruction × Reader)
unfolding read_uint event_id var_bytes
read_delete r = do
  (lsn, r1) ← read_uint 8 r
  (ev_id, r2) ← event_id r1
  (key, r3) ← var_bytes r2
  ok (delete key lsn ev_id, r3)

unfoldable pub read_split : Reader → Outcome VmCodecError (VmInstruction × Reader)
unfolding read_uint var_bytes
read_split r = do
  (lsn, r1) ← read_uint 8 r
  (shard_id, r2) ← read_uint 8 r1
  (new_shard_id, r3) ← read_uint 8 r2
  (split_key, r4) ← var_bytes r3
  ok (split_shard shard_id split_key new_shard_id lsn, r4)

unfoldable pub read_args : ℕ → Reader → Outcome VmCodecError (VmInstruction × Reader)
unfolding read_upsert read_delete read_split
read_args op r =
    if op == op_upsert_le
    then read_upsert r
    else if op == op_delete_le
    then read_delete r
    else if op == op_split_lt
    then read_split r
    else err (unknown_opcode op)

-- Arguments that end before the payload does, or after it, are refused.
unfoldable pub consumed : ℕ → List ℕ → VmInstruction × Reader → Outcome VmCodecError VmInstruction
consumed op payload (instr, r) =
    if r.pos == length payload then ok instr else err (length_mismatch op (length payload) r.pos)

unfoldable pub decode_payload : ℕ → List ℕ → Outcome VmCodecError VmInstruction
unfolding read_args consumed
decode_payload op payload = read_args op record { b = payload; pos = 0 } >>= consumed op payload

-- The bytes `from .. to` of a slice, read as a number.
abbrev pub field : List ℕ → ℕ → ℕ → ℕ
field bytes from w = from_be_bytes (take w (drop from bytes))

unfoldable pub decode : List ℕ → Outcome VmCodecError (ℕ × VmInstruction)
unfolding decode_payload
decode bytes =
    if ltb (length bytes) header_len
    then err (truncated header_len (length bytes))
    else let end = header_len + field bytes 4 4 in
      if ltb (length bytes) end
      then err (truncated end (length bytes))
      else decode_payload (field bytes 0 2) (take (end - header_len) (drop header_len bytes))
        >>= (λ instr. ok (field bytes 2 2, instr))

-- The loop of `decode_stream`, `none` where the fuel is spent; every round takes a header at least.
unfoldable pub stream_loop :
    ℕ → List ℕ → List (ℕ × VmInstruction) → Option (Outcome VmCodecError (List (ℕ × VmInstruction)))
unfolding decode
stream_loop fuel [] out = some (ok out)
stream_loop zero (x ∷ xs) out = none
stream_loop (suc fuel) (x ∷ xs) out =
    let bytes = x ∷ xs in
    if ltb (length bytes) header_len
    then some (err (truncated header_len (length bytes)))
    else let frame_end = header_len + field bytes 4 4 in
      if ltb (length bytes) frame_end
      then some (err (truncated frame_end (length bytes)))
      else elim (decode (take frame_end bytes)) [
        | err e ↦ some (err e)
        | ok item ↦ stream_loop fuel (drop frame_end bytes) (out ++ (item ∷ []))
      ]

unfoldable pub decode_stream : List ℕ → Option (Outcome VmCodecError (List (ℕ × VmInstruction)))
unfolding stream_loop
decode_stream bytes = stream_loop (length bytes) bytes []
