-- ===== src/Vm/Codec/RoundTrip.antt =====
-- `decode` after `encode`, of heraclitus-core/src/vm/codec.rs.
use crates.Prelude.{ℕ, ◌+◌, ◌-◌, ◌%◌, ◌^◌, ◌<◌, ◌≡◌, refl, sym, ap, ◌∙◌, arith}
use crates.Prelude.{List, [], ◌++◌, append-nil, append_assoc, length, take, drop, length-append}
use crates.Prelude.{drop-drop, take-append_self, drop-append_self}
use crates.Prelude.Outcome.{ok}
use crates.Prelude.BigEndian.{to_be_bytes, from-to_be_bytes, length-to_be_bytes}
use crates.Vm.{VmInstruction, upsert, delete, split_shard}
use crates.Vm.Codec.{read_upsert, read_delete, read_split, read_args, consumed}
use crates.Vm.Codec.{put_bytes, encode_payload, decode_payload, encode, decode, field}
use crates.Vm.Codec.{op_upsert_le, op_delete_le, op_split_lt}
use native.Mathlib.Nat.{mod-eq_of_lt}
use crates.Vm.Codec.Reading.{at, IsAt, Reads, read_uint-Reads, event_id-Reads, var_bytes-Reads}

-- The fields fit the integers of the frame, and so does the length of the payload.
abbrev pub IsEncodable : VmInstruction → Type 0
IsEncodable (upsert key val lsn ev_id) =
    (lsn < 2 ^ 64) × (length ev_id ≡ 16) × (32 + length key + length val < 2 ^ 32)
IsEncodable (delete key lsn ev_id) =
    (lsn < 2 ^ 64) × (length ev_id ≡ 16) × (28 + length key < 2 ^ 32)
IsEncodable (split_shard shard_id split_key new_shard_id lsn) =
    (shard_id < 2 ^ 64)
    × (new_shard_id < 2 ^ 64)
    × (lsn < 2 ^ 64)
    × (28 + length split_key < 2 ^ 32)

abbrev pub opcode_of : VmInstruction → ℕ
opcode_of (upsert key val lsn ev_id) = op_upsert_le
opcode_of (delete key lsn ev_id) = op_delete_le
opcode_of (split_shard shard_id split_key new_shard_id lsn) = op_split_lt

-- A byte field with its length, as the payload's reader meets it.
abbrev var_field : List ℕ → List ℕ → List ℕ
var_field s rest = to_be_bytes 4 (length s % 2 ^ 32) ++ (s ++ rest)

-- The payload, bracketed to the right.
abbrev pub payload_of : VmInstruction → List ℕ
payload_of (upsert key val lsn ev_id) =
    to_be_bytes 8 lsn ++ (ev_id ++ var_field key (var_field val []))
payload_of (delete key lsn ev_id) = to_be_bytes 8 lsn ++ (ev_id ++ var_field key [])
payload_of (split_shard shard_id split_key new_shard_id lsn) =
    to_be_bytes 8 lsn
    ++ (to_be_bytes 8 shard_id ++ (to_be_bytes 8 new_shard_id ++ var_field split_key []))

pub encode_payload_lem : (i : VmInstruction) → encode_payload i ≡ (opcode_of i, payload_of i)
unfolding encode_payload put_bytes
encode_payload_lem (upsert key val lsn ev_id) = simp (append-nil, append_assoc) refl
encode_payload_lem (delete key lsn ev_id) = simp (append-nil, append_assoc) refl
encode_payload_lem (split_shard shard_id split_key new_shard_id lsn) =
    simp (append-nil, append_assoc) refl

pub length-payload_of : (i : VmInstruction) → IsEncodable i → length (payload_of i) < 2 ^ 32
length-payload_of (upsert key val lsn ev_id) (a, e, f) =
    simp (length-append, length-to_be_bytes) (omega arith)
length-payload_of (delete key lsn ev_id) (a, e, f) =
    simp (length-append, length-to_be_bytes) (omega arith)
length-payload_of (split_shard shard_id split_key new_shard_id lsn) (a, b, c, f) =
    simp (length-append, length-to_be_bytes) (omega arith)

opcode_of_below : (i : VmInstruction) → opcode_of i < 256 ^ 2
opcode_of_below (upsert key val lsn ev_id) = omega arith
opcode_of_below (delete key lsn ev_id) = omega arith
opcode_of_below (split_shard shard_id split_key new_shard_id lsn) = omega arith

read_args-payload_of :
    (i : VmInstruction) (b : List ℕ)
    → IsEncodable i
    → IsAt b 0 (payload_of i)
    → (pos : ℕ) × Reads b (read_args (opcode_of i) (at b 0)) i pos []
unfolding read_args read_upsert read_delete read_split
read_args-payload_of (upsert key val lsn ev_id) b (a, e, f) h =
    let (e1, h1) = read_uint-Reads b (ev_id ++ var_field key (var_field val [])) 0 8 lsn h a in
    let (e2, h2) = event_id-Reads b ev_id (var_field key (var_field val [])) (0 + 8) h1 e in
    let (e3, h3) = var_bytes-Reads b key (var_field val []) (0 + 8 + 16) h2 (omega arith) in
    let (e4, h4) = var_bytes-Reads b val [] (0 + 8 + 16 + 4 + length key) h3 (omega arith) in
    (_, (rw e1 (rw e2 (rw e3 (rw e4 refl))), h4))
read_args-payload_of (delete key lsn ev_id) b (a, e, f) h =
    let (e1, h1) = read_uint-Reads b (ev_id ++ var_field key []) 0 8 lsn h a in
    let (e2, h2) = event_id-Reads b ev_id (var_field key []) (0 + 8) h1 e in
    let (e3, h3) = var_bytes-Reads b key [] (0 + 8 + 16) h2 (omega arith) in
    (_, (rw e1 (rw e2 (rw e3 refl)), h3))
read_args-payload_of (split_shard shard_id split_key new_shard_id lsn) b (a, c, l, f) h =
    let (e1, h1) =
      read_uint-Reads b
        (to_be_bytes 8 shard_id ++ (to_be_bytes 8 new_shard_id ++ var_field split_key [])) 0 8 lsn h
        l in
    let (e2, h2) =
      read_uint-Reads b (to_be_bytes 8 new_shard_id ++ var_field split_key []) (0 + 8) 8 shard_id h1
        a in
    let (e3, h3) = read_uint-Reads b (var_field split_key []) (0 + 8 + 8) 8 new_shard_id h2 c in
    let (e4, h4) = var_bytes-Reads b split_key [] (0 + 8 + 8 + 8) h3 (omega arith) in
    (_, (rw e1 (rw e2 (rw e3 (rw e4 refl))), h4))

decode_payload-payload_of :
    (i : VmInstruction) → IsEncodable i → decode_payload (opcode_of i) (payload_of i) ≡ ok i
unfolding decode_payload consumed
decode_payload-payload_of i h =
    let l = length-payload_of i h in
    let (pos, (e, (d, m, k))) =
      read_args-payload_of i (payload_of i) h (refl, omega arith, omega arith) in
    rw e (ground arith)

-- The header and the payload that `encode` writes, before what follows them.
abbrev pub frame : ℕ → VmInstruction → List ℕ → List ℕ
frame version i rest =
    to_be_bytes 2 (opcode_of i)
    ++ (to_be_bytes 2 version ++ (to_be_bytes 4 (length (payload_of i)) ++ (payload_of i ++ rest)))

pub encode-frame :
    (version : ℕ) (i : VmInstruction) (rest : List ℕ)
    → IsEncodable i
    → encode version i ++ rest ≡ frame version i rest
unfolding encode
encode-frame version i rest h =
    rw (encode_payload_lem i) (rw (mod-eq_of_lt (length-payload_of i h)) (simp append_assoc refl))

pub length-frame :
    (version : ℕ) (i : VmInstruction) (rest : List ℕ)
    → length (frame version i rest) ≡ 8 + length (payload_of i) + length rest
length-frame version i rest = simp (length-append, length-to_be_bytes) (omega arith)

pub field_lem :
    (bs xs : List ℕ) (from w n : ℕ)
    → drop from bs ≡ to_be_bytes w n ++ xs
    → n < 256 ^ w
    → (field bs from w ≡ n) × (drop (from + w) bs ≡ xs)
field_lem bs xs from w n h fits =
    let l = length-to_be_bytes w n in
    let a : take w (to_be_bytes w n ++ xs) ≡ to_be_bytes w n =
      ap (λ (k : ℕ). take k (to_be_bytes w n ++ xs)) (sym l)
      ∙ take-append_self (to_be_bytes w n) xs in
    let b : drop w (to_be_bytes w n ++ xs) ≡ xs =
      ap (λ (k : ℕ). drop k (to_be_bytes w n ++ xs)) (sym l)
      ∙ drop-append_self (to_be_bytes w n) xs in
    (rw h (rw a (from-to_be_bytes w n fits)), sym (drop-drop from w bs) ∙ rw h b)

-- What `decode` reads of the header of a frame, and where the payload begins.
pub frame_header :
    (version : ℕ) (i : VmInstruction) (rest : List ℕ)
    → version < 2 ^ 16
    → IsEncodable i
    → (field (frame version i rest) 0 2 ≡ opcode_of i)
      × (field (frame version i rest) 2 2 ≡ version)
      × (field (frame version i rest) 4 4 ≡ length (payload_of i))
      × (drop 8 (frame version i rest) ≡ payload_of i ++ rest)
frame_header version i rest v h =
    let f = frame version i rest in
    let p = payload_of i ++ rest in
    let l = to_be_bytes 4 (length (payload_of i)) ++ p in
    let (a, a') =
      field_lem f (to_be_bytes 2 version ++ l) 0 2 (opcode_of i) refl (opcode_of_below i) in
    let (b, b') = field_lem f l 2 2 version a' v in
    let (c, c') = field_lem f p 4 4 (length (payload_of i)) b' (length-payload_of i h) in
    (a, b, c, c')

-- `decode` gives back what `encode` framed and reads nothing after the frame.
pub decode-encode :
    (version : ℕ) (i : VmInstruction) (rest : List ℕ)
    → version < 2 ^ 16
    → IsEncodable i
    → decode (encode version i ++ rest) ≡ ok (version, i)
unfolding decode
decode-encode version i rest v h =
    let (a, b, c, d) = frame_header version i rest v h in
    let p : take (8 + length (payload_of i) - 8) (payload_of i ++ rest) ≡ payload_of i =
      ap (λ (k : ℕ). take k (payload_of i ++ rest)) (omega arith)
      ∙ take-append_self (payload_of i) rest in
    rw (encode-frame version i rest h) (
      rw (a, b, c, d, length-frame version i rest)
        (rw (p, decode_payload-payload_of i h) (ground arith)))
