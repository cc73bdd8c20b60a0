-- ===== src/Vm/Tests.antt =====
-- The virtual machine and its frames on the instructions of the unit tests, and the theorems there.
use crates.Prelude.{ℕ, ◌≡◌, refl, arith, List, [], ◌∷◌, ◌++◌, some, replicate, take, length}
use crates.Prelude.{if◌then◌else◌, ltb}
use crates.Prelude.Outcome.{Outcome, ok, err}
use crates.Prelude.BigEndian.{to_be_bytes, from_be}
use crates.Vm.{VmInstruction, upsert, delete, split_shard, initial, run, lsn_of}
use crates.Vm.Replay.{IsReplayed, run-IsReplayed, run_converges}
use crates.Vm.Codec.{
  VmCodecError, truncated, encode, decode, decode_payload, read_args, decode_stream,
}
use crates.Vm.Codec.{unknown_opcode}
use crates.Vm.Codec.RoundTrip.{decode-encode}
use crates.Vm.Codec.Stream.{decode_stream-encode_all, decode_stream_total, decode_stream-torn}
use crates.Vm.Codec.Stream.{encode_all}

abbrev cpf : List ℕ
cpf = 99 ∷ 112 ∷ 102 ∷ []

abbrev ev : List ℕ
ev = replicate 16 7

abbrev put_one : VmInstruction
put_one = upsert cpf (222 ∷ 173 ∷ []) 1 ev

abbrev drop_one : VmInstruction
drop_one = delete cpf 2 ev

abbrev split_m : VmInstruction
split_m = split_shard 3 (109 ∷ []) 4 3

abbrev sample : List (ℕ × VmInstruction)
sample = (1, put_one) ∷ (1, drop_one) ∷ (1, split_m) ∷ []

abbrev Decoded : Type 0
Decoded = Outcome VmCodecError (ℕ × VmInstruction)

unknown : decode (255 ∷ 255 ∷ 0 ∷ 1 ∷ 0 ∷ 0 ∷ 0 ∷ 0 ∷ []) ≡ err (unknown_opcode 65535)
unfolding decode decode_payload read_args from_be
unknown = refl

decode-encode_example : decode (encode 1 put_one ++ (9 ∷ [])) ≡ ok (1, put_one)
decode-encode_example =
    decode-encode 1 put_one (9 ∷ []) (omega arith) (omega arith, refl, omega arith)

decode_stream-encode_all_example : decode_stream (encode_all sample) ≡ some (ok sample)
decode_stream-encode_all_example = decode_stream-encode_all sample (omega arith)

decode_stream_total_example :
    (r : Outcome VmCodecError (List (ℕ × VmInstruction))) × (decode_stream (1 ∷ 2 ∷ 3 ∷ [])
      ≡ some r)
decode_stream_total_example = decode_stream_total (1 ∷ 2 ∷ 3 ∷ [])

decode_stream-torn_example :
    decode_stream (encode_all sample ++ take 5 (encode 1 put_one))
    ≡ some (err (truncated (if ltb 5 8 then 8 else length (encode 1 put_one)) 5))
unfolding encode to_be_bytes
decode_stream-torn_example =
    decode_stream-torn sample 1 put_one 5 (omega arith) (omega arith)
      (omega arith, refl, omega arith) (omega arith) (omega arith)

abbrev script : List VmInstruction
script = put_one ∷ split_m ∷ drop_one ∷ []

run-IsReplayed_example : IsReplayed initial (run initial script) script
run-IsReplayed_example = run-IsReplayed initial script (tt, tt)

-- The upsert of a key that is deleted afterwards leaves no trace.
abbrev shortened : List VmInstruction
shortened = split_m ∷ drop_one ∷ []

run_converges_example : run initial script ≡ run initial shortened
unfolding lsn_of
run_converges_example =
    run_converges initial script shortened (tt, tt) (λ (k : List ℕ). ground arith)
      (λ (k : List ℕ). refl) refl refl
