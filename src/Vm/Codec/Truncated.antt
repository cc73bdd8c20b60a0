-- ===== src/Vm/Codec/Truncated.antt =====
-- `decode` of heraclitus-core/src/vm/codec.rs on frames that are cut short.
use crates.Prelude.{ℕ, ◌+◌, ◌^◌, ◌<◌, ◌≡◌, sym, ap, ◌∙◌, arith, [], append-nil}
use crates.Prelude.{length, take, length-take, take-drop-take, ltb, if◌then◌else◌}
use crates.Prelude.Outcome.{err}
use crates.Vm.{VmInstruction}
use crates.Vm.Codec.{encode, decode, field, truncated}
use crates.Vm.Codec.RoundTrip.{IsEncodable, payload_of, frame, encode-frame, length-frame}
use crates.Vm.Codec.RoundTrip.{frame_header}

pub whole_frame :
    (version : ℕ) (i : VmInstruction) → IsEncodable i → encode version i ≡ frame version i []
whole_frame version i h = sym (append-nil (encode version i)) ∙ encode-frame version i [] h

pub length-encode :
    (version : ℕ) (i : VmInstruction)
    → IsEncodable i
    → length (encode version i) ≡ 8 + length (payload_of i)
length-encode version i h =
    ap length (whole_frame version i h) ∙ length-frame version i [] ∙ omega arith

-- Every proper prefix of a frame is refused as truncated: it needs the header where it is shorter
-- than that, and otherwise the whole frame.
pub decode-truncated :
    (version : ℕ) (i : VmInstruction) (k : ℕ)
    → version < 2 ^ 16
    → IsEncodable i
    → k < length (encode version i)
    → decode (take k (encode version i))
      ≡ err (truncated (if ltb k 8 then 8 else length (encode version i)) k)
unfolding decode
decode-truncated version i k v h below =
    let l = length-encode version i h in
    let c = length-take k (encode version i) in
    let (_, _, p, _) = frame_header version i [] v h in
    let e = whole_frame version i h in
    let q : field (encode version i) 4 4 ≡ length (payload_of i) = rw e p in
    ground (arith, take-drop-take 4 4 k (encode version i))
