-- ===== src/Vm/Codec/Stream.antt =====
-- `decode_stream` of heraclitus-core/src/vm/codec.rs: its rounds, its fuel, whole and torn streams.
use crates.Prelude.{ℕ, zero, suc, ◌+◌, ◌^◌, ◌≤◌, ◌<◌, ◌≡◌, refl, sym, ap, ◌∙◌, arith}
use crates.Prelude.{List, [], ◌∷◌, ◌++◌, append-nil, append_assoc, Option, some}
use crates.Prelude.{inl, inr, Bool-cases, false}
use crates.Prelude.{
  take-drop-take, length, take, drop, All, length-append, length-drop, length-take,
}
use crates.Prelude.{take-append_self, drop-append_self, ltb, if◌then◌else◌}
use crates.Prelude.Outcome.{Outcome, ok, err, Outcome-cases}
use crates.Vm.{VmInstruction}
use crates.Vm.Codec.{VmCodecError, truncated, encode, decode, field, stream_loop, decode_stream}
use crates.Vm.Codec.RoundTrip.{IsEncodable, payload_of, encode-frame, frame_header}
use crates.Vm.Codec.RoundTrip.{decode-encode}
use crates.Vm.Codec.Truncated.{whole_frame, length-encode}

abbrev Item : Type 0
Item = ℕ × VmInstruction

abbrev after_frame :
    ℕ → List ℕ → List Item → Outcome VmCodecError Item → Option (Outcome VmCodecError (List Item))
after_frame fuel rest out (ok item) = stream_loop fuel rest (out ++ (item ∷ []))
after_frame fuel rest out (err e) = some (err e)

-- A round of the loop on a buffer that is not empty.
stream_round :
    (fuel : ℕ) (bs : List ℕ) (out : List Item)
    → 0 < length bs
    → stream_loop (suc fuel) bs out ≡ (
        if ltb (length bs) 8
        then some (err (truncated 8 (length bs)))
        else if ltb (length bs) (8 + field bs 4 4)
        then some (err (truncated (8 + field bs 4 4) (length bs)))
        else after_frame fuel
            (drop (8 + field bs 4 4) bs)
            out
            (decode (take (8 + field bs 4 4) bs)))
unfolding stream_loop
stream_round fuel [] out h = absurd (omega arith)
stream_round fuel (x ∷ xs) out h =
    elim (Outcome-cases (decode (take (8 + field (x ∷ xs) 4 4) (x ∷ xs)))) [
      | inl (e, p) ↦ rw p refl
      | inr (item, p) ↦ rw p refl
    ]

stream_loop-fuel :
    (f g : ℕ) (bs : List ℕ) (out : List Item)
    → length bs ≤ f
    → length bs ≤ g
    → stream_loop f bs out ≡ stream_loop g bs out
stream_loop-fuel f g [] out h k = unfold stream_loop in refl
stream_loop-fuel zero g (x ∷ xs) out h k = absurd (omega arith)
stream_loop-fuel (suc f) zero (x ∷ xs) out h k = absurd (omega arith)
stream_loop-fuel (suc f) (suc g) (x ∷ xs) out h k =
    let bs = x ∷ xs in
    let n = 8 + field (x ∷ xs) 4 4 in
    rw (stream_round f bs out (omega arith)) (
      rw (stream_round g bs out (omega arith)) (elim (Outcome-cases (decode (take n bs))) [
        | inl (e, p) ↦ rw p refl
        | inr (item, p) ↦ rw p (
            rw
              (stream_loop-fuel f g (drop n bs) (out ++ (item ∷ []))
                (omega (arith, length-drop n bs)) (omega (arith, length-drop n bs)))
              refl)
      ]))

stream_loop_total :
    (fuel : ℕ) (bs : List ℕ) (out : List Item)
    → length bs ≤ fuel
    → (r : Outcome VmCodecError (List Item)) × (stream_loop fuel bs out ≡ some r)
stream_loop_total fuel [] out h = unfold stream_loop in (ok out, refl)
stream_loop_total zero (x ∷ xs) out h = absurd (omega arith)
stream_loop_total (suc f) (x ∷ xs) out h =
    let bs = x ∷ xs in
    let n = 8 + field (x ∷ xs) 4 4 in
    let s = stream_round f bs out (omega arith) in
    elim (Bool-cases (ltb (length bs) 8)) [
      | inl a ↦ (err (truncated 8 (length bs)), s ∙ rw a refl)
      | inr a ↦ elim (Bool-cases (ltb (length bs) n)) [
        | inl b ↦ (err (truncated n (length bs)), s ∙ rw (a, b) refl)
        | inr b ↦ elim (Outcome-cases (decode (take n bs))) [
          | inl (e, p) ↦ (err e, s ∙ rw (a, b, p) refl)
          | inr (item, p) ↦
              let (r, q) =
                stream_loop_total f (drop n bs) (out ++ (item ∷ []))
                  (omega (arith, length-drop n bs)) in
              (r, s ∙ rw (a, b, p) q)
        ]
      ]
    ]

-- A buffer of any content is decoded or refused: the loop ends, whatever the lengths that it reads.
pub decode_stream_total :
    (bytes : List ℕ)
    → (r : Outcome VmCodecError (List (ℕ × VmInstruction))) × (decode_stream bytes ≡ some r)
unfolding decode_stream
decode_stream_total bytes = stream_loop_total (length bytes) bytes [] (omega arith)

-- Frames one after the other.
abbrev pub encode_all : List (ℕ × VmInstruction) → List ℕ
encode_all [] = []
encode_all ((version, i) ∷ items) = encode version i ++ encode_all items

abbrev pub IsItem : ℕ × VmInstruction → Type 0
IsItem (version, i) = (version < 2 ^ 16) × IsEncodable i

stream_loop-encode :
    (fuel version : ℕ) (i : VmInstruction) (rest : List ℕ) (out : List Item)
    → version < 2 ^ 16
    → IsEncodable i
    → stream_loop (suc fuel) (encode version i ++ rest) out
      ≡ stream_loop fuel rest (out ++ ((version, i) ∷ []))
stream_loop-encode fuel version i rest out v h =
    let bs = encode version i ++ rest in
    let l = length-encode version i h in
    let m = length-append (encode version i) rest in
    let (_, _, p, _) = frame_header version i rest v h in
    let q : 8 + field bs 4 4 ≡ length (encode version i) =
      rw (encode-frame version i rest h) (omega arith) in
    let t : take (8 + field bs 4 4) bs ≡ encode version i =
      rw q (take-append_self (encode version i) rest) in
    let d : drop (8 + field bs 4 4) bs ≡ rest = rw q (drop-append_self (encode version i) rest) in
    let e : decode (encode version i) ≡ ok (version, i) =
      ap decode (sym (append-nil (encode version i))) ∙ decode-encode version i [] v h in
    let no_header : ltb (length bs) 8 ≡ false = ground arith in
    let no_frame : ltb (length bs) (8 + field bs 4 4) ≡ false = ground arith in
    rw (stream_round fuel bs out (omega arith)) (rw (no_header, no_frame) (rw (t, d) (rw e refl)))

stream_loop-torn :
    (fuel version : ℕ) (i : VmInstruction) (k : ℕ) (out : List Item)
    → version < 2 ^ 16
    → IsEncodable i
    → 0 < k
    → k < length (encode version i)
    → stream_loop (suc fuel) (take k (encode version i)) out
      ≡ some (err (truncated (if ltb k 8 then 8 else length (encode version i)) k))
stream_loop-torn fuel version i k out v h pos below =
    let l = length-encode version i h in
    let c = length-take k (encode version i) in
    let (_, _, p, _) = frame_header version i [] v h in
    let q : field (encode version i) 4 4 ≡ length (payload_of i) = rw (whole_frame version i h) p in
    let s = stream_round fuel (take k (encode version i)) out (omega arith) in
    s ∙ ground (arith, take-drop-take 4 4 k (encode version i))

-- The frames leave the loop before what follows them, with one round of fuel spent on each.
stream_loop-encode_all :
    (f fuel : ℕ) (items : List Item) (tail : List ℕ) (out : List Item)
    → f ≡ length items + fuel
    → All IsItem items
    → stream_loop f (encode_all items ++ tail) out ≡ stream_loop fuel tail (out ++ items)
stream_loop-encode_all f fuel [] tail out e h =
    let p : f ≡ fuel = omega arith in rw (p, append-nil out) refl
stream_loop-encode_all zero fuel (item ∷ items) tail out e h = absurd (omega arith)
stream_loop-encode_all (suc f) fuel ((version, i) ∷ items) tail out e ((v, h), hs) =
    rw (append_assoc (encode version i) (encode_all items) tail) (
      stream_loop-encode f version i (encode_all items ++ tail) out v h
      ∙ stream_loop-encode_all f fuel items tail (out ++ ((version, i) ∷ [])) (omega arith) hs
      ∙ ap (stream_loop fuel tail) (append_assoc out ((version, i) ∷ []) items))

-- What the rest of a buffer gives after whole frames.
decode_stream-after :
    (items : List Item) (tail : List ℕ)
    → All IsItem items
    → decode_stream (encode_all items ++ tail)
      ≡ stream_loop (length (encode_all items ++ tail)) tail items
unfolding decode_stream
decode_stream-after items tail h =
    let bs = encode_all items ++ tail in
    stream_loop-fuel (length bs) (length items + length bs) bs [] (omega arith) (omega arith)
    ∙ stream_loop-encode_all (length items + length bs) (length bs) items tail [] refl h

-- `decode_stream` gives back every stream of encoded instructions, in order.
pub decode_stream-encode_all :
    (items : List (ℕ × VmInstruction))
    → All IsItem items
    → decode_stream (encode_all items) ≡ some (ok items)
decode_stream-encode_all items h =
    ap decode_stream (sym (append-nil (encode_all items)))
    ∙ decode_stream-after items [] h
    ∙ unfold stream_loop in refl

-- A stream whose last frame is cut short is refused whole, with what the last frame lacks.
pub decode_stream-torn :
    (items : List (ℕ × VmInstruction)) (version : ℕ) (i : VmInstruction) (k : ℕ)
    → All IsItem items
    → version < 2 ^ 16
    → IsEncodable i
    → 0 < k
    → k < length (encode version i)
    → decode_stream (encode_all items ++ take k (encode version i))
      ≡ some (err (truncated (if ltb k 8 then 8 else length (encode version i)) k))
decode_stream-torn items version i k hs v h pos below =
    let torn = take k (encode version i) in
    let bs = encode_all items ++ torn in
    let m = length-append (encode_all items) torn in
    decode_stream-after items torn hs
    ∙ stream_loop-fuel (length bs) (suc (length bs)) torn items (omega arith) (omega arith)
    ∙ stream_loop-torn (length bs) version i k items v h pos below
