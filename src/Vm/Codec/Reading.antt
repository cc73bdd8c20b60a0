-- ===== src/Vm/Codec/Reading.antt =====
-- The reads of `Reader` in heraclitus-core/src/vm/codec.rs, where the wanted bytes stand at its position.
use crates.Prelude.{ℕ, ◌+◌, ◌%◌, ◌^◌, ◌<◌, ◌≡◌, refl, sym, ap, ◌∙◌, arith}
use crates.Prelude.{List, ◌++◌, length, take, drop, drop-drop, length-append}
use crates.Prelude.{take-append_self, drop-append_self}
use crates.Prelude.Outcome.{Outcome, ok}
use crates.Prelude.BigEndian.{to_be_bytes, from-to_be_bytes, length-to_be_bytes}
use crates.Vm.Codec.{VmCodecError, Reader, take_bytes, read_uint, event_id, var_bytes}
use native.Mathlib.Nat.{mod-eq_of_lt}

abbrev pub at : List ℕ → ℕ → Reader
at b pos = record { b = b; pos = pos }

-- The unread bytes are `xs`, and the buffer's length is a usize.
abbrev pub IsAt : List ℕ → ℕ → List ℕ → Type 0
IsAt b pos xs = (drop pos b ≡ xs) × (pos + length xs ≡ length b) × (length b < 2 ^ 64)

-- A read that gives `x` and leaves the cursor before `rest`.
abbrev pub Reads :
    {A : Type 0} → List ℕ → Outcome VmCodecError (A × Reader) → A → ℕ → List ℕ → Type 0
Reads b r x pos rest = (r ≡ ok (x, at b pos)) × IsAt b pos rest

pub take_bytes-Reads :
    (b s rest : List ℕ) (pos n : ℕ)
    → IsAt b pos (s ++ rest)
    → length s ≡ n
    → Reads b (take_bytes (at b pos) n) s (pos + n) rest
unfolding take_bytes
take_bytes-Reads b s rest pos n (d, e, f) h =
    let cut : take n (drop pos b) ≡ s = rw d (rw (sym h) (take-append_self s rest)) in
    let left : drop (pos + n) b ≡ rest =
      sym (drop-drop pos n b) ∙ rw d (rw (sym h) (drop-append_self s rest)) in
    (ground (arith, length-append s rest), (left, omega (arith, length-append s rest), f))

pub read_uint-Reads :
    (b rest : List ℕ) (pos w n : ℕ)
    → IsAt b pos (to_be_bytes w n ++ rest)
    → n < 256 ^ w
    → Reads b (read_uint w (at b pos)) n (pos + w) rest
unfolding read_uint
read_uint-Reads b rest pos w n h fits =
    let (e, k) = take_bytes-Reads b (to_be_bytes w n) rest pos w h (length-to_be_bytes w n) in
    (rw e (ap (λ (m : ℕ). ok (m, at b (pos + w))) (from-to_be_bytes w n fits)), k)

pub event_id-Reads :
    (b ev_id rest : List ℕ) (pos : ℕ)
    → IsAt b pos (ev_id ++ rest)
    → length ev_id ≡ 16
    → Reads b (event_id (at b pos)) ev_id (pos + 16) rest
unfolding event_id
event_id-Reads b ev_id rest pos h e = take_bytes-Reads b ev_id rest pos 16 h e

pub var_bytes-Reads :
    (b s rest : List ℕ) (pos : ℕ)
    → IsAt b pos (to_be_bytes 4 (length s % 2 ^ 32) ++ (s ++ rest))
    → length s < 2 ^ 32
    → Reads b (var_bytes (at b pos)) s (pos + 4 + length s) rest
unfolding var_bytes
var_bytes-Reads b s rest pos h fits =
    let (e, k) = read_uint-Reads b (s ++ rest) pos 4 (length s % 2 ^ 32) h (omega arith) in
    let (e', k') = take_bytes-Reads b s rest (pos + 4) (length s) k refl in
    (rw e (rw (mod-eq_of_lt fits) e'), k')
