-- ===== src/V6/Platform.antt =====
-- What the code under heraclitus-log/src/v6 takes from the platform and from libraries: the width of
-- `usize`, the bytes of a `String` and back, BLAKE3, and the processor of cpm.rs.
use crates.Prelude.{ℕ, ◌^◌, ◌≤◌, ◌<◌, ◌≡◌, String, List, Option, some, length}
use crates.Log.Crc.{Cpu, crc32c, crc32c_lt}

pub record Platform : Type 0 where
  pub usize_bits : ℕ
  pub as_bytes : String → List ℕ
  pub from_utf8 : List ℕ → Option String
  pub blake3 : List ℕ → List ℕ
  pub cpu : Cpu

-- `super::crc32c_of`.
unfoldable pub crc32c_of : Platform → List ℕ → ℕ
unfolding crc32c
crc32c_of p bytes = crc32c p.cpu bytes

-- The target has 32 bits at least, a text is read back from its bytes, and a digest has 32 bytes.
pub record IsPlatform (p : Platform) : Type 0 where
  pub at_least : 32 ≤ p.usize_bits
  pub utf8 : (s : String) → p.from_utf8 (p.as_bytes s) ≡ some s
  pub digest : (bytes : List ℕ) → length (p.blake3 bytes) ≡ 32

pub crc32c_of_lt : (p : Platform) (bytes : List ℕ) → crc32c_of p bytes < 2 ^ 32
unfolding crc32c_of
crc32c_of_lt p bytes = crc32c_lt p.cpu bytes
