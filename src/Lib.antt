-- ===== src/Lib.antt =====
-- HeraclitusDB: the segment format v6 of the log and its catalogue, the virtual machine that folds
-- instruction streams into state, the compiler's representation of scalar expressions, snapshots, the
-- memtable and codecs of columns.
--
-- The log is cut into segments. A sealed segment has a logical identity, the Merkle root over the
-- hashes of its records, and any number of physical generations (RAW, and PACKED after the packer
-- has run). The catalogue, the database manifest, names the segments, their generations and the
-- artefacts derived from them; operations of the manifest change it, and the garbage collection
-- plans which generations may go, checks the plan a second time, and applies it.
--
-- Prelude          names of the libraries, lists over the native numbers, searches and updates of
--                  lists, relations between lists, lists without repetition
-- Core.Runtime     heraclitus-core/src/runtime.rs: DatabaseManifest, SegmentDescriptorV2,
--                  PhysicalGeneration and their lookups; `segment_mut` and `generation_mut` with
--                  the write behind them are `modify_first`
-- Core.Codes       the same file: numbers and names of layouts, codecs and states
-- Core.Hlc         heraclitus-core/src/hlc.rs: the clock that threads share; a round of the loop of
--                  `now` is one step, and the wall clock is an argument
-- Core.Budget      heraclitus-core/src/runtime.rs: MemoryBudget
-- V6.Error         heraclitus-log/src/v6/error.rs: the result type; of a message its kind is kept
-- V6.Varint        heraclitus-log/src/v6/varint.rs: LEB128 of u64; the loops recur on the value by
--                  accessibility, and the reader on the bytes
-- V6.Merkle        heraclitus-log/src/v6/merkle.rs: the streaming accumulator, the root, inclusion
--                  proofs. BLAKE3 is the parameter `hash`; where a theorem needs it, its output has
--                  32 bytes, and collisions are an outcome of the statement
-- V6.Receipts      the records of heraclitus-log/src/v6/footer.rs and receipts.rs
-- V6.SegmentCheck  heraclitus-log/src/v6/manifest.rs, check_segment_coherence
-- V6.Platform      what the v6 code takes from the platform and from libraries
-- V6.Hrkm          heraclitus-log/src/v6/manifest.rs: encode_manifest and decode_manifest, the
--                  .hrkm file. A reader takes the position and returns the one behind what it
--                  read; the writers are those of CanonicalSink in canonical.rs
-- V6.Store         heraclitus-log/src/v6/manifest.rs: ManifestStore. A directory is a map from names
--                  to contents; formatting and parsing of text are parameters (Text), and a
--                  commit that stops is one of the directories that it passes through
-- V6.Manifest      heraclitus-log/src/v6/manifest.rs: register_sealed_raw, record_pack,
--                  quarantine_generation, attach_sidecar, attach_parquet, set_legal_hold,
--                  set_verified_copies. Each returns the manifest that it leaves and its result,
--                  since the source writes before some of its last checks
-- V6.Pins, V6.Gc   heraclitus-log/src/v6/gc.rs: readers, plan_gc, assert_gc_invariant, apply_gc
-- V6.Lifecycle     the operations of the two files as steps on the catalogue, in any order
-- Vm               heraclitus-core/src/vm/interpreter.rs and codec.rs: the state, reduce_step and
--                  run, and the frames that carry instructions. A BTreeMap is a list in the order
--                  of its keys (Prelude.ByteMap)
-- Ir               hume-ir/src/lib.rs: Function, Builder, verify, interpret, interpret_mask
-- Ir.Passes        hume-ir/src/passes.rs: constant_fold, dead_code_elimination, optimize
-- Txn              heraclitus-txn/src/lib.rs: Snapshot, SnapshotManager; the head of the log is an
--                  argument
-- Memtable         heraclitus-memtable/src/lib.rs: the tail that the views have not indexed
-- Log.Crc          heraclitus-log/src/cpm.rs: CRC-32C by table and by SSE4.2, whose instructions
--                  are parameters with their documented meaning
-- Kernel           hume-kernel/src/compression.rs: the modules rle and delta
--
-- The instructions of Vm reach the machine as a buffer that decode_stream cuts into frames. The
-- passes of Ir take a Function that verify has accepted, and interpret verifies it before it runs.
--
-- Bounds: LSNs, clocks, sizes and counts are numbers; where a u32 or u64 operation of the source
-- wraps or saturates, the definition says so. Merkle levels are the 64 of the source, enough for
-- fewer than 2 ^ 64 records. The tree walk of an inclusion proof runs on the number of levels left.
-- A binary search (`partition_point`) is modelled as the first element that fails its test, which
-- is what it returns where the list is ordered. The map of the pins is a list with the entries in
-- any order; the lock around it makes each of its operations one step. In the memtable apply and
-- prune_below hold a lock throughout, and clear is two steps, of which the second may fall into an
-- apply; clearing the concurrent map itself is one step, and so is each reader. The loop of
-- decode_stream runs on fuel, the length of the buffer, of which each round takes eight bytes at
-- least. In Ir an index out of bounds, which panics, is `none`; i64 wraps around, as in a build
-- without overflow checks, and the operations on f64 are a parameter on bits. A function has at most
-- 2 ^ 32 instructions.
--
-- Not modelled: errors of the file system other than a missing file, the removal of old manifests
-- and of temporary files, block and directory codecs, compression, counters and reports that only
-- read, the packing space estimate and the quantizer (floating point), the native code of the
-- expressions (jit.rs, Cranelift), and the other crates of the repository.
pub mod Prelude
pub mod Core
pub mod V6
pub mod Vm
pub mod Ir
pub mod Txn
pub mod Memtable
pub mod Kernel
pub mod Log
