-- ===== src/Vm.antt =====
-- heraclitus-core/src/vm/interpreter.rs: the virtual machine whose state is the fold of an
-- instruction stream. An event id is its 16 bytes, in ULID order; a usize is 64 bits.
pub mod Replay
pub mod Codec
mod Tests
use crates.Prelude.{ℕ, List, [], ◌∷◌, foldl, max}
use crates.Prelude.ByteMap.{insert, remove}

pub data VmInstruction : Type 0 where
  upsert : (key val : List ℕ) (lsn : ℕ) (ev_id : List ℕ) → VmInstruction
  delete : (key : List ℕ) (lsn : ℕ) (ev_id : List ℕ) → VmInstruction
  split_shard : (shard_id : ℕ) (split_key : List ℕ) (new_shard_id lsn : ℕ) → VmInstruction

unfoldable pub lsn_of : VmInstruction → ℕ
lsn_of (upsert key val lsn ev_id) = lsn
lsn_of (delete key lsn ev_id) = lsn
lsn_of (split_shard shard_id split_key new_shard_id lsn) = lsn

pub record VmState : Type 0 where
  pub current_lsn : ℕ
  pub max_lsn_applied : ℕ
  pub memory_layers : List (List ℕ × List ℕ)
  pub active_routing_table : List (List ℕ × ℕ)

-- `VmState::default()`.
abbrev pub initial : VmState
initial = record {
  current_lsn = 0;
  max_lsn_applied = 0;
  memory_layers = [];
  active_routing_table = [];
}

unfoldable pub reduce_step : VmState → VmInstruction → VmState
reduce_step state (upsert key val lsn ev_id) = record {
  current_lsn = lsn;
  max_lsn_applied = max state.max_lsn_applied lsn;
  memory_layers = insert key val state.memory_layers;
  active_routing_table = state.active_routing_table;
}
reduce_step state (delete key lsn ev_id) = record {
  current_lsn = lsn;
  max_lsn_applied = max state.max_lsn_applied lsn;
  memory_layers = remove key state.memory_layers;
  active_routing_table = state.active_routing_table;
}
reduce_step state (split_shard shard_id split_key new_shard_id lsn) = record {
  current_lsn = lsn;
  max_lsn_applied = max state.max_lsn_applied lsn;
  memory_layers = state.memory_layers;
  active_routing_table = insert split_key new_shard_id state.active_routing_table;
}

unfoldable pub run : VmState → List VmInstruction → VmState
unfolding reduce_step
run state stream = foldl reduce_step state stream
