-- ===== src/Vm/Replay.antt =====
-- `run` of heraclitus-core/src/vm/interpreter.rs against the abstract view of its two tables, a
-- function of the keys.
use crates.Prelude.{ℕ, max, ◌≡◌, refl, ap, List, [], ◌∷◌, Option, none, some}
use crates.Prelude.{if◌then◌else◌, fun_ext, sym, ◌∙◌}
use crates.Prelude.Bytes.{bytes_eq}
use crates.Prelude.ByteMap.{get, get-insert, get-remove, IsSorted}
use crates.Prelude.ByteMap.{insert-IsSorted, remove-IsSorted}
use crates.Prelude.ByteMap.Extensional.{IsSorted-extensional}
use crates.Vm.{VmInstruction, upsert, delete, split_shard, VmState, reduce_step, run, lsn_of}

-- The abstract view: a table as a function of its keys, before and after an instruction.
abbrev pub Layers : Type 0
Layers = List ℕ → Option (List ℕ)

abbrev pub write : VmInstruction → Layers → Layers
write (upsert key val lsn ev_id) t k = if bytes_eq k key then some val else t k
write (delete key lsn ev_id) t k = if bytes_eq k key then none else t k
write (split_shard shard_id split_key new_shard_id lsn) t k = t k

abbrev pub route : VmInstruction → (List ℕ → Option ℕ) → List ℕ → Option ℕ
route (upsert key val lsn ev_id) t k = t k
route (delete key lsn ev_id) t k = t k
route (split_shard shard_id split_key new_shard_id lsn) t k =
    if bytes_eq k split_key then some new_shard_id else t k

abbrev pub write_all : List VmInstruction → Layers → Layers
write_all [] t = t
write_all (i ∷ is) t = write_all is (write i t)

abbrev pub route_all : List VmInstruction → (List ℕ → Option ℕ) → List ℕ → Option ℕ
route_all [] t = t
route_all (i ∷ is) t = route_all is (route i t)

abbrev pub highest : List VmInstruction → ℕ → ℕ
highest [] n = n
highest (i ∷ is) n = highest is (max n (lsn_of i))

abbrev pub latest : List VmInstruction → ℕ → ℕ
latest [] n = n
latest (i ∷ is) n = latest is (lsn_of i)

abbrev pub IsOrdered : VmState → Type 0
IsOrdered s = IsSorted s.memory_layers × IsSorted s.active_routing_table

abbrev pub layers : VmState → Layers
layers s k = get k s.memory_layers

abbrev pub routes : VmState → List ℕ → Option ℕ
routes s k = get k s.active_routing_table

-- How a concrete state stands for an abstract one.
pub record IsReplayed (s s' : VmState) (is : List VmInstruction) : Type 0 where
  pub ordered : IsOrdered s'
  pub contents : layers s' ≡ write_all is (layers s)
  pub routing : routes s' ≡ route_all is (routes s)
  pub point : s'.max_lsn_applied ≡ highest is s.max_lsn_applied
  pub position : s'.current_lsn ≡ latest is s.current_lsn

reduce_step-IsReplayed :
    (s : VmState) (i : VmInstruction) → IsOrdered s → IsReplayed s (reduce_step s i) (i ∷ [])
unfolding reduce_step lsn_of
reduce_step-IsReplayed s (upsert key val lsn ev_id) (m, r) = record {
  ordered = (insert-IsSorted key val s.memory_layers m, r);
  contents = fun_ext (λ (k : List ℕ). get-insert k key val s.memory_layers);
  routing = refl;
  point = refl;
  position = refl;
}
reduce_step-IsReplayed s (delete key lsn ev_id) (m, r) = record {
  ordered = (remove-IsSorted key s.memory_layers m, r);
  contents = fun_ext (λ (k : List ℕ). get-remove k key s.memory_layers m);
  routing = refl;
  point = refl;
  position = refl;
}
reduce_step-IsReplayed s (split_shard shard_id split_key new_shard_id lsn) (m, r) = record {
  ordered = (m, insert-IsSorted split_key new_shard_id s.active_routing_table r);
  contents = refl;
  routing = fun_ext (λ (k : List ℕ). get-insert k split_key new_shard_id s.active_routing_table);
  point = refl;
  position = refl;
}

-- From a state with ordered tables `run` leaves ordered tables that hold, key by key, what the
-- instructions say in their order, the highest LSN seen and the LSN of the last instruction.
pub run-IsReplayed :
    (s : VmState) (is : List VmInstruction) → IsOrdered s → IsReplayed s (run s is) is
unfolding run
run-IsReplayed s [] o = record {
  ordered = o;
  contents = refl;
  routing = refl;
  point = refl;
  position = refl;
}
run-IsReplayed s (i ∷ is) o =
    let a = reduce_step-IsReplayed s i o in
    let b = run-IsReplayed (reduce_step s i) is a.ordered in
    record {
      ordered = b.ordered;
      contents = b.contents ∙ ap (write_all is) a.contents;
      routing = b.routing ∙ ap (route_all is) a.routing;
      point = b.point ∙ ap (highest is) a.point;
      position = b.position ∙ ap (latest is) a.position;
    }

-- Two streams that say the same of each key and each boundary, with one highest and one last LSN,
-- leave the very same state, in whatever way their instructions were interleaved.
pub run_converges :
    (s : VmState) (is js : List VmInstruction)
    → IsOrdered s
    → ((k : List ℕ) → write_all is (layers s) k ≡ write_all js (layers s) k)
    → ((k : List ℕ) → route_all is (routes s) k ≡ route_all js (routes s) k)
    → highest is s.max_lsn_applied ≡ highest js s.max_lsn_applied
    → latest is s.current_lsn ≡ latest js s.current_lsn
    → run s is ≡ run s js
run_converges s is js o h r p q =
    let a = run-IsReplayed s is o in
    let b = run-IsReplayed s js o in
    let (a1, a2) = a.ordered in
    let (b1, b2) = b.ordered in
    let m : (run s is).memory_layers ≡ (run s js).memory_layers =
      IsSorted-extensional (run s is).memory_layers (run s js).memory_layers a1 b1 (λ (k : List ℕ).
        ap (λ (t : Layers). t k) a.contents ∙ h k ∙ sym (ap (λ (t : Layers). t k) b.contents)) in
    let t : (run s is).active_routing_table ≡ (run s js).active_routing_table =
      IsSorted-extensional (run s is).active_routing_table (run s js).active_routing_table a2 b2
        (λ (k : List ℕ).
          ap (λ (t : List ℕ → Option ℕ). t k) a.routing
          ∙ r k
          ∙ sym (ap (λ (t : List ℕ → Option ℕ). t k) b.routing)) in
    let x : (run s is).max_lsn_applied ≡ (run s js).max_lsn_applied = a.point ∙ p ∙ sym b.point in
    let y : (run s is).current_lsn ≡ (run s js).current_lsn = a.position ∙ q ∙ sym b.position in
    λ i. record {
      current_lsn = y i;
      max_lsn_applied = x i;
      memory_layers = m i;
      active_routing_table = t i;
    }
