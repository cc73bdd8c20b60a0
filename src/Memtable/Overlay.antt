-- ===== src/Memtable/Overlay.antt =====
-- The adjacency overlay of heraclitus-memtable/src/lib.rs against the entries of the tail, through
-- the operations of several threads.
use crates.Prelude.{ℕ, suc, ◌<◌, ◌≡◌, ◌≢◌, refl, sym, arith, ltb, leb}
use crates.Prelude.{inl, inr, Bool-cases, List, [], ◌∷◌, ◌++◌, All, length}
use crates.Prelude.Search.{In}
use crates.Memtable.{
  Episode, Memtable, new, add_children, forget_child, forget_children, forget_adjacency, evict_over,
  evict_below, publish, apply, prune_below, clear_entries, clear_adjacency, children_of,
}
use crates.Memtable.Adjacency.{
  named_by, IsKeyed, IsFresh, IsDistinct, IsKeyed-add_children, IsKeyed-forget_child,
}
use crates.Memtable.Lost.{
  Lost, AllRaced, forget_adjacency-Lost, added-Lost, added-AllRaced, cleared-Lost, crossed-Lost,
}

IsKeyed-forget_children :
    (child : ℕ) (parents : List ℕ) (rows : List (ℕ × List ℕ))
    → IsKeyed rows
    → IsKeyed (forget_children parents child rows)
unfolding forget_children
IsKeyed-forget_children child [] rows k = k
IsKeyed-forget_children child (x ∷ parents) rows k =
    IsKeyed-forget_children child parents (forget_child x child rows)
      (IsKeyed-forget_child x child rows k)

-- What holds of a memtable while `pending` clears are under way, with the ids of the events that were
-- applied during a clear.
record IsOverlay (pending : ℕ) (raced : List ℕ) (entries : List (ℕ × Episode))
    (rows : List (ℕ × List ℕ)) : Type 0 where
  pub keyed : IsKeyed rows
  pub distinct : IsDistinct entries
  pub quiet : pending ≡ 0 → Lost raced entries rows
  pub busy : 0 < pending → AllRaced raced entries

forget_adjacency-IsOverlay :
    (k : ℕ) (raced : List ℕ) (lsn : ℕ) (e : Episode) (entries : List (ℕ × Episode))
    (rows : List (ℕ × List ℕ))
    → IsOverlay k raced ((lsn, e) ∷ entries) rows
    → IsOverlay k raced entries (forget_adjacency e rows)
unfolding forget_adjacency
forget_adjacency-IsOverlay k raced lsn e entries rows o =
    let (fresh, rest) = o.distinct in
    record {
      keyed = IsKeyed-forget_children e.id e.parents rows o.keyed;
      distinct = rest;
      quiet = λ z. forget_adjacency-Lost raced lsn e entries rows o.keyed fresh (o.quiet z);
      busy = λ n. let (first, others) = o.busy n in others;
    }

evict_over-IsOverlay :
    (k : ℕ) (raced : List ℕ) (cap : ℕ) (entries : List (ℕ × Episode)) (rows : List (ℕ × List ℕ))
    → IsOverlay k raced entries rows
    → IsOverlay k raced (evict_over cap entries rows).0 (evict_over cap entries rows).1
unfolding evict_over
evict_over-IsOverlay k raced cap [] rows o = o
evict_over-IsOverlay k raced cap ((lsn, e) ∷ entries) rows o =
    elim (Bool-cases (ltb cap (length ((lsn, e) ∷ entries)))) [
      | inl t ↦ rw t (
          evict_over-IsOverlay k raced cap entries (forget_adjacency e rows)
            (forget_adjacency-IsOverlay k raced lsn e entries rows o))
      | inr t ↦ rw t o
    ]

evict_below-IsOverlay :
    (k : ℕ) (raced : List ℕ) (watermark : ℕ) (entries : List (ℕ × Episode))
    (rows : List (ℕ × List ℕ))
    → IsOverlay k raced entries rows
    → IsOverlay k raced
        (evict_below watermark entries rows).0
        (evict_below watermark entries rows).1
unfolding evict_below
evict_below-IsOverlay k raced watermark [] rows o = o
evict_below-IsOverlay k raced watermark ((lsn, e) ∷ entries) rows o =
    elim (Bool-cases (leb lsn watermark)) [
      | inl t ↦ rw t (
          evict_below-IsOverlay k raced watermark entries (forget_adjacency e rows)
            (forget_adjacency-IsOverlay k raced lsn e entries rows o))
      | inr t ↦ rw t o
    ]

IsFresh-snoc :
    (id lsn : ℕ) (e : Episode) (entries : List (ℕ × Episode))
    → IsFresh id entries
    → e.id ≢ id
    → IsFresh id (entries ++ ((lsn, e) ∷ []))
IsFresh-snoc id lsn e [] h k = (k, tt)
IsFresh-snoc id lsn e (x ∷ entries) (g, h) k = (g, IsFresh-snoc id lsn e entries h k)

IsDistinct-snoc :
    (lsn : ℕ) (e : Episode) (entries : List (ℕ × Episode))
    → IsDistinct entries
    → IsFresh e.id entries
    → IsDistinct (entries ++ ((lsn, e) ∷ []))
IsDistinct-snoc lsn e [] h k = (tt, tt)
IsDistinct-snoc lsn e ((l, x) ∷ entries) (g, h) (n, k) = (
  IsFresh-snoc x.id lsn e entries g (λ (q : e.id ≡ x.id). n (sym q)),
  IsDistinct-snoc lsn e entries h k,
)

-- What a memtable goes through, with the number of clears that are between their two statements and
-- the ids of the events that were applied meanwhile. An event comes once while it is in the tail. The
-- second statement of a clear takes place between two other operations, or in an `apply`, behind its
-- first parents `ps`; inside an eviction it has the effect that it has behind it.
pub data IsReached (cap : ℕ) : ℕ → List ℕ → Memtable → Type 0 where
  created : IsReached cap 0 [] (new cap)
  applied :
      (raced : List ℕ) (m : Memtable) (lsn : ℕ) (e : Episode)
      → IsFresh e.id m.entries
      → IsReached cap 0 raced m
      → IsReached cap 0 raced (apply lsn e m)
  applied_meanwhile :
      (k : ℕ) (raced : List ℕ) (m : Memtable) (lsn : ℕ) (e : Episode)
      → IsFresh e.id m.entries
      → IsReached cap (suc k) raced m
      → IsReached cap (suc k) (e.id ∷ raced) (apply lsn e m)
  pruned :
      (k : ℕ) (raced : List ℕ) (m : Memtable) (watermark : ℕ)
      → IsReached cap k raced m
      → IsReached cap k raced (prune_below watermark m)
  clear_begun :
      (k : ℕ) (raced : List ℕ) (m : Memtable)
      → IsReached cap k raced m
      → IsReached cap (suc k) raced (clear_entries m)
  clear_ended :
      (k : ℕ) (raced : List ℕ) (m : Memtable)
      → IsReached cap (suc k) raced m
      → IsReached cap k raced (clear_adjacency m)
  clear_ended_within :
      (k : ℕ) (raced : List ℕ) (m : Memtable) (lsn : ℕ) (e : Episode) (ps qs : List ℕ)
      → e.parents ≡ ps ++ qs
      → IsFresh e.id m.entries
      → IsReached cap (suc k) raced m
      → IsReached cap k (e.id ∷ raced) (publish lsn e (add_children qs e.id []) m)

IsReached-IsOverlay :
    (cap k : ℕ) (raced : List ℕ) (m : Memtable)
    → IsReached cap k raced m
    → IsOverlay k raced m.entries m.adjacency
unfolding apply prune_below
IsReached-IsOverlay cap k raced m created = record {
  keyed = tt;
  distinct = tt;
  quiet = λ _. cleared-Lost [] [] tt;
  busy = λ _. tt;
}
IsReached-IsOverlay cap k raced m (applied raced' a lsn e f r) =
    let o = IsReached-IsOverlay cap 0 raced' a r in
    evict_over-IsOverlay 0 raced' a.cap (a.entries ++ ((lsn, e) ∷ []))
      (add_children e.parents e.id a.adjacency)
      (record {
        keyed = IsKeyed-add_children e.id e.parents a.adjacency o.keyed;
        distinct = IsDistinct-snoc lsn e a.entries o.distinct f;
        quiet = λ z. added-Lost raced' lsn e a.entries a.adjacency (o.quiet z);
        busy = λ n. absurd (omega arith);
      })
IsReached-IsOverlay cap k raced m (applied_meanwhile j raced' a lsn e f r) =
    let o = IsReached-IsOverlay cap (suc j) raced' a r in
    evict_over-IsOverlay (suc j) (e.id ∷ raced') a.cap (a.entries ++ ((lsn, e) ∷ []))
      (add_children e.parents e.id a.adjacency)
      (record {
        keyed = IsKeyed-add_children e.id e.parents a.adjacency o.keyed;
        distinct = IsDistinct-snoc lsn e a.entries o.distinct f;
        quiet = λ z. absurd (omega arith);
        busy = λ n. added-AllRaced raced' lsn e a.entries (o.busy n);
      })
IsReached-IsOverlay cap k raced m (pruned j raced' a w r) =
    evict_below-IsOverlay j raced' w a.entries a.adjacency (IsReached-IsOverlay cap j raced' a r)
IsReached-IsOverlay cap k raced m (clear_begun j raced' a r) =
    let o = IsReached-IsOverlay cap j raced' a r in
    record { keyed = o.keyed; distinct = tt; quiet = λ z. absurd (omega arith); busy = λ _. tt }
IsReached-IsOverlay cap k raced m (clear_ended j raced' a r) =
    let o = IsReached-IsOverlay cap (suc j) raced' a r in
    let all = o.busy (omega arith) in
    record {
      keyed = tt;
      distinct = o.distinct;
      quiet = λ _. cleared-Lost raced' a.entries all;
      busy = λ _. all;
    }
IsReached-IsOverlay cap k raced m (clear_ended_within j raced' a lsn e ps qs cut f r) =
    let o = IsReached-IsOverlay cap (suc j) raced' a r in
    let all = o.busy (omega arith) in
    evict_over-IsOverlay j (e.id ∷ raced') a.cap (a.entries ++ ((lsn, e) ∷ []))
      (add_children qs e.id [])
      (record {
        keyed = IsKeyed-add_children e.id qs [] tt;
        distinct = IsDistinct-snoc lsn e a.entries o.distinct f;
        quiet = λ _. crossed-Lost raced' lsn e ps qs a.entries cut all;
        busy = λ _. added-AllRaced raced' lsn e a.entries all;
      })

-- Where no clear is under way, after any applications of events that are not in the tail, prunings
-- and clears, also overlapping, the children of every id are the entries of the tail that name it as a
-- parent, in their order, as often as they do, but for a front part, which holds events that
-- were applied during a clear and nothing else: none, if no application met a clear. Evicted entries
-- have left no trace.
pub children_of-named_by :
    (cap : ℕ) (raced : List ℕ) (m : Memtable)
    → IsReached cap 0 raced m
    → (id : ℕ)
    → (lost : List ℕ) × (named_by id m.entries ≡ lost ++ children_of id m)
      × All (λ (c : ℕ). In c raced) lost
unfolding children_of
children_of-named_by cap raced m r id = (IsReached-IsOverlay cap 0 raced m r).quiet refl id
