-- ===== src/Memtable/Visibility.antt =====
-- `apply` and then `get`, of heraclitus-memtable/src/lib.rs.
use crates.Prelude.{ℕ, zero, suc, ◌+◌, ◌-◌, ◌<◌, ◌≤◌, ◌≡◌, refl, sym, ap, ◌∙◌, arith, ltb}
use crates.Prelude.{inl, inr, Bool-cases, List, [], ◌∷◌, ◌++◌, some}
use crates.Prelude.{length, drop, drop_nil, length-drop, length-append}
use crates.Memtable.{Episode, Memtable, add_children, evict_over, apply, last_with, get}

-- The loop leaves the last `cap` entries.
pub evict_over-drop :
    (cap : ℕ) (entries : List (ℕ × Episode)) (rows : List (ℕ × List ℕ))
    → (evict_over cap entries rows).0 ≡ drop (length entries - cap) entries
unfolding evict_over
evict_over-drop cap [] rows = sym (drop_nil (0 - cap))
evict_over-drop cap ((lsn, e) ∷ entries) rows =
    elim (Bool-cases (ltb cap (length ((lsn, e) ∷ entries)))) [
      | inl t ↦
          let k : suc (length entries) - cap ≡ suc (length entries - cap) = ground arith in
          rw (t, k) (evict_over-drop cap entries _)
      | inr t ↦ let k : suc (length entries) - cap ≡ 0 = ground arith in rw (t, k) refl
    ]

last_with-append :
    (k id lsn : ℕ) (e : Episode) (entries : List (ℕ × Episode))
    → k ≤ length entries
    → e.id ≡ id
    → last_with id (drop k (entries ++ ((lsn, e) ∷ []))) ≡ some (lsn, e)
unfolding last_with
last_with-append zero id lsn e [] h p = ground arith
last_with-append zero id lsn e ((l, x) ∷ entries) h p =
    rw (last_with-append zero id lsn e entries (omega arith) p) refl
last_with-append (suc k) id lsn e [] h p = absurd (omega arith)
last_with-append (suc k) id lsn e ((l, x) ∷ entries) h p =
    last_with-append k id lsn e entries (omega arith) p

-- `apply` keeps the newest entries in their order, as many as the cap allows, and the episode itself
-- is what `get` gives for its id at once, whatever was there, unless the cap is 0.
pub get-apply :
    (lsn : ℕ) (e : Episode) (m : Memtable)
    → 0 < m.cap
    → (get e.id (apply lsn e m) ≡ some (lsn, e))
      × ((apply lsn e m).entries
          ≡ drop (length m.entries + 1 - m.cap) (m.entries ++ ((lsn, e) ∷ [])))
      × (length (apply lsn e m).entries ≤ m.cap)
unfolding get apply
get-apply lsn e m h =
    let all = m.entries ++ ((lsn, e) ∷ []) in
    let l : length all ≡ length m.entries + 1 = length-append m.entries ((lsn, e) ∷ []) in
    let d : (evict_over m.cap all (add_children e.parents e.id m.adjacency)).0
        ≡ drop (length m.entries + 1 - m.cap) all =
      evict_over-drop m.cap all (add_children e.parents e.id m.adjacency)
      ∙ ap (λ (k : ℕ). drop (k - m.cap) all) l in
    (
      rw d
          (last_with-append (length m.entries + 1 - m.cap) e.id lsn e m.entries (omega arith) refl),
      d,
      rw d (omega (arith, length-drop (length m.entries + 1 - m.cap) all, l)),
    )
