-- ===== src/Memtable/Lost.antt =====
-- heraclitus-memtable/src/lib.rs: what the adjacency overlay loses of the entries of the tail, where a
-- `clear` and an `apply` overlap.
use crates.Prelude.{ℕ, ◌≡◌, ◌⊎◌, refl, sym, ap, ◌∙◌, ◌==◌}
use crates.Prelude.{inl, inr, Bool-cases, List, [], ◌∷◌, ◌++◌, All, All-append}
use crates.Prelude.{append_assoc, append-nil}
use crates.Prelude.Search.{In}
use crates.Memtable.{Episode, row, add_children, forget_child, forget_children, forget_adjacency}
use crates.Memtable.Adjacency.{children, named, named_by, IsKeyed, IsFresh, others}
use crates.Memtable.Adjacency.{
  add_children-named, others-append, others-named, others-others, All-others, named-append,
  All-named, All-named_by, others-named_by, children-forget_child, IsKeyed-forget_child,
}

-- The child is gone from the row of `p`, if `p` is among the parents.
forget_children-others :
    (p child : ℕ) (parents : List ℕ) (rows : List (ℕ × List ℕ))
    → IsKeyed rows
    → ((named p parents child ≡ [])
        × (children p (forget_children parents child rows) ≡ children p rows))
      ⊎ (children p (forget_children parents child rows) ≡ others child (children p rows))
unfolding forget_children
forget_children-others p child [] rows k = inl (refl, refl)
forget_children-others p child (x ∷ parents) rows k =
    let c = children-forget_child p x child rows k in
    let ih =
      forget_children-others p child parents (forget_child x child rows)
        (IsKeyed-forget_child x child rows k) in
    elim (Bool-cases (x == p)) [
      | inl e ↦ elim ih [
        | inl (n, h) ↦ inr (h ∙ c ∙ rw e refl)
        | inr h ↦
            inr (h ∙ ap (others child) (c ∙ rw e refl) ∙ others-others child (children p rows))
      ]
      | inr e ↦ elim ih [
        | inl (n, h) ↦ inl (rw e n, h ∙ c ∙ rw e refl)
        | inr h ↦ inr (h ∙ ap (others child) (c ∙ rw e refl))
      ]
    ]

-- The entries' children of every id are those of its row, behind some that were lost.
abbrev pub Lost : List ℕ → List (ℕ × Episode) → List (ℕ × List ℕ) → Type 0
Lost raced entries rows =
    (p : ℕ)
    → (lost : List ℕ) × (named_by p entries ≡ lost ++ children p rows)
      × All (λ (c : ℕ). In c raced) lost

abbrev pub AllRaced : List ℕ → List (ℕ × Episode) → Type 0
AllRaced raced entries = All (λ (x : ℕ × Episode). In x.1.id raced) entries

pub forget_adjacency-Lost :
    (raced : List ℕ) (lsn : ℕ) (e : Episode) (entries : List (ℕ × Episode))
    (rows : List (ℕ × List ℕ))
    → IsKeyed rows
    → IsFresh e.id entries
    → Lost raced ((lsn, e) ∷ entries) rows
    → Lost raced entries (forget_adjacency e rows)
unfolding forget_adjacency
forget_adjacency-Lost raced lsn e entries rows k fresh h p =
    let (lost, same, all) = h p in
    elim (forget_children-others p e.id e.parents rows k) [
      | inl (n, kept) ↦
          let g : named_by p entries ≡ lost ++ children p rows =
            ap (λ zs. zs ++ named_by p entries) (sym n) ∙ same in
          (lost, g ∙ ap (λ zs. lost ++ zs) (sym kept), all)
      | inr gone ↦
          let g : named_by p entries ≡ others e.id lost ++ others e.id (children p rows) =
            sym (others-named_by p e.id entries fresh)
            ∙ ap (λ zs. zs ++ others e.id (named_by p entries))
                (sym (others-named p e.id e.parents))
            ∙ sym (others-append e.id (named p e.parents e.id) (named_by p entries))
            ∙ ap (others e.id) same
            ∙ others-append e.id lost (children p rows) in
          (
            others e.id lost,
            g ∙ ap (λ zs. others e.id lost ++ zs) (sym gone),
            All-others (λ (c : ℕ). In c raced) e.id lost all,
          )
    ]

named_by-snoc :
    (p lsn : ℕ) (e : Episode) (entries : List (ℕ × Episode))
    → named_by p (entries ++ ((lsn, e) ∷ [])) ≡ named_by p entries ++ named p e.parents e.id
named_by-snoc p lsn e [] = append-nil (named p e.parents e.id)
named_by-snoc p lsn e ((l, x) ∷ entries) =
    ap (λ zs. named p x.parents x.id ++ zs) (named_by-snoc p lsn e entries)
    ∙ sym (append_assoc (named p x.parents x.id) (named_by p entries) (named p e.parents e.id))

pub added-Lost :
    (raced : List ℕ) (lsn : ℕ) (e : Episode) (entries : List (ℕ × Episode))
    (rows : List (ℕ × List ℕ))
    → Lost raced entries rows
    → Lost raced (entries ++ ((lsn, e) ∷ [])) (add_children e.parents e.id rows)
added-Lost raced lsn e entries rows h p =
    let (lost, same, all) = h p in
    (
      lost,
      named_by-snoc p lsn e entries
          ∙ ap (λ zs. zs ++ named p e.parents e.id) same
          ∙ append_assoc lost (children p rows) (named p e.parents e.id)
          ∙ ap (λ zs. lost ++ zs) (sym (add_children-named p e.id e.parents rows)),
      all,
    )

raced_also :
    (id : ℕ) (raced : List ℕ) (entries : List (ℕ × Episode))
    → AllRaced raced entries
    → AllRaced (id ∷ raced) entries
raced_also id raced [] h = tt
raced_also id raced (x ∷ entries) (h, hs) = (inr h, raced_also id raced entries hs)

pub added-AllRaced :
    (raced : List ℕ) (lsn : ℕ) (e : Episode) (entries : List (ℕ × Episode))
    → AllRaced raced entries
    → AllRaced (e.id ∷ raced) (entries ++ ((lsn, e) ∷ []))
added-AllRaced raced lsn e entries h =
    All-append (λ (x : ℕ × Episode). In x.1.id (e.id ∷ raced)) entries ((lsn, e) ∷ [])
      (raced_also e.id raced entries h) (inl refl, tt)

empty_row : (p : ℕ) → children p [] ≡ []
unfolding row
empty_row p = refl

pub cleared-Lost :
    (raced : List ℕ) (entries : List (ℕ × Episode)) → AllRaced raced entries → Lost raced entries []
cleared-Lost raced entries h p = (
  named_by p entries,
  sym (append-nil (named_by p entries)) ∙ ap (λ zs. named_by p entries ++ zs) (sym (empty_row p)),
  All-named_by (λ (c : ℕ). In c raced) p entries h,
)

pub crossed-Lost :
    (raced : List ℕ) (lsn : ℕ) (e : Episode) (ps qs : List ℕ) (entries : List (ℕ × Episode))
    → e.parents ≡ ps ++ qs
    → AllRaced raced entries
    → Lost (e.id ∷ raced) (entries ++ ((lsn, e) ∷ [])) (add_children qs e.id [])
crossed-Lost raced lsn e ps qs entries cut h p = (
  named_by p entries ++ named p ps e.id,
  named_by-snoc p lsn e entries
      ∙ ap (λ zs. named_by p entries ++ zs)
          (ap (λ zs. named p zs e.id) cut ∙ named-append p e.id ps qs)
      ∙ sym (append_assoc (named_by p entries) (named p ps e.id) (named p qs e.id))
      ∙ ap (λ zs. (named_by p entries ++ named p ps e.id) ++ zs)
          (sym (add_children-named p e.id qs [] ∙ ap (λ zs. zs ++ named p qs e.id) (empty_row p))),
  All-append (λ (c : ℕ). In c (e.id ∷ raced)) (named_by p entries) (named p ps e.id)
      (All-named_by (λ (c : ℕ). In c (e.id ∷ raced)) p entries (raced_also e.id raced entries h))
      (All-named (λ (c : ℕ). In c (e.id ∷ raced)) p e.id ps (inl refl)),
)
