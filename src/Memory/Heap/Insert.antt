-- ===== src/Memory/Heap/Insert.antt =====
-- A block put into the chain behind another: the store that `insert_behind` leaves, the chain in it,
-- and the entries of the hashmap.
use open_shmem_csci.Base.{ℕ, ◌^◌, ◌<◌, ◌≡◌, ◌≢◌, ◌∙◌, sym, ap, none, some, List, ◌∷◌, ◌++◌, arith}
use mathlib.Core.Path.{subst}
use native.Mathlib.Decide.{ℕ_discrete}
use open_shmem_csci.Memory.Store.{Store, Block, block, null, update, update_ne}
use open_shmem_csci.Memory.HashMap.Entry.{IsEntry}
use open_shmem_csci.Memory.Heap.Cells.{
  Cell, cell, cell_end, first, Linked, Avoids, Distinct, Linked-append, Linked-split, Linked-update,
  Avoids-split, Distinct-middle,
}

-- the store with the new block as `malloc` left it, and with the block linked in behind `c`
abbrev pub allocated : Store → ℕ → Block → Store
allocated s fresh raw = update s fresh (some raw)

abbrev pub inserted : Store → ℕ → Block → Cell → List Cell → Store
inserted s fresh raw c ys =
    update
      (update (allocated s fresh raw) fresh (some (block (cell_end c) raw.size (first null ys))))
      c.id (some (block c.ptr c.size fresh))

module _ (s : Store) (fresh : ℕ) (raw : Block) (unused : s fresh ≡ none) (ne_null : fresh ≢ null)
    (low : fresh < 2 ^ 63) where
  IsEntry-ne : (v : ℕ) → IsEntry s v → v ≢ fresh
  IsEntry-ne v e same = cc (ap s same, e.holds, unused)

  IsEntry-next_ne : (v : ℕ) (e : IsEntry s v) → e.node.next ≢ fresh
  IsEntry-next_ne v e same = cc (ap s same, e.next_holds, unused)

  pub IsEntry-allocated : (v : ℕ) → IsEntry s v → IsEntry (allocated s fresh raw) v
  IsEntry-allocated v e = record {
    node = e.node;
    successor = e.successor;
    ne_null = e.ne_null;
    holds = update_ne s fresh v (some raw) (IsEntry-ne v e) ∙ e.holds;
    next_ne_null = e.next_ne_null;
    next_holds = update_ne s fresh e.node.next (some raw) (IsEntry-next_ne v e) ∙ e.next_holds;
  }

  module _ (c : Cell) (ys : List Cell) (apart : c.id ≢ fresh) where
    inserted_self : (inserted s fresh raw c ys) c.id ≡ some (block c.ptr c.size fresh)
    unfolding update
    inserted_self = ground arith

    inserted_fresh :
        (inserted s fresh raw c ys) fresh ≡ some (block (cell_end c) raw.size (first null ys))
    unfolding update
    inserted_fresh = ground arith

    pub inserted_ne : (q : ℕ) → q ≢ c.id → q ≢ fresh → (inserted s fresh raw c ys) q ≡ s q
    unfolding update
    inserted_ne q h k = ground arith

    -- a live block stays live, with its own data or linked to the new one
    inserted_live :
        (q : ℕ) {b : Block}
        → q ≢ fresh
        → s q ≡ some b
        → (b' : Block) × ((inserted s fresh raw c ys) q ≡ some b')
    inserted_live q {b} h e = elim (ℕ_discrete q c.id) [
      | yes same ↦ (block c.ptr c.size fresh, ap (inserted s fresh raw c ys) same ∙ inserted_self)
      | no other ↦ (b, inserted_ne q other h ∙ e)
    ]

    pub IsEntry-inserted_self : c.id ≢ null → IsEntry (inserted s fresh raw c ys) c.id
    IsEntry-inserted_self ne = record {
      node = block c.ptr c.size fresh;
      successor = block (cell_end c) raw.size (first null ys);
      ne_null = ne;
      holds = inserted_self;
      next_ne_null = ne_null;
      next_holds = inserted_fresh;
    }

    pub IsEntry-inserted : (v : ℕ) → IsEntry s v → IsEntry (inserted s fresh raw c ys) v
    IsEntry-inserted v e = elim (ℕ_discrete v c.id) [
      | yes same ↦
          subst (IsEntry (inserted s fresh raw c ys)) (sym same)
            (IsEntry-inserted_self (λ z. e.ne_null (same ∙ z)))
      | no other ↦
          let (b, live) = inserted_live e.node.next (IsEntry-next_ne v e) e.next_holds in
          record {
            node = e.node;
            successor = b;
            ne_null = e.ne_null;
            holds = inserted_ne v other (IsEntry-ne v e) ∙ e.holds;
            next_ne_null = e.next_ne_null;
            next_holds = live;
          }
    ]

    pub IsEntry-inserted_fresh :
        (d : Cell) {b : Block} (zs : List Cell)
        → ys ≡ d ∷ zs
        → d.id ≢ null
        → d.id ≢ c.id
        → d.id ≢ fresh
        → s d.id ≡ some b
        → IsEntry (inserted s fresh raw c ys) fresh
    IsEntry-inserted_fresh d {b} zs e ne ne' ne'' live = record {
      node = block (cell_end c) raw.size (first null ys);
      successor = b;
      ne_null = ne_null;
      holds = inserted_fresh;
      next_ne_null = subst (λ t. first null t ≢ null) (sym e) ne;
      next_holds =
          ap (λ t. (inserted s fresh raw c ys) (first null t)) e ∙ inserted_ne d.id ne' ne'' ∙ live;
    }

    -- the chain with the new block in it
    pub Linked-inserted :
        (xs : List Cell)
        → Linked s null (xs ++ c ∷ ys)
        → Avoids fresh (xs ++ c ∷ ys)
        → Distinct (xs ++ c ∷ ys)
        → Linked (inserted s fresh raw c ys) null (xs ++ c ∷ cell fresh (cell_end c) raw.size ∷ ys)
    Linked-inserted xs h a d =
        let (l, l') = Linked-split s null xs (c ∷ ys) h in
        let (m, m') = Distinct-middle xs c ys d in
        let (n, n') = Avoids-split fresh xs (c ∷ ys) a in
        Linked-append (inserted s fresh raw c ys) null xs
          (c ∷ cell fresh (cell_end c) raw.size ∷ ys) (keep c.id xs m n l)
          (l'.0, l'.1, inserted_self, (ne_null, low, inserted_fresh, keep null ys m' n'.1 l'.3))
      where
        keep :
            (stop : ℕ) (cs : List Cell)
            → Avoids c.id cs
            → Avoids fresh cs
            → Linked s stop cs
            → Linked (inserted s fresh raw c ys) stop cs
        keep stop cs m n l =
            Linked-update _ stop c.id _ cs m
              (Linked-update _ stop fresh _ cs n (Linked-update s stop fresh _ cs n l))
