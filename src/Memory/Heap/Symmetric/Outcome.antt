-- ===== src/Memory/Heap/Symmetric/Outcome.antt =====
-- What one call of `heap_malloc` does, by what the next-fit rule finds.
use mathlib.Core.Path.{subst}
use open_shmem_csci.Base.{
  ℕ, ◌+◌, ◌-◌, ◌^◌, ◌≤◌, ◌<◌, ◌≡◌, ◌≢◌, ◌∙◌, refl, sym, ap, inl, inr, Option, none, some, List, [],
  ◌∷◌, ◌++◌, arith,
}
use open_shmem_csci.Memory.Store.{Store, Block, null}
use open_shmem_csci.Memory.Heap.{Heap}
use open_shmem_csci.Memory.Heap.Cells.{Cell, cell, cell_end, start, Avoids, Distinct}
use open_shmem_csci.Memory.Heap.Search.{next_fit}
use open_shmem_csci.Memory.Heap.Bounds.{IsHeap-IsApart}
use open_shmem_csci.Memory.Heap.Malloc.{IsMalloc, IsPlaced}
use open_shmem_csci.Memory.Heap.Malloc.Fit.{IsTight, next_fit-IsRoom}
use open_shmem_csci.Memory.Heap.Malloc.Layout.{IsHeap}
use open_shmem_csci.Memory.Heap.Sequence.{All-middle}
use open_shmem_csci.Memory.Heap.Symmetric.{Same, Sames, IsMatched}

unique_split :
    (xs : List Cell) (c : Cell) (ys xs' : List Cell) (c' : Cell) (ys' : List Cell)
    → Distinct (xs ++ c ∷ ys)
    → xs ++ c ∷ ys ≡ xs' ++ c' ∷ ys'
    → c.id ≡ c'.id
    → (xs ≡ xs') × (c ≡ c') × (ys ≡ ys')
unique_split [] c ys [] c' ys' d e same = (refl, cc, cc)
unique_split [] c ys (x' ∷ xs') c' ys' d e same =
    let tail : ys ≡ xs' ++ c' ∷ ys' = cc in
    absurd ((All-middle (λ y. y.id ≢ c.id) xs' c' ys' (subst (Avoids c.id) tail d.0)).0 (sym same))
unique_split (x ∷ xs) c ys [] c' ys' d e same =
    let head : x ≡ c' = cc in
    absurd
      ((All-middle (λ y. y.id ≢ x.id) xs c ys d.0).0 (same ∙ ap (λ (y : Cell). y.id) (sym head)))
unique_split (x ∷ xs) c ys (x' ∷ xs') c' ys' d e same =
    let (l, m, r) = unique_split xs c ys xs' c' ys' d.1 (cc) same in (cc (l, e), m, r)

IsTight-middle :
    (bytes lim : ℕ) (xs : List Cell) (c : Cell) (ys : List Cell)
    → IsTight bytes lim (xs ++ c ∷ ys)
    → start lim ys - cell_end c < bytes
IsTight-middle bytes lim [] c ys h = h.0
IsTight-middle bytes lim (x ∷ xs) c ys h = IsTight-middle bytes lim xs c ys h.1

-- what a call does, by what the next-fit rule finds
abbrev pub Outcome :
    Heap
    → (before : List Cell) (h : Cell) (behind : List Cell) (fresh bytes : ℕ) → Option ℕ
    → ℕ × Heap × Store
    → Type 0
Outcome heap before h behind fresh bytes none r =
    (r.0 ≡ null) × (r.1 ≡ heap) × IsHeap r.2 heap before h behind
Outcome heap before h behind fresh bytes (some i) r =
    (p : IsPlaced heap (before ++ h ∷ behind) fresh bytes r) × (p.chosen.id ≡ i)

module _ {s : Store} {heap : Heap} {before behind : List Cell} {h : Cell}
    (is : IsHeap s heap before h behind) (fresh : ℕ) (raw : Block) (bytes : ℕ)
    (unused : s fresh ≡ none) (ne_null : fresh ≢ null) (low : fresh < 2 ^ 63) where
  pub IsMalloc-Outcome :
      (r : ℕ × Heap × Store) (o : Option ℕ)
      → next_fit bytes (heap.ptr + heap.size) before h behind ≡ o
      → IsMalloc is fresh raw bytes unused ne_null low r
      → Outcome heap before h behind fresh bytes o r
  IsMalloc-Outcome r none e (kept, inl (tight, nothing, same, laid_out)) = (nothing, same, laid_out)
  IsMalloc-Outcome r none e (kept, inr (p, chosen)) = absurd cc
  IsMalloc-Outcome r (some i) e (kept, inl (tight, nothing, same, laid_out)) =
      let lim = heap.ptr + heap.size in
      let m = next_fit-IsRoom bytes lim before h behind i e in
      absurd (
        omega (
          arith,
          m.room,
          IsTight-middle bytes lim m.before m.chosen m.behind
              (subst (IsTight bytes lim) m.split tight),
        ))
  IsMalloc-Outcome r (some i) e (kept, inr (p, chosen)) = (p, cc)

-- a block that was placed is not at NULL
pub placed_nonnull :
    (heap : Heap) (chain : List Cell) (fresh bytes : ℕ) (r : ℕ × Heap × Store)
    → heap.ptr ≢ null
    → IsPlaced heap chain fresh bytes r
    → r.0 ≢ null
placed_nonnull heap chain fresh bytes r address p e =
    let (bounds, apart) = IsHeap-IsApart p.laid_out in
    let mine =
      (All-middle (λ c. (r.1.ptr ≤ c.ptr) × (cell_end c ≤ r.1.ptr + r.1.size))
        (p.before ++ p.chosen ∷ []) (cell fresh (cell_end p.chosen) bytes) p.behind bounds).0 in
    address (omega (arith, mine.0, p.returns, p.same_ptr, e))

-- placed at the same place
module _ (b b' : ℕ) (heap heap' : Heap) (chain chain' : List Cell) (fresh fresh' bytes bytes' : ℕ)
    (r r' : ℕ × Heap × Store) (p : IsPlaced heap chain fresh bytes r)
    (p' : IsPlaced heap' chain' fresh' bytes' r') where
  pub placed-Sames :
      Distinct chain
      → Distinct chain'
      → IsMatched b b' chain chain' p.chosen.id p'.chosen.id
      → Sames b b' p.before p'.before × Same b b' p.chosen p'.chosen × Sames b b' p.behind p'.behind
  placed-Sames d d' m =
      let (l, c, t) =
        unique_split m.before m.chosen m.behind p.before p.chosen p.behind
          (subst Distinct m.split d) (sym m.split ∙ p.split) m.at in
      let (l', c', t') =
        unique_split m.before' m.chosen' m.behind' p'.before p'.chosen p'.behind
          (subst Distinct m.split' d') (sym m.split' ∙ p'.split) m.at' in
      (
        subst (λ x. Sames b b' x p'.before) l (subst (Sames b b' m.before) l' m.in_front),
        subst (λ x. Same b b' x p'.chosen) c (subst (Same b b' m.chosen) c' m.here),
        subst (λ x. Sames b b' x p'.behind) t (subst (Sames b b' m.behind) t' m.after),
      )
