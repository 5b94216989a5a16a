-- ===== src/Memory/Heap/Symmetric/Twin.antt =====
-- A call of `heap_malloc` on each of two heaps that were used alike.
use mathlib.Core.Path.{subst}
use open_shmem_csci.Base.{
  ℕ, suc, ◌+◌, ◌^◌, ◌≤◌, ◌<◌, ◌≡◌, ◌≢◌, ◌∙◌, refl, sym, ap, inl, inr, Option, none, some, List, [],
  ◌∷◌, ◌++◌, length, length-append, ◌⊎◌, arith,
}
use open_shmem_csci.Base.Run.{Returns}
use open_shmem_csci.Memory.Store.{Store, null}
use open_shmem_csci.Memory.Heap.{Heap, heap_malloc}
use open_shmem_csci.Memory.Heap.Cells.{Cell, cell, cell_end}
use open_shmem_csci.Memory.Heap.Search.{next_fit}
use open_shmem_csci.Memory.Heap.Malloc.{IsPlaced, heap_malloc-IsMalloc}
use open_shmem_csci.Memory.Heap.Malloc.Layout.{IsHeap}
use open_shmem_csci.Memory.Heap.Sequence.{Request}
use open_shmem_csci.Memory.Heap.Symmetric.{
  Same, Sames, IsMatched, Agree, Sames-append, next_fit-Agree,
}
use open_shmem_csci.Memory.Heap.Symmetric.Outcome.{
  Outcome, IsMalloc-Outcome, placed_nonnull, placed-Sames,
}

-- Two heaps of one size that are laid out well, over regions at `b` and `b'` that are not NULL, with
-- blocks of the same sizes at the same offsets, and the same block for the head.
pub record IsTwin (b b' : ℕ) (s s' : Store) (heap heap' : Heap) : Type 0 where
  pub before : List Cell
  pub head : Cell
  pub behind : List Cell
  pub before' : List Cell
  pub head' : Cell
  pub behind' : List Cell
  pub is : IsHeap s heap before head behind
  pub is' : IsHeap s' heap' before' head' behind'
  pub at : heap.ptr ≡ b
  pub at' : heap'.ptr ≡ b'
  pub address : b ≢ null
  pub address' : b' ≢ null
  pub same_size : heap.size ≡ heap'.size
  pub in_front : Sames b b' before before'
  pub here : Same b b' head head'
  pub after : Sames b b' behind behind'

-- the numbers of blocks of the two heaps
abbrev pub num_blocks :
    {b b' : ℕ} {s s' : Store} {heap heap' : Heap} → IsTwin b b' s s' heap heap' → ℕ
num_blocks t = length (t.before ++ t.head ∷ t.behind)

abbrev pub num_blocks' :
    {b b' : ℕ} {s s' : Store} {heap heap' : Heap} → IsTwin b b' s s' heap heap' → ℕ
num_blocks' t = length (t.before' ++ t.head' ∷ t.behind')

module _ {b b' : ℕ} {s s' : Store} {heap heap' : Heap} (t : IsTwin b b' s s' heap heap')
    (q q' : Request) (ask : q.bytes ≡ q'.bytes) where
  -- a call on each heap: both return NULL, or both a block at the same offset
  pub record IsStep (r r' : ℕ × Heap × Store) : Type 0 where
    pub twin : IsTwin b b' r.2 r'.2 r.1 r'.1
    pub grows : num_blocks twin ≤ suc (num_blocks t)
    pub grows' : num_blocks' twin ≤ suc (num_blocks' t)
    pub outcome :
        ((r.0 ≡ null) × (r'.0 ≡ null))
        ⊎ ((r.0 ≢ null)
            × (r'.0 ≢ null)
            × Same b b' (cell q.fresh r.0 q.bytes) (cell q'.fresh r'.0 q'.bytes))

  placed-IsStep :
      (r r' : ℕ × Heap × Store)
      → (p : IsPlaced heap (t.before ++ t.head ∷ t.behind) q.fresh q.bytes r)
      → (p' : IsPlaced heap' (t.before' ++ t.head' ∷ t.behind') q'.fresh q'.bytes r')
      → IsMatched b b'
          (t.before ++ t.head ∷ t.behind)
          (t.before' ++ t.head' ∷ t.behind')
          p.chosen.id
          p'.chosen.id
      → IsStep r r'
  placed-IsStep r r' p p' m =
      let (l, c, k) =
        placed-Sames b b' heap heap' _ _ q.fresh q'.fresh q.bytes q'.bytes r r' p p' t.is.distinct
          t.is'.distinct m in
      let new : Same b b' (cell q.fresh (cell_end p.chosen) q.bytes)
          (cell q'.fresh (cell_end p'.chosen) q'.bytes) =
        (omega (arith, c.0, c.1), ask) in
      record {
        twin = record {
          before = p.before ++ p.chosen ∷ [];
          head = cell q.fresh (cell_end p.chosen) q.bytes;
          behind = p.behind;
          before' = p'.before ++ p'.chosen ∷ [];
          head' = cell q'.fresh (cell_end p'.chosen) q'.bytes;
          behind' = p'.behind;
          is = p.laid_out;
          is' = p'.laid_out;
          at = p.same_ptr ∙ t.at;
          at' = p'.same_ptr ∙ t.at';
          address = t.address;
          address' = t.address';
          same_size = p.same_size ∙ t.same_size ∙ sym p'.same_size;
          in_front =
              Sames-append b b' p.before p'.before (p.chosen ∷ []) (p'.chosen ∷ []) l (c, tt);
          here = new;
          after = k;
        };
        grows = omega (
          arith,
          ap length p.split,
          length-append p.before (p.chosen ∷ p.behind),
          length-append (p.before ++ p.chosen ∷ [])
              (cell q.fresh (cell_end p.chosen) q.bytes ∷ p.behind),
          length-append p.before (p.chosen ∷ []),
        );
        grows' = omega (
          arith,
          ap length p'.split,
          length-append p'.before (p'.chosen ∷ p'.behind),
          length-append (p'.before ++ p'.chosen ∷ [])
              (cell q'.fresh (cell_end p'.chosen) q'.bytes ∷ p'.behind),
          length-append p'.before (p'.chosen ∷ []),
        );
        outcome = inr (
          placed_nonnull heap _ q.fresh q.bytes r (λ e. t.address (sym t.at ∙ e)) p,
          placed_nonnull heap' _ q'.fresh q'.bytes r' (λ e. t.address' (sym t.at' ∙ e)) p',
          (omega (arith, new.0, p.returns, p'.returns), ask),
        );
      }

  full-IsStep :
      (r r' : ℕ × Heap × Store)
      → Outcome heap t.before t.head t.behind q.fresh q.bytes none r
      → Outcome heap' t.before' t.head' t.behind' q'.fresh q'.bytes none r'
      → IsStep r r'
  full-IsStep r r' (nothing, same, is) (nothing', same', is') = record {
    twin = record {
      before = t.before;
      head = t.head;
      behind = t.behind;
      before' = t.before';
      head' = t.head';
      behind' = t.behind';
      is = subst (λ (k : Heap). IsHeap r.2 k t.before t.head t.behind) (sym same) is;
      is' = subst (λ (k : Heap). IsHeap r'.2 k t.before' t.head' t.behind') (sym same') is';
      at = ap (λ (k : Heap). k.ptr) same ∙ t.at;
      at' = ap (λ (k : Heap). k.ptr) same' ∙ t.at';
      address = t.address;
      address' = t.address';
      same_size =
          ap (λ (k : Heap). k.size) same ∙ t.same_size ∙ sym (ap (λ (k : Heap). k.size) same');
      in_front = t.in_front;
      here = t.here;
      after = t.after;
    };
    grows = omega arith;
    grows' = omega arith;
    outcome = inl (nothing, nothing');
  }

  agreed-IsStep :
      (r r' : ℕ × Heap × Store) (o o' : Option ℕ)
      → Agree b b' (t.before ++ t.head ∷ t.behind) (t.before' ++ t.head' ∷ t.behind') o o'
      → Outcome heap t.before t.head t.behind q.fresh q.bytes o r
      → Outcome heap' t.before' t.head' t.behind' q'.fresh q'.bytes o' r'
      → IsStep r r'
  agreed-IsStep r r' none none a x x' = full-IsStep r r' x x'
  agreed-IsStep r r' none (some i') a x x' = absurd a
  agreed-IsStep r r' (some i) none a x x' = absurd a
  agreed-IsStep r r' (some i) (some i') m (p, e) (p', e') = placed-IsStep r r' p p' (
      subst
        (λ y.
          IsMatched b b' (t.before ++ t.head ∷ t.behind) (t.before' ++ t.head' ∷ t.behind') y
            p'.chosen.id)
        (sym e)
        (subst
          (λ y.
            IsMatched b b' (t.before ++ t.head ∷ t.behind) (t.before' ++ t.head' ∷ t.behind') i y)
          (sym e') m))

  pub heap_malloc-IsStep :
      (fuel : ℕ)
      → num_blocks t ≤ fuel
      → num_blocks' t ≤ fuel
      → (q.fresh ≢ null) × (q.fresh < 2 ^ 63) × (s q.fresh ≡ none)
      → (q'.fresh ≢ null) × (q'.fresh < 2 ^ 63) × (s' q'.fresh ≡ none)
      → Returns (heap_malloc fuel s heap q.fresh q.raw q.bytes) (λ r.
        ((a : ℕ) → a ≢ q.fresh → s a ≡ none → r.2 a ≡ none)
        × Returns
            (heap_malloc fuel s' heap' q'.fresh q'.raw q'.bytes)
            (λ r'. ((a : ℕ) → a ≢ q'.fresh → s' a ≡ none → r'.2 a ≡ none) × IsStep r r'))
  heap_malloc-IsStep fuel enough enough' f f' =
      let (r, e, m) = heap_malloc-IsMalloc t.is q.fresh q.raw q.bytes f.2 f.0 f.1 fuel enough in
      let (r', e', m') =
        heap_malloc-IsMalloc t.is' q'.fresh q'.raw q'.bytes f'.2 f'.0 f'.1 fuel enough' in
      let agree =
        subst
          (λ y.
            Agree b b' (t.before ++ t.head ∷ t.behind) (t.before' ++ t.head' ∷ t.behind')
              (next_fit q.bytes (heap.ptr + heap.size) t.before t.head t.behind)
              (next_fit y (heap'.ptr + heap'.size) t.before' t.head' t.behind'))
          ask
          (next_fit-Agree b b' q.bytes (heap.ptr + heap.size) (heap'.ptr + heap'.size) t.before
            t.before' t.head t.head' t.behind t.behind' (omega (arith, t.at, t.at', t.same_size))
            t.in_front t.here t.after) in
      (
        r,
        e,
        (
          m.0,
          (
            r',
            e',
            (
              m'.0,
              agreed-IsStep r r' _ _ agree
                  (IsMalloc-Outcome t.is q.fresh q.raw q.bytes f.2 f.0 f.1 r _ refl m)
                  (IsMalloc-Outcome t.is' q'.fresh q'.raw q'.bytes f'.2 f'.0 f'.1 r' _ refl m'),
            ),
          ),
        ),
      )
