-- ===== src/Memory/Heap/Sequence.antt =====
-- A client that calls `heap_malloc` again and again: what it got stays its own.
use mathlib.Core.Path.{subst}
use mathlib.Core.List.{append_assoc}
use open_shmem_csci.Base.{
  ℕ, suc, ◌+◌, ◌^◌, ◌≤◌, ◌<◌, ◌≡◌, ◌≢◌, ◌∙◌, refl, sym, ap, inl, inr, none, List, [], ◌∷◌, ◌++◌,
  arith, All, All-mono, length, length-append, ◌==◌, if◌then◌else◌, Bool-cases,
}
use open_shmem_csci.Base.Run.{Run, ok, ◌>>=◌, bind-ok, Returns}
use open_shmem_csci.Memory.Store.{Store, Block, null}
use open_shmem_csci.Memory.Heap.{Heap, heap_malloc}
use open_shmem_csci.Memory.Heap.Cells.{Cell, cell, cell_end}
use open_shmem_csci.Memory.Heap.Bounds.{IsApart, IsHeap-IsApart}
use open_shmem_csci.Memory.Heap.Malloc.{IsPlaced, heap_malloc-IsMalloc}
use open_shmem_csci.Memory.Heap.Malloc.Layout.{IsHeap}

-- a call, with the descriptor that `malloc` returns in it
pub record Request : Type 0 where
  pub fresh : ℕ
  pub raw : Block
  pub bytes : ℕ

-- the calls one after the other, and the blocks of those that did not return NULL
unfoldable pub malloc_all : ℕ → List Request → Store → Heap → Run (List Cell × Heap × Store)
malloc_all fuel [] s heap = ok ([], heap, s)
malloc_all fuel (q ∷ qs) s heap = heap_malloc fuel s heap q.fresh q.raw q.bytes >>= λ r.
    malloc_all fuel qs r.2 r.1 >>= λ t.
    ok (if r.0 == null then t.0 else cell q.fresh r.0 q.bytes ∷ t.0, t.1, t.2)

-- no two of the blocks share a byte
abbrev pub Disjoint : List Cell → Type 0
Disjoint [] = Unit
Disjoint (c ∷ cs) = All (IsApart c) cs × Disjoint cs

-- descriptors that `malloc` may return: live in no block of the store, and different
abbrev pub IsFresh : Store → List Request → Type 0
IsFresh s [] = Unit
IsFresh s (q ∷ qs) =
    (q.fresh ≢ null)
    × (q.fresh < 2 ^ 63)
    × (s q.fresh ≡ none)
    × All (λ (p : Request). p.fresh ≢ q.fresh) qs
    × IsFresh s qs

-- the blocks lie in the region, share no byte with one another, and none with the chain
pub record IsServed (heap : Heap) (chain : List Cell) (cs : List Cell) : Type 0 where
  pub inside : All (λ c. (heap.ptr ≤ c.ptr) × (cell_end c ≤ heap.ptr + heap.size)) cs
  pub disjoint : Disjoint cs
  pub new : All (λ c. All (IsApart c) chain) cs

-- and the heap is laid out well afterwards
pub record IsLaidOut (s : Store) (heap : Heap) : Type 0 where
  pub before : List Cell
  pub head : Cell
  pub behind : List Cell
  pub is : IsHeap s heap before head behind

pub All-middle :
    (P : Cell → Type 0) (xs : List Cell) (c : Cell) (ys : List Cell)
    → All P (xs ++ c ∷ ys)
    → P c × All P (xs ++ ys)
All-middle P [] c ys h = h
All-middle P (x ∷ xs) c ys h = let r = All-middle P xs c ys h.1 in (r.0, (h.0, r.1))

IsApart-sym : (c d : Cell) → IsApart c d → IsApart d c
IsApart-sym c d (inl h) = inr h
IsApart-sym c d (inr h) = inl h

pub IsFresh-kept :
    (s s' : Store) (f : ℕ) (qs : List Request)
    → ((p : ℕ) → p ≢ f → s p ≡ none → s' p ≡ none)
    → All (λ (p : Request). p.fresh ≢ f) qs
    → IsFresh s qs
    → IsFresh s' qs
IsFresh-kept s s' f [] kept ne h = tt
IsFresh-kept s s' f (q ∷ qs) kept ne h =
    (h.0, h.1, kept q.fresh ne.0 h.2, h.3, IsFresh-kept s s' f qs kept ne.1 h.4)

-- dropping a block that the chain has and the client does not
IsServed-drop :
    (heap heap' : Heap) (chain xs : List Cell) (c : Cell) (ys cs : List Cell)
    → chain ≡ xs ++ ys
    → heap'.ptr ≡ heap.ptr
    → heap'.size ≡ heap.size
    → IsServed heap' (xs ++ c ∷ ys) cs
    → IsServed heap chain cs
IsServed-drop heap heap' chain xs c ys cs e e_ptr e_size v = record {
  inside =
      All-mono _ _ (λ (c' : Cell) h. (omega (arith, e_ptr, h.0), omega (arith, e_ptr, e_size, h.1)))
        cs v.inside;
  disjoint = v.disjoint;
  new =
      All-mono _ _
        (λ (c' : Cell) h. subst (All (IsApart c')) (sym e) (All-middle (IsApart c') xs c ys h).1) cs
        v.new;
}

-- a block at a place of its own in the chain, with what is allocated later
IsServed-cons :
    (heap heap' : Heap) (chain xs : List Cell) (c : Cell) (ys cs : List Cell)
    → chain ≡ xs ++ ys
    → heap'.ptr ≡ heap.ptr
    → heap'.size ≡ heap.size
    → (heap.ptr ≤ c.ptr) × (cell_end c ≤ heap.ptr + heap.size)
    → All (IsApart c) (xs ++ ys)
    → IsServed heap' (xs ++ c ∷ ys) cs
    → IsServed heap chain (c ∷ cs)
IsServed-cons heap heap' chain xs c ys cs e e_ptr e_size inside apart v =
    let d = IsServed-drop heap heap' chain xs c ys cs e e_ptr e_size v in
    record {
      inside = (inside, d.inside);
      disjoint = (
        All-mono _ _ (λ (c' : Cell) h. IsApart-sym c' c (All-middle (IsApart c') xs c ys h).0) cs
            v.new,
        v.disjoint,
      );
      new = (subst (All (IsApart c)) (sym e) apart, d.new);
    }

-- one call of `heap_malloc` before the others
module _ (q : Request) (r : ℕ × Heap × Store) (heap : Heap) (before : List Cell) (h : Cell)
    (behind : List Cell) (cs : List Cell) where
  -- the list of blocks that the call and those after it give
  abbrev pub served : List Cell
  served = if r.0 == null then cs else cell q.fresh r.0 q.bytes ∷ cs

  placed-IsServed :
      (p : IsPlaced heap (before ++ h ∷ behind) q.fresh q.bytes r)
      → IsServed r.1
          ((p.before ++ p.chosen ∷ []) ++ cell q.fresh (cell_end p.chosen) q.bytes ∷ p.behind)
          cs
      → IsServed heap (before ++ h ∷ behind) served
  placed-IsServed p v =
      let new = cell q.fresh (cell_end p.chosen) q.bytes in
      let (bounds, apart) = IsHeap-IsApart p.laid_out in
      let e : before ++ h ∷ behind ≡ (p.before ++ p.chosen ∷ []) ++ p.behind =
        p.split ∙ sym (append_assoc p.before (p.chosen ∷ []) p.behind) in
      let mine =
        (All-middle (λ c. (r.1.ptr ≤ c.ptr) × (cell_end c ≤ r.1.ptr + r.1.size))
          (p.before ++ p.chosen ∷ []) new p.behind bounds).0 in
      elim (Bool-cases (r.0 == null)) [
        | inl nothing ↦ rw (nothing) (
            IsServed-drop heap r.1 _ (p.before ++ p.chosen ∷ []) new p.behind cs e p.same_ptr
              p.same_size v)
        | inr something ↦
            rw (something, p.returns)
              (IsServed-cons heap r.1 _ (p.before ++ p.chosen ∷ []) new p.behind cs e p.same_ptr
                p.same_size
                (omega (arith, p.same_ptr, mine.0), omega (arith, p.same_ptr, p.same_size, mine.1))
                apart v)
      ]

-- a block more in the chain for a call less
pub longer :
    (fuel : ℕ) (qs : List Request) (before : List Cell) (h : Cell) (behind xs : List Cell)
    (c d : Cell) (ys : List Cell)
    → before ++ h ∷ behind ≡ xs ++ c ∷ ys
    → length (before ++ h ∷ behind) + suc (length qs) ≤ fuel
    → length ((xs ++ c ∷ []) ++ d ∷ ys) + length qs ≤ fuel
longer fuel qs before h behind xs c d ys e enough = omega (
  arith,
  ap length e,
  length-append xs (c ∷ ys),
  length-append (xs ++ c ∷ []) (d ∷ ys),
  length-append xs (c ∷ []),
)

-- On a heap that is laid out well, with new and different descriptors and enough fuel for all the
-- blocks there will be, any sequence of calls of `heap_malloc` ends without a fault. The blocks that
-- it returns lie in the region, share no byte with one another and none with a block that was there
-- before, and the heap is laid out well afterwards.
pub malloc_all-IsServed :
    (fuel : ℕ) (qs : List Request) (s : Store) (heap : Heap) (before : List Cell) (h : Cell)
    (behind : List Cell)
    → IsHeap s heap before h behind
    → IsFresh s qs
    → length (before ++ h ∷ behind) + length qs ≤ fuel
    → Returns
        (malloc_all fuel qs s heap)
        (λ r. IsServed heap (before ++ h ∷ behind) r.0 × IsLaidOut r.2 r.1)
unfolding malloc_all
malloc_all-IsServed fuel [] s heap before h behind is f enough = (
  ([], heap, s),
  refl,
  (
    record { inside = tt; disjoint = tt; new = tt },
    record { before = before; head = h; behind = behind; is = is },
  ),
)
malloc_all-IsServed fuel (q ∷ qs) s heap before h behind is f enough =
    let (r, e, (kept, o)) =
      heap_malloc-IsMalloc is q.fresh q.raw q.bytes f.2 f.0 f.1 fuel (omega arith) in
    let f' = IsFresh-kept s r.2 q.fresh qs kept f.3 f.4 in
    elim o [
      | inl (tight, nothing, same, is') ↦
          let (t, e', (v, l)) =
            malloc_all-IsServed fuel qs r.2 r.1 before h behind
              (subst (λ (k : Heap). IsHeap r.2 k before h behind) (sym same) is') f'
              (omega arith) in
          (
            (served q r heap before h behind t.0, t.1, t.2),
            bind-ok _ e (bind-ok _ e' refl),
            (rw (nothing) (subst (λ (k : Heap). IsServed k (before ++ h ∷ behind) t.0) same v), l),
          )
      | inr (p, chosen) ↦
          let (t, e', (v, l)) =
            malloc_all-IsServed fuel qs r.2 r.1 (p.before ++ p.chosen ∷ [])
              (cell q.fresh (cell_end p.chosen) q.bytes) p.behind p.laid_out f'
              (longer fuel qs before h behind p.before p.chosen
                (cell q.fresh (cell_end p.chosen) q.bytes) p.behind p.split enough) in
          (
            (served q r heap before h behind t.0, t.1, t.2),
            bind-ok _ e (bind-ok _ e' refl),
            (placed-IsServed q r heap before h behind t.0 p v, l),
          )
    ]
