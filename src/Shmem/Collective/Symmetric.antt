-- ===== src/Shmem/Collective/Symmetric.antt =====
-- The pointers that `shmem_malloc` returns are symmetric: every PE has the object at the same offset.
use mathlib.Core.Path.{subst}
use mathlib.Core.List.{append_assoc}
use open_shmem_csci.Base.{
  ℕ, ◌+◌, ◌≤◌, ◌<◌, ◌≡◌, ◌∙◌, refl, sym, ap, List, [], ◌∷◌, ◌++◌, true, false, ◌==◌, ne→==, ==_refl,
  length, length-append, arith,
}
use open_shmem_csci.Base.Run.{ok}
use native.Mathlib.Decide.{ℕ_discrete}
use open_shmem_csci.Memory.Store.{Store}
use open_shmem_csci.Memory.Heap.{Heap, heap_malloc}
use open_shmem_csci.Memory.Heap.Sequence.{Request, IsFresh}
use open_shmem_csci.Memory.Heap.Symmetric.Twin.{IsTwin, num_blocks, num_blocks'}
use open_shmem_csci.Memory.Heap.Symmetric.Calls.{AskAlike}
use open_shmem_csci.Memory.Heap.Symmetric.Runs.{
  malloc_run, malloc_run-append, malloc_run-AlikeAt, AlikeAt,
}
use open_shmem_csci.Comm.Barrier as Barrier
use open_shmem_csci.Comm.Barrier.Safety.{left-le-arrived}
use open_shmem_csci.Shmem.Collective.{Pes, begin, allocated, Move, allocate, sync, Runs, here, next}

-- what PE `i` has done is a run of its program's first calls on the heap that it began with
pub record IsRun (fuel : ℕ) (heap : ℕ → Heap) (blocks : ℕ → Store) (program : ℕ → List Request)
    (c : Pes) (i : ℕ) : Type 0 where
  pub run : malloc_run fuel (c.made i) (blocks i) (heap i) ≡ ok (c.results i, c.heap i, c.blocks i)
  pub whole : c.made i ++ c.todo i ≡ program i
  pub calls : c.barrier.arrived i ≤ length (c.made i)

module _ (n fuel : ℕ) (heap : ℕ → Heap) (blocks : ℕ → Store) (program : ℕ → List Request) where
  pub record Kept (c : Pes) : Type 0 where
    pub barrier : Barrier.Reach n c.barrier
    pub runs : (i : ℕ) → i < n → IsRun fuel heap blocks program c i

  begin-Kept : Kept (begin heap blocks program)
  unfolding begin malloc_run Barrier.start
  begin-Kept = record {
    barrier = Barrier.here;
    runs = λ i h. record { run = refl; whole = refl; calls = omega arith };
  }

  here-IsRun :
      (i : ℕ) (q : Request) (qs : List Request) (r : ℕ × Heap × Store) (c : Pes)
      → c.todo i ≡ q ∷ qs
      → heap_malloc fuel (c.blocks i) (c.heap i) q.fresh q.raw q.bytes ≡ ok r
      → IsRun fuel heap blocks program c i
      → IsRun fuel heap blocks program (allocated i q qs r c) i
  unfolding allocated
  here-IsRun i q qs r c e call v =
      let on : (i == i) ≡ true = ==_refl i in
      record {
        run = rw (on) (malloc_run-append fuel (c.made i) q (blocks i) (heap i) _ r v.run call);
        whole =
            rw (on)
              (append_assoc (c.made i) (q ∷ []) qs ∙ ap (λ l. c.made i ++ l) (sym e) ∙ v.whole);
        calls = rw (on) (omega (arith, v.calls, length-append (c.made i) (q ∷ [])));
      }

  allocated-IsRun :
      (i : ℕ) (q : Request) (qs : List Request) (r : ℕ × Heap × Store) (c : Pes)
      → c.todo i ≡ q ∷ qs
      → heap_malloc fuel (c.blocks i) (c.heap i) q.fresh q.raw q.bytes ≡ ok r
      → (j : ℕ) → IsRun fuel heap blocks program c j
      → IsRun fuel heap blocks program (allocated i q qs r c) j
  unfolding allocated
  allocated-IsRun i q qs r c e call j v = elim (ℕ_discrete j i) [
    | yes same ↦
        subst (IsRun fuel heap blocks program (allocated i q qs r c)) (sym same)
          (here-IsRun i q qs r c e call (subst (IsRun fuel heap blocks program c) same v))
    | no ne ↦
        let off : (j == i) ≡ false = ne→== j i ne in
        record { run = rw (off) v.run; whole = rw (off) v.whole; calls = rw (off) v.calls }
  ]

  allocated-barrier :
      (i : ℕ) (q : Request) (qs : List Request) (r : ℕ × Heap × Store) (c : Pes)
      → Barrier.Reach n c.barrier
      → Barrier.Reach n (allocated i q qs r c).barrier
  unfolding allocated
  allocated-barrier i q qs r c v = v

  Move-Kept : {c d : Pes} → Kept c → Move n fuel c d → Kept d
  Move-Kept {c} v (allocate i q qs r h idle e call) = record {
    barrier = allocated-barrier i q qs r c v.barrier;
    runs = λ j hj. allocated-IsRun i q qs r c e call j (v.runs j hj);
  }
  Move-Kept v (sync step few) = record {
    barrier = Barrier.next v.barrier step;
    runs =
        λ j hj. record { run = (v.runs j hj).run; whole = (v.runs j hj).whole; calls = few j hj };
  }

  pub Runs-Kept : {c : Pes} → Runs n fuel (begin heap blocks program) c → Kept c
  Runs-Kept here = begin-Kept
  Runs-Kept (next r m) = Move-Kept (Runs-Kept r) m

-- In every state that the `n` PEs reach by calls of `shmem_malloc`, in whatever order their steps
-- interleave: when a PE `i` has returned from more than `k` calls, then every PE `j` has made the
-- allocation of its call `k` too, and the pointers of that call on the two PEs are both NULL or lie
-- at the same offset of the two heaps. The programs of the two PEs ask for the same sizes, with new
-- and different descriptors; their heaps begin alike; and the fuel is enough for all the blocks.
pub shmem_malloc-AlikeAt :
    (n fuel : ℕ) (heap : ℕ → Heap) (blocks : ℕ → Store) (program : ℕ → List Request) (c : Pes)
    (i j k : ℕ)
    → Runs n fuel (begin heap blocks program) c
    → i < n
    → j < n
    → (w : IsTwin (heap i).ptr (heap j).ptr (blocks i) (blocks j) (heap i) (heap j))
    → IsFresh (blocks i) (program i)
    → IsFresh (blocks j) (program j)
    → AskAlike (program i) (program j)
    → num_blocks w + length (program i) ≤ fuel
    → num_blocks' w + length (program j) ≤ fuel
    → k < c.barrier.left i
    → AlikeAt (heap i).ptr (heap j).ptr k (c.results i) (c.results j)
shmem_malloc-AlikeAt n fuel heap blocks program c i j k r hi hj w f f' ask enough enough' done =
    let v = Runs-Kept n fuel heap blocks program r in
    let a = v.runs i hi in
    let a' = v.runs j hj in
    malloc_run-AlikeAt fuel (c.made i) (c.todo i) (c.made j) (c.todo j) _ _ (blocks i) (blocks j)
      (heap i) (heap j) _ _ w (subst (IsFresh (blocks i)) (sym a.whole) f)
      (subst (IsFresh (blocks j)) (sym a'.whole) f')
      (subst (λ l. AskAlike l (c.made j ++ c.todo j)) (sym a.whole)
        (subst (AskAlike (program i)) (sym a'.whole) ask))
      (rw a.whole enough) (rw a'.whole enough') a.run a'.run k
      (omega (arith, a.calls, left-le-arrived n c.barrier i i v.barrier hi hi))
      (omega (arith, a'.calls, left-le-arrived n c.barrier j i v.barrier hj hi))
