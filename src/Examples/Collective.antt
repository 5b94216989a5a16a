-- ===== src/Examples/Collective.antt =====
-- Two PEs that each call `shmem_malloc` once, step by step.
use open_shmem_csci.Base.{
  none, ℕ, ◌≤◌, ◌<◌, ◌≡◌, ◌⊎◌, refl, inl, inr, List, [], ◌∷◌, ◌==◌, if◌then◌else◌, length, arith,
}
use open_shmem_csci.Base.Run.{ok}
use open_shmem_csci.Memory.Store.{Store}
use open_shmem_csci.Memory.Heap.{Heap, heap_malloc}
use open_shmem_csci.Memory.Heap.Cells.{cell}
use open_shmem_csci.Memory.Heap.Malloc.{heap_malloc-IsMalloc}
use open_shmem_csci.Memory.Heap.Sequence.{Request, IsFresh}
use open_shmem_csci.Memory.Heap.Symmetric.Twin.{IsTwin}
use open_shmem_csci.Memory.Heap.Symmetric.Runs.{AlikeAt}
use open_shmem_csci.Comm.Barrier.{
  System, start, root_enter, pe_enter, deliver_root, root_collect, root_collected, root_release,
  root_leave, collect, collected, release, leave_root, enter_root, enter_pe, arrive_root,
}
use open_shmem_csci.Shmem.Collective.{Pes, begin, allocated, allocate, sync, Runs, here, next}
use open_shmem_csci.Shmem.Collective.Symmetric.{shmem_malloc-AlikeAt}
use open_shmem_csci.Shmem.Collective.Completion.{Finishing, shmem_malloc-returns}
use open_shmem_csci.Examples.Memory as Memory

abbrev heap : ℕ → Heap
heap i = if i == 0 then Memory.fresh_heap.0 else Memory.other_heap.0

abbrev blocks : ℕ → Store
blocks i = if i == 0 then Memory.fresh_heap.1 else Memory.other_heap.1

abbrev request : Request
request = record { fresh = 200; raw = Memory.clear; bytes = 64 }

abbrev calls : ℕ → List Request
calls i = request ∷ []

unused : (blocks 0 200 ≡ none) × (blocks 1 200 ≡ none)
unused = (Memory.unused, Memory.unused_other.0)

-- each PE's allocation
allocation0 :
    (r : ℕ × Heap × Store) × (heap_malloc 4 (blocks 0) (heap 0) 200 Memory.clear 64 ≡ ok r)
allocation0 =
    let (r, e, more) =
      heap_malloc-IsMalloc Memory.fresh-IsHeap 200 Memory.clear 64 unused.0 (omega arith)
        (omega arith) 4 (omega arith) in
    (r, e)

allocation1 :
    (r : ℕ × Heap × Store) × (heap_malloc 4 (blocks 1) (heap 1) 200 Memory.clear 64 ≡ ok r)
allocation1 =
    let (r, e, more) =
      heap_malloc-IsMalloc Memory.other-IsHeap 200 Memory.clear 64 unused.1 (omega arith)
        (omega arith) 4 (omega arith) in
    (r, e)

program : Unit {0}
unfolding start root_enter pe_enter deliver_root root_collect root_collected root_release root_leave
    begin allocated
program = tt

abbrev both_allocated : Pes
both_allocated =
    allocated 1 request [] allocation1.0
      (allocated 0 request [] allocation0.0 (begin heap blocks calls))

both_allocated-Runs : Runs 2 4 (begin heap blocks calls) both_allocated
unfolding program
both_allocated-Runs =
    next (next here (allocate 0 request [] allocation0.0 (omega arith) refl refl allocation0.1))
      (allocate 1 request [] allocation1.0 (omega arith) refl refl allocation1.1)

abbrev at_barrier : System → Pes
at_barrier t = record both_allocated { barrier = t }

-- neither PE has called the barrier more than once
one_call :
    (t : System)
    → t.arrived 0 ≤ 1
    → t.arrived 1 ≤ 1
    → (i : ℕ) → i < 2
    → t.arrived i ≤ length (both_allocated.made i)
unfolding program
one_call t h k i below = elim (cases i below) [ inl e ↦ rw e h | inr e ↦ rw e k ]
  where
    cases : (i : ℕ) → i < 2 → (i ≡ 0) ⊎ (i ≡ 1)
    cases i h = omega arith

abbrev one_in : System
one_in = root_enter start

abbrev both_in : System
both_in = pe_enter 1 one_in

abbrev arrived : System
arrived = deliver_root 1 both_in

abbrev gathered : System
gathered = root_collected (root_collect 1 arrived)

abbrev root_out : System
root_out = root_leave (root_release 1 gathered)

root_out-Runs : Runs 2 4 (begin heap blocks calls) (at_barrier root_out)
unfolding program
root_out-Runs =
    let a =
      next both_allocated-Runs
        (sync (enter_root refl) (one_call one_in (omega arith) (omega arith))) in
    let b = next a (
      sync (enter_pe 1 (omega arith) (omega arith) refl)
        (one_call both_in (omega arith) (omega arith))) in
    let c = next b (
      sync (arrive_root 1 (omega arith) (omega arith) (omega arith))
        (one_call arrived (omega arith) (omega arith))) in
    let d = next c (
      sync (collect 1 refl (omega arith) (omega arith))
        (one_call (root_collect 1 arrived) (omega arith) (omega arith))) in
    let e =
      next d
        (sync (collected 2 refl (omega arith)) (one_call gathered (omega arith) (omega arith))) in
    let f = next e (
      sync (release 1 refl (omega arith))
        (one_call (root_release 1 gathered) (omega arith) (omega arith))) in
    next f (sync (leave_root 2 refl (omega arith)) (one_call root_out (omega arith) (omega arith)))

calls-IsFresh : (i : ℕ) → i < 2 → IsFresh (blocks i) (calls i)
calls-IsFresh i h = elim (cases i h) [
  | inl e ↦ rw e (omega arith, omega arith, unused.0, tt, tt)
  | inr e ↦ rw e (omega arith, omega arith, unused.1, tt, tt)
]
  where
    cases : (i : ℕ) → i < 2 → (i ≡ 0) ⊎ (i ≡ 1)
    cases i h = omega arith

shmem_malloc-AlikeAt_example :
    AlikeAt
      (heap 0).ptr
      (heap 1).ptr
      0
      ((at_barrier root_out).results 0)
      ((at_barrier root_out).results 1)
unfolding Memory.heaps_twin
shmem_malloc-AlikeAt_example =
    shmem_malloc-AlikeAt 2 4 heap blocks calls (at_barrier root_out) 0 1 0 root_out-Runs
      (omega arith) (omega arith) Memory.heaps_twin (calls-IsFresh 0 (omega arith))
      (calls-IsFresh 1 (omega arith)) (refl, tt) (omega arith) (omega arith)
      (unfold program in omega arith)

-- two processes whose heaps are mapped at the same address
abbrev same_heap : ℕ → Heap
same_heap i = Memory.fresh_heap.0

abbrev same_blocks : ℕ → Store
same_blocks i = Memory.fresh_heap.1

unfoldable own_twin :
    IsTwin 0x10000 0x10000 (same_blocks 0) (same_blocks 0) (same_heap 0) (same_heap 0)
unfolding Memory.heaps_twin
own_twin = record {
  before = [];
  head = cell 100 0x10000 0;
  behind = [];
  before' = [];
  head' = cell 100 0x10000 0;
  behind' = [];
  is = Memory.fresh-IsHeap;
  is' = Memory.fresh-IsHeap;
  at = refl;
  at' = refl;
  address = omega arith;
  address' = omega arith;
  same_size = refl;
  in_front = tt;
  here = (refl, refl);
  after = tt;
}

shmem_malloc-returns_example : Finishing 2 4 1 (begin same_heap same_blocks calls)
unfolding own_twin
shmem_malloc-returns_example =
    shmem_malloc-returns 2 4 1 same_heap same_blocks calls (begin same_heap same_blocks calls)
      (omega arith) here (λ i h. refl) (λ i h. (omega arith, omega arith, unused.0, tt, tt))
      (λ i h. own_twin) (λ i h. omega arith) (λ i h. omega arith)
