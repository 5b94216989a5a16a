-- ===== src/Shmem/Collective.antt =====
-- `shmem_malloc` of shmem.c on all the PEs together: each allocates from its own symmetric heap and
-- then waits in `shmem_sync_all` for the others, which is the barrier and a flush with an empty body.
-- The program of a PE is its list of calls, and the PEs' steps interleave freely.
pub mod Symmetric
pub mod Standing
pub mod Progress
pub mod Completion
use open_shmem_csci.Base.{assign, ℕ, suc, ◌≤◌, ◌<◌, ◌≡◌, List, [], ◌∷◌, ◌++◌, length}
use open_shmem_csci.Base.Run.{ok}
use open_shmem_csci.Memory.Store.{Store}
use open_shmem_csci.Memory.Heap.{Heap, heap_malloc}
use open_shmem_csci.Memory.Heap.Sequence.{Request}
use open_shmem_csci.Comm.Barrier as Barrier

-- `made` are the calls whose allocation is done, the one that waits in the barrier too, and
-- `results` what `comm_heap_malloc` gave them; `barrier.left` counts the calls that have returned
pub record Pes : Type 0 where
  pub barrier : Barrier.System
  pub heap : ℕ → Heap
  pub blocks : ℕ → Store
  pub made : ℕ → List Request
  pub todo : ℕ → List Request
  pub results : ℕ → List ℕ

unfoldable pub begin : (heap : ℕ → Heap) (blocks : ℕ → Store) (program : ℕ → List Request) → Pes
begin heap blocks program = record {
  barrier = Barrier.start;
  heap = heap;
  blocks = blocks;
  made = λ i. [];
  todo = program;
  results = λ i. [];
}

-- PE `i` makes its allocation, which gives `r`
unfoldable pub allocated : ℕ → Request → List Request → (ℕ × Heap × Store) → Pes → Pes
allocated i q qs r c = record c {
  heap = assign c.heap i r.1;
  blocks = assign c.blocks i r.2;
  made = assign c.made i (c.made i ++ q ∷ []);
  todo = assign c.todo i qs;
  results = assign c.results i (c.results i ++ r.0 ∷ []);
}

-- A PE that has returned from its calls makes the next allocation. It calls the barrier only
-- after the allocation, so never more often than it has allocated.
pub data Move (n fuel : ℕ) : Pes → Pes → Type 0 where
  allocate :
      {c : Pes} (i : ℕ) (q : Request) (qs : List Request) (r : ℕ × Heap × Store)
      → i < n
      → length (c.made i) ≡ c.barrier.left i
      → c.todo i ≡ q ∷ qs
      → heap_malloc fuel (c.blocks i) (c.heap i) q.fresh q.raw q.bytes ≡ ok r
      → Move n fuel c (allocated i q qs r c)
  sync :
      {c : Pes} {t : Barrier.System}
      → Barrier.Step n c.barrier t
      → ((i : ℕ) → i < n → t.arrived i ≤ length (c.made i))
      → Move n fuel c (record c { barrier = t })

pub data Runs (n fuel : ℕ) (c : Pes) : Pes → Type 0 where
  here : Runs n fuel c c
  next : {d e : Pes} → Runs n fuel c d → Move n fuel d e → Runs n fuel c e
