-- ===== src/Comm/Layers/Psync.antt =====
-- The array `__pSync` of the barrier, from `comm_wireup`.
use open_shmem_csci.Base.{ℕ, ◌^◌, ◌≤◌, ◌<◌, ◌≡◌, ◌≢◌, none, []}
use open_shmem_csci.Memory.Store.{Store, Block, null}
use open_shmem_csci.Memory.Heap.{Heap}
use open_shmem_csci.Memory.Heap.Cells.{cell}
use open_shmem_csci.Memory.Heap.Malloc.Layout.{IsHeap}
use open_shmem_csci.Memory.Heap.Sequence.{IsLaidOut}
use open_shmem_csci.Memory.SharedHeap.{SharedHeap}
use open_shmem_csci.Comm.Layers.{Layers}

-- the first allocation of a heap starts at the heap's own address
module _ (s : Store) (heap : Heap) (id fresh : ℕ) (raw : Block) (bytes : ℕ)
    (empty : IsHeap s heap [] (cell id heap.ptr 0) []) (unused : s fresh ≡ none)
    (some_address : fresh ≢ null) (low : fresh < 2 ^ 63) (room : bytes ≤ heap.size) where
  abbrev IsFirst : ℕ × Heap × Store → Type 0
  IsFirst r = (r.0 ≡ heap.ptr) × IsLaidOut r.2 r.1
