-- ===== src/Examples/Memory.antt =====
-- A heap of 4096 bytes at 0x10000, and what its operations do with it.
use open_shmem_csci.Memory.SharedMem.Key.{shared_mem_key_int, shared_mem_key_int-distinct}
use open_shmem_csci.Base.{length, ◌≢◌, ℕ, ◌≡◌, refl, Option, none, some, List, [], ◌∷◌, arith}
use open_shmem_csci.Base.Run.{Run, ok, fault, ◌>>=◌, Returns}
use open_shmem_csci.Memory.Store.{Store, Block, block, null, update, load}
use open_shmem_csci.Memory.HashMap.{hashmap_init, hashmap_get, hashmap_set, hashmap_remove}
use open_shmem_csci.Memory.Heap.Bounds.{heap_init-IsHeap}
use open_shmem_csci.Memory.Heap.Symmetric.{Sames}
use open_shmem_csci.Memory.Heap.Symmetric.Twin.{IsTwin}
use open_shmem_csci.Memory.Heap.Symmetric.Calls.{malloc_all-Sames}
use open_shmem_csci.Memory.Heap.Sequence.{
  Request, malloc_all, IsFresh, IsServed, IsLaidOut, malloc_all-IsServed,
}
use open_shmem_csci.Memory.Heap.Cells.{cell}
use open_shmem_csci.Memory.Heap.Malloc.Layout.{IsHeap}
use open_shmem_csci.Memory.Heap.Malloc.{IsMalloc, heap_malloc-IsMalloc}
use open_shmem_csci.Memory.Heap.{
  Heap, heap_init, heap_malloc, heap_free, heap_finalize, heap_offset,
}

program : Unit {0}
unfolding update load hashmap_init hashmap_get hashmap_set hashmap_remove heap_init heap_malloc
    heap_free heap_finalize heap_offset
program = tt

abbrev pub nothing : Store
nothing p = none

abbrev pub clear : Block
clear = block 0 0 null

abbrev pub fresh_heap : Heap × Store
fresh_heap = heap_init nothing 100 clear 0x10000 4096

-- two blocks, one behind the other
abbrev two_blocks : ℕ → ℕ → Run (ℕ × Heap × Store)
two_blocks m n = do
  r ← heap_malloc 8 fresh_heap.1 fresh_heap.0 200 clear m
  heap_malloc 8 r.2 r.1 300 clear n

abbrev two_and_free : ℕ → ℕ → ℕ → Run (Heap × Store)
two_and_free m n ptr = do r ← two_blocks m n; heap_free r.2 r.1 ptr

abbrev heads : Run (Heap × Store) → Run (ℕ × Option Block × Option Block)
heads run = do r ← run; ok (r.0.head, r.1 200, r.1 300)

second_at : two_blocks 64 100 >>= (λ r. ok r.0) ≡ ok 0x10040
unfolding program
second_at = refl

-- `heap_free` of the second block is ignored: the chain still has it.
second_stays :
    heads (two_and_free 64 100 0x10040)
    ≡ ok (300, some (block 0x10000 64 300), some (block 0x10040 100 null))
unfolding program
second_stays = refl

-- The first block is freed, since its predecessor, the empty block, begins at the same address.
first_goes : heads (two_and_free 64 100 0x10000) ≡ ok (300, none, some (block 0x10040 100 null))
unfolding program
first_goes = refl

-- With 1023 bytes in the first block both blocks have the same bucket, and `heap_free` of the first
-- block frees the second.
wrong_block : heads (two_and_free 1023 100 0x10000) ≡ ok (100, some (block 0x10000 1023 null), none)
unfolding program
wrong_block = refl

-- The freed first block is still a value of the map: a later `heap_malloc` whose address falls into
-- that bucket reads it.
use_after_free :
    two_and_free 64 1023 0x10000 >>= (λ r. heap_malloc 8 r.1 r.0 400 clear 10) >>= (λ r. ok r.0)
    ≡ fault
unfolding program
use_after_free = refl

-- `heap_finalize` frees from the head on: here the empty block and the first one stay allocated.
finalize_rest :
    two_blocks 64 100 >>= (λ r. heap_finalize 8 r.2 r.1) >>= (λ s. load s 100 >>= λ b. ok b.next)
    ≡ ok 200
unfolding program
finalize_rest = refl

pub fresh-IsHeap : IsHeap fresh_heap.1 fresh_heap.0 [] (cell 100 0x10000 0) []
fresh-IsHeap =
    heap_init-IsHeap nothing 100 clear 0x10000 4096 refl (omega arith) (omega arith) (omega arith)

heap_init-IsHeap_example : IsHeap fresh_heap.1 fresh_heap.0 [] (cell 100 0x10000 0) []
heap_init-IsHeap_example =
    heap_init-IsHeap nothing 100 clear 0x10000 4096 refl (omega arith) (omega arith) (omega arith)

pub unused : fresh_heap.1 200 ≡ none
unfolding program
unused = refl

heap_malloc-IsMalloc_example :
    Returns
      (heap_malloc 1 fresh_heap.1 fresh_heap.0 200 clear 64)
      (IsMalloc fresh-IsHeap 200 clear 64 unused (omega arith) (omega arith))
heap_malloc-IsMalloc_example =
    heap_malloc-IsMalloc fresh-IsHeap 200 clear 64 unused (omega arith) (omega arith) 1
      (omega arith)

abbrev region : Heap
region = record {
  ptr = 0x10000;
  head = 100;
  tail = 100;
  block_map = hashmap_init 1023;
  size = 4096;
}

-- three calls, of which the last one asks for more than the heap has
abbrev requests : List Request
requests =
    record { fresh = 200; raw = clear; bytes = 64 }
    ∷ record { fresh = 300; raw = clear; bytes = 100 }
    ∷ record { fresh = 400; raw = clear; bytes = 5000 }
    ∷ []

unused_200 : (fresh_heap.1 200 ≡ none) × (fresh_heap.1 300 ≡ none) × (fresh_heap.1 400 ≡ none)
unfolding program
unused_200 = (refl, refl, refl)

requests-IsFresh : IsFresh fresh_heap.1 requests
requests-IsFresh = (
  omega arith,
  omega arith,
  unused_200.0,
  (omega arith, (omega arith, tt)),
  (
    omega arith,
    omega arith,
    unused_200.1,
    (omega arith, tt),
    (omega arith, omega arith, unused_200.2, tt, tt),
  ),
)

malloc_all-IsServed_example :
    Returns
      (malloc_all 4 requests fresh_heap.1 fresh_heap.0)
      (λ r. IsServed fresh_heap.0 (cell 100 0x10000 0 ∷ []) r.0 × IsLaidOut r.2 r.1)
malloc_all-IsServed_example =
    malloc_all-IsServed 4 requests fresh_heap.1 fresh_heap.0 [] (cell 100 0x10000 0) [] fresh-IsHeap
      requests-IsFresh (omega arith)

-- the heap of another PE, mapped elsewhere
abbrev pub other_heap : Heap × Store
other_heap = heap_init nothing 500 clear 0x50000 4096

pub other-IsHeap : IsHeap other_heap.1 other_heap.0 [] (cell 500 0x50000 0) []
other-IsHeap =
    heap_init-IsHeap nothing 500 clear 0x50000 4096 refl (omega arith) (omega arith) (omega arith)

unfoldable pub heaps_twin :
    IsTwin 0x10000 0x50000 fresh_heap.1 other_heap.1 fresh_heap.0 other_heap.0
unfolding program
heaps_twin = record {
  before = [];
  head = cell 100 0x10000 0;
  behind = [];
  before' = [];
  head' = cell 500 0x50000 0;
  behind' = [];
  is = fresh-IsHeap;
  is' = other-IsHeap;
  at = refl;
  at' = refl;
  address = omega arith;
  address' = omega arith;
  same_size = refl;
  in_front = tt;
  here = (omega arith, refl);
  after = tt;
}

pub unused_other : (other_heap.1 200 ≡ none) × (other_heap.1 300 ≡ none) × (other_heap.1 400 ≡ none)
unfolding program
unused_other = (refl, refl, refl)

requests-IsFresh_other : IsFresh other_heap.1 requests
requests-IsFresh_other = (
  omega arith,
  omega arith,
  unused_other.0,
  (omega arith, (omega arith, tt)),
  (
    omega arith,
    omega arith,
    unused_other.1,
    (omega arith, tt),
    (omega arith, omega arith, unused_other.2, tt, tt),
  ),
)

malloc_all-Sames_example : Returns (malloc_all 4 requests fresh_heap.1 fresh_heap.0) (λ a.
    Returns
      (malloc_all 4 requests other_heap.1 other_heap.0)
      (λ a'. Sames 0x10000 0x50000 a.0 a'.0))
unfolding heaps_twin
malloc_all-Sames_example =
    malloc_all-Sames 4 requests requests 0x10000 0x50000 fresh_heap.1 other_heap.1 fresh_heap.0
      other_heap.0 heaps_twin requests-IsFresh requests-IsFresh_other (refl, (refl, (refl, tt)))
      (omega arith) (omega arith)

shmem_key_1 : shared_mem_key_int 1 >>= (λ key. ok (length key)) ≡ ok 13
unfolding shared_mem_key_int
shmem_key_1 = refl

shared_mem_key_int-distinct_example :
    Returns (shared_mem_key_int 1) (λ key. Returns (shared_mem_key_int 12) (λ key'. key ≢ key'))
shared_mem_key_int-distinct_example =
    shared_mem_key_int-distinct 1 12 (omega arith) (omega arith) (omega arith)
