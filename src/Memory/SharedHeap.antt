-- ===== src/Memory/SharedHeap.antt =====
-- memory/shared_heap.c: a heap over a shared memory object. `fresh` and `raw` are what `malloc`
-- returns and finds for the heap's first block.
use open_shmem_csci.Base.{ℕ, ◌≡◌, ◌≢◌, ap, Option, none, some}
use open_shmem_csci.Base.Run.{Run, ok, ◌>>=◌}
use open_shmem_csci.Memory.Store.{Store, Block}
use open_shmem_csci.Memory.Heap.{
  Heap, heap_init, heap_malloc, heap_free, heap_offset, heap_finalize,
}
use open_shmem_csci.Memory.SharedMem.{
  map_failed, shared_mem_open-success, shared_mem_open, shared_mem_create,
}

pub record SharedHeap : Type 0 where
  pub heap : Heap
  pub key : ℕ

-- the result of `shared_mem_open` or `shared_mem_create` becomes a heap, or `NULL`
unfoldable pub make_heap :
    Store → (fresh : ℕ) (raw : Block) (key size : ℕ) → Option ℕ × ℕ → Option SharedHeap × Store
unfolding heap_init
make_heap s fresh raw key size r = elim r.0 [
  | none ↦ (none, s)
  | some fd ↦
      let h = heap_init s fresh raw r.1 size in (some (record { heap = h.0; key = key }), h.1)
]

module _ (shm_open : (key : ℕ) → Option ℕ) (mmap : (fd size : ℕ) → ℕ) where
  -- `region` is the address of the local variable of that name, `old` what it held
  unfoldable pub shared_heap_open :
      Store → (fresh : ℕ) (raw : Block) (region old key size : ℕ) → Option SharedHeap × Store
  unfolding make_heap shared_mem_open
  shared_heap_open s fresh raw region old key size =
      make_heap s fresh raw key size (shared_mem_open shm_open mmap key size region old)

  unfoldable pub shared_heap_create :
      Store → (fresh : ℕ) (raw : Block) (region old key size : ℕ) → Run (Option SharedHeap × Store)
  unfolding make_heap shared_mem_create
  shared_heap_create s fresh raw region old key size =
      shared_mem_create shm_open mmap key size region old >>= λ r.
      ok (make_heap s fresh raw key size r)

unfoldable pub shared_heap_malloc :
    ℕ → Store → SharedHeap → (fresh : ℕ) (raw : Block) (bytes : ℕ) → Run (ℕ × SharedHeap × Store)
unfolding heap_malloc
shared_heap_malloc fuel s h fresh raw bytes =
    heap_malloc fuel s h.heap fresh raw bytes >>= λ r. ok (r.0, record h { heap = r.1 }, r.2)

unfoldable pub shared_heap_free : Store → SharedHeap → (ptr : ℕ) → Run (SharedHeap × Store)
unfolding heap_free
shared_heap_free s h ptr = heap_free s h.heap ptr >>= λ r. ok (record h { heap = r.0 }, r.1)

unfoldable pub shared_heap_offset : SharedHeap → ℕ → ℕ
unfolding heap_offset
shared_heap_offset h ptr = heap_offset h.heap ptr

-- `munmap` is not modelled; what is left is that the heap's blocks are freed
unfoldable pub shared_heap_close : ℕ → Store → SharedHeap → Run Store
unfolding heap_finalize
shared_heap_close fuel s h = heap_finalize fuel s h.heap

module _ (shm_open : (key : ℕ) → Option ℕ) (mmap : (fd size : ℕ) → ℕ) (s : Store) (fresh : ℕ)
    (raw : Block) (region old key size fd : ℕ) (opened : shm_open key ≡ some fd)
    (named : region ≢ map_failed) where
  -- Where the shared memory object opens and the out-pointer is not at the address `MAP_FAILED`,
  -- `shared_heap_open` returns a heap at the address that `mmap` returned, also if it failed.
  pub shared_heap_open-heap : shared_heap_open shm_open mmap s fresh raw region old key size ≡ (
    some (record { heap = (heap_init s fresh raw (mmap fd size) size).0; key = key }),
    (heap_init s fresh raw (mmap fd size) size).1,
  )
  unfolding shared_heap_open make_heap
  shared_heap_open-heap =
      ap (make_heap s fresh raw key size)
        (shared_mem_open-success shm_open mmap key size region old fd opened named)
