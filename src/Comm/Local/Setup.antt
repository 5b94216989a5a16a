-- ===== src/Comm/Local/Setup.antt =====
-- comm/comm_local.c: how the heaps of the PEs of a node come to be mapped, and how they are let go.
-- Here a heap is the address at which it is mapped. An object of shared memory goes by the number of
-- its PE, from which `shared_mem_key_int` makes its name.
pub mod Mapped
use open_shmem_csci.Base.{
  ℕ, zero, suc, ◌+◌, ◌*◌, true, false, Option, none, some, List, [], ◌∷◌, ◌++◌, ◌==◌, if◌then◌else◌,
  get_elem?, set,
}
use open_shmem_csci.Base.Run.{Run, ok, fault, ◌>>=◌, of_option, write_at}
use open_shmem_csci.Rte.{room}
use open_shmem_csci.Memory.Store.{Store, Block, null}
use open_shmem_csci.Memory.Heap.{Heap}
use open_shmem_csci.Memory.SharedMem.{shared_mem_open}
use open_shmem_csci.Memory.SharedHeap.{SharedHeap, shared_heap_create, shared_heap_close}

-- `2 << 25`
abbrev pub symmetric_heap_size : ℕ
symmetric_heap_size = 67108864

-- `symmetric_heap` is the structure that the pointer leads to, `none` where there is none: at `NULL`, or
-- once it was freed. A number of local PEs that is not known is the word of -1.
pub record Local : Type 0 where
  pub my_local_pe : ℕ
  pub n_local_pes : ℕ
  pub symmetric_heap : Option SharedHeap
  pub shared_memory : List ℕ

-- The values of `n` elements from `i` on that the memory of a new array holds.
unfoldable pub held : (raw : ℕ → ℕ) (n i : ℕ) → List ℕ
held raw zero i = []
held raw (suc n) i = raw i ∷ held raw n (i + 1)

-- The test of the loop: it stops on the result 0, not on the -1 of a failure.
unfoldable pub unless_zero {ℓ} : {A : Type ℓ} → Option ℕ → (stop go_on : A) → A
unless_zero none stop go_on = go_on
unless_zero (some fd) stop go_on = if fd == 0 then stop else go_on

module _ (shm_open : (key : ℕ) → Option ℕ) (mmap : (fd size : ℕ) → ℕ) where
  -- `region` is the address of the local variable that takes the heap's address, `old` what it held
  unfoldable pub comm_local_init :
      Store
      → (fresh : ℕ) (raw : Block) (region old my_local_pe n_local_pes : ℕ) → Run (Local × Store)
  unfolding shared_heap_create
  comm_local_init s fresh raw region old my_local_pe n_local_pes =
      shared_heap_create shm_open mmap s fresh raw region old my_local_pe symmetric_heap_size
      >>= λ r. ok (
        record {
          my_local_pe = my_local_pe;
          n_local_pes = n_local_pes;
          symmetric_heap = r.0;
          shared_memory = [];
        },
        r.1,
      )

  -- The loop of `comm_local_wireup` from `i` on, over the array at `array`.
  unfoldable pub wireup_loop : (k array my_local_pe i : ℕ) → List ℕ → Run (List ℕ)
  unfolding shared_mem_open unless_zero
  wireup_loop zero array my_local_pe i memory = ok memory
  wireup_loop (suc k) array my_local_pe i memory =
      if i == my_local_pe
      then wireup_loop k array my_local_pe (i + 1) memory
      else (of_option (get_elem? memory i) >>= λ old.
          let r = shared_mem_open shm_open mmap i symmetric_heap_size (array + 8 * i) old in
          let memory' = set memory i r.1 in
          unless_zero r.0 (ok memory') (wireup_loop k array my_local_pe (i + 1) memory'))

  -- For a negative number of local PEs `malloc` gives no array, and the write of the own entry faults.
  unfoldable pub comm_local_wireup : (array : ℕ) (raw : ℕ → ℕ) → Local → Run Local
  unfolding wireup_loop held room
  comm_local_wireup array raw l = of_option l.symmetric_heap >>= λ h.
      write_at (held raw (room l.n_local_pes) 0) l.my_local_pe h.heap.ptr >>= λ memory.
      wireup_loop (room l.n_local_pes) array l.my_local_pe 0 memory >>= λ memory'.
      ok (record l { shared_memory = memory' })

-- The loop of `comm_local_finalize`: the addresses that it gives to `munmap`.
unfoldable pub unmapped : (memory : List ℕ) → List ℕ
unmapped [] = []
unmapped (p ∷ memory) = if p == null then unmapped memory else p ∷ unmapped memory

-- The addresses that are given to `munmap`, in order, the layer and the store. The heap and the array
-- are freed: the pointer to the heap stays, with no structure behind it.
unfoldable pub comm_local_finalize : ℕ → Store → Local → Run (List ℕ × Local × Store)
unfolding unmapped shared_heap_close
comm_local_finalize fuel s l = of_option l.symmetric_heap >>= λ h.
    shared_heap_close fuel s h >>= λ s'. ok (
      unmapped l.shared_memory ++ h.heap.ptr ∷ [],
      record l { symmetric_heap = none; shared_memory = [] },
      s',
    )
