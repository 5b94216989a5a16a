-- ===== src/Comm/Layers/Created.antt =====
-- What `comm_init` leaves.
use open_shmem_csci.Base.{ℕ, ◌+◌, ◌^◌, ◌<◌, ◌≡◌, ◌≢◌, ◌∙◌, refl, Option, none, some, []}
use open_shmem_csci.Base.Run.{ok, Returns, bind-ok}
use open_shmem_csci.Memory.Store.{Store, Block, null, update_ne}
use open_shmem_csci.Memory.Heap.{heap_init}
use open_shmem_csci.Memory.Heap.Bounds.{heap_init-IsHeap}
use open_shmem_csci.Memory.Heap.Cells.{cell}
use open_shmem_csci.Memory.Heap.Malloc.Layout.{IsHeap}
use open_shmem_csci.Memory.SharedHeap.{SharedHeap, shared_heap_create, make_heap}
use open_shmem_csci.Memory.SharedMem.{map_failed, shared_mem_create-success}
use open_shmem_csci.Network.{Kernel}
use open_shmem_csci.Comm.Node.{comm_node_init}
use open_shmem_csci.Comm.Local.Setup.{symmetric_heap_size, comm_local_init}
use open_shmem_csci.Comm.Layers.{
  Layers, Servers, RemotePes, open_servers, sub32, comm_remote_init, comm_remote_close,
  close_servers, comm_init,
}

-- The symmetric heap was created and nothing was allocated yet, and the servers can be closed.
pub record IsCreated (c : Layers) (h : SharedHeap) : Type 0 where
  pub created : c.heaps.symmetric_heap ≡ some h
  pub id : ℕ
  pub empty : IsHeap c.blocks h.heap [] (cell id h.heap.ptr 0) []
  pub sized : h.heap.size ≡ symmetric_heap_size
  pub mapped : h.heap.ptr ≢ null
  pub closed : RemotePes
  pub closing : comm_remote_close c.remote ≡ ok closed
  pub same_pes : closed.n_pes ≡ c.remote.n_pes

module _ (shm_open : (key : ℕ) → Option ℕ) (mmap : (fd size : ℕ) → ℕ) (k : Kernel) (s : Store)
    (fresh : ℕ) (raw : Block) (ram : ℕ → ℕ)
    (region old my_local_pe n_local_pes my_pe n_pes n_nodes fd : ℕ) where
  -- When the object of the own PE opens and is mapped at an address that is neither NULL nor
  -- `MAP_FAILED` and ends below 2^63, the local variable for that address is not at `MAP_FAILED`, the
  -- memory of the heap's first block holds NULL for `next`, its address is below 2^63, and either both
  -- servers are created or the first is not, then `comm_init` returns: the symmetric heap is created over
  -- the mapped region and empty, the numbers of PEs are stored, the node's arrays are as `comm_node_init`
  -- makes them, and addresses that are not used stay so.
  pub comm_init-IsCreated :
      shm_open my_local_pe ≡ some fd
      → region ≢ map_failed
      → mmap fd symmetric_heap_size ≢ map_failed
      → mmap fd symmetric_heap_size ≢ null
      → mmap fd symmetric_heap_size + symmetric_heap_size < 2 ^ 63
      → raw.next ≡ null
      → fresh ≢ null
      → fresh < 2 ^ 63
      → (closed : Servers) → close_servers (open_servers k my_pe n_pes) ≡ ok closed
      → Returns
          (comm_init shm_open mmap k s fresh raw ram region old my_local_pe n_local_pes my_pe n_pes
            n_nodes)
          (λ c.
            (h : SharedHeap) × IsCreated c h
            × (h.heap.ptr ≡ mmap fd symmetric_heap_size)
            × (c.remote.n_pes ≡ n_pes)
            × (c.remote.my_pe ≡ my_pe)
            × (c.node ≡ comm_node_init n_pes n_nodes)
            × (c.heaps.my_local_pe ≡ my_local_pe)
            × (c.heaps.n_local_pes ≡ n_local_pes)
            × ((a : ℕ) → a ≢ fresh → s a ≡ none → c.blocks a ≡ none))
  unfolding comm_init comm_remote_init comm_remote_close comm_local_init shared_heap_create
      make_heap
  comm_init-IsCreated opened named mapped address small clear some_address low closed closing =
      let r = heap_init s fresh raw (mmap fd symmetric_heap_size) symmetric_heap_size in
      (
        _,
        bind-ok _
            (bind-ok _
              (bind-ok _
                (shared_mem_create-success shm_open mmap my_local_pe symmetric_heap_size region old
                  fd opened named mapped)
                refl)
              refl)
            refl,
        (
          record { heap = r.0; key = my_local_pe },
          record {
            created = refl;
            id = fresh;
            empty =
                heap_init-IsHeap s fresh raw (mmap fd symmetric_heap_size) symmetric_heap_size clear
                  some_address low small;
            sized = refl;
            mapped = address;
            closed = record (comm_remote_init k my_pe n_pes (sub32 n_pes n_local_pes)) {
              servers = closed;
            };
            closing = bind-ok _ closing refl;
            same_pes = refl;
          },
          refl,
          refl,
          refl,
          refl,
          refl,
          refl,
          λ a other free. update_ne s fresh a _ other ∙ free,
        ),
      )
