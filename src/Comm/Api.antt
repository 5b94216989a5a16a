-- ===== src/Comm/Api.antt =====
-- comm/comm.c: a get or a put goes to the local or the remote layer by the PE's entry in the
-- locality map. `ram` is this PE's own memory, byte by byte.
pub mod Dispatch
use open_shmem_csci.Base.{ℕ, zero, suc, ◌+◌, Option, none, some, List, [], ◌∷◌, ◌==◌, if◌then◌else◌}
use open_shmem_csci.Base.Run.{Run, ok, ◌>>=◌}
use open_shmem_csci.Memory.Ram.{bytes_at, write_ram}
use open_shmem_csci.Memory.Store.{Store, Block}
use open_shmem_csci.Memory.Heap.{Heap, heap_malloc, heap_free, heap_offset}
use open_shmem_csci.Comm.Node.{Node, PeType, LocalityMap, local, remote, comm_node_map}
use open_shmem_csci.Comm.Local.{SharedMemory, comm_local_get, comm_local_put}
use open_shmem_csci.Comm.Remote.{Remote, comm_remote_put}
use open_shmem_csci.Job.Work.{Worker, handler_put, handler_get, work_put}

pub record Comm : Type 0 where
  pub node : Node
  pub memory : SharedMemory
  pub remote : Remote
  pub worker : Worker
  pub heap : Heap
  pub blocks : Store
  pub ram : ℕ → ℕ

-- `comm_local_get` into this PE's memory; the remote layer's `get` has an empty body
unfoldable pub comm_get : (dest source bytes dest_pe : ℕ) → Comm → Run Comm
comm_get dest source bytes dest_pe c = comm_node_map c.node dest_pe >>= λ map. elim map.type [
  | local ↦ comm_local_get c.node c.memory dest_pe source bytes >>= λ got. elim got [
    | none ↦ ok c
    | some bs ↦ ok (record c { ram = write_ram c.ram dest bs })
  ]
  | remote ↦ ok c
]

-- `fresh` and `raw` are what the remote layer's `malloc` returns and finds
unfoldable pub comm_put : (fresh raw dest source bytes dest_pe : ℕ) → Comm → Run Comm
comm_put fresh raw dest source bytes dest_pe c = comm_node_map c.node dest_pe >>= λ map.
    elim map.type [
      | local ↦
          comm_local_put c.node c.memory dest_pe dest (bytes_at c.ram source bytes) >>= λ memory.
          ok (record c { memory = memory })
      | remote ↦
          comm_remote_put fresh raw dest_pe dest (bytes_at c.ram source bytes) c.remote >>= λ r.
          ok (record c { remote = r })
    ]

unfoldable pub comm_get_nbi : (fresh dest source bytes dest_pe : ℕ) → Comm → Run Comm
comm_get_nbi fresh dest source bytes dest_pe c =
    work_put c.remote.my_pe fresh handler_get dest_pe dest source bytes c.worker >>= λ r.
    ok (record c { worker = r.1 })

unfoldable pub comm_put_nbi : (fresh dest source bytes dest_pe : ℕ) → Comm → Run Comm
comm_put_nbi fresh dest source bytes dest_pe c =
    work_put c.remote.my_pe fresh handler_put dest_pe dest source bytes c.worker >>= λ r.
    ok (record c { worker = r.1 })

-- the body of `comm_flush` is empty
unfoldable pub comm_flush : Comm → Comm
comm_flush c = c

unfoldable pub comm_local_offset : Comm → ℕ → ℕ
unfolding heap_offset
comm_local_offset c ptr = heap_offset c.heap ptr

unfoldable pub comm_heap_malloc : ℕ → (fresh : ℕ) (raw : Block) (size : ℕ) → Comm → Run (ℕ × Comm)
unfolding heap_malloc
comm_heap_malloc fuel fresh raw size c = heap_malloc fuel c.blocks c.heap fresh raw size >>= λ r.
    ok (r.0, record c { heap = r.1; blocks = r.2 })

unfoldable pub comm_heap_free : ℕ → Comm → Run Comm
unfolding heap_free
comm_heap_free ptr c =
    heap_free c.blocks c.heap ptr >>= λ r. ok (record c { heap = r.0; blocks = r.1 })
