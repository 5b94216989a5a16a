-- ===== src/Comm/Layers.antt =====
-- comm/comm.c: the layers of the communication as they are set up, wired up and let go. Numbers of PEs
-- are below 2^31, but for one of local PEs that is not known, which is the word of -1; a difference is
-- its word of 32 bits. `ram` is the process's own memory.
pub mod Created
pub mod Psync
use open_shmem_csci.Base.{
  ℕ, ◌+◌, ◌*◌, ◌-◌, ◌%◌, ◌^◌, Bool, true, false, Option, none, some, List, [], ◌∷◌, ltb, ◌==◌, ◌&&◌,
  if◌then◌else◌, replicate,
}
use open_shmem_csci.Base.Run.{Run, ok, fault, ◌>>=◌, of_option}
use open_shmem_csci.Memory.Ram.{write_ram}
use open_shmem_csci.Memory.Store.{Store, Block, null}
use open_shmem_csci.Memory.SharedHeap.{SharedHeap, shared_heap_malloc, shared_heap_free}
use open_shmem_csci.Network.{Kernel, Socket, network_create_server}
use open_shmem_csci.Comm.Node.{Node, comm_node_init}
use open_shmem_csci.Comm.Wireup.{port_base, Action}
use open_shmem_csci.Comm.Wireup.Reads.{comm_remote_wireup_run}
use open_shmem_csci.Comm.Local.Setup.{
  Local, comm_local_init, comm_local_wireup, comm_local_finalize,
}

-- `__server_cmd` and `__server_data`, `none` for `NULL`
pub record Servers : Type 0 where
  pub cmd : Option Socket
  pub data_server : Option Socket

-- `__my_pe`, `__n_pes` and `__n_remote_pes`, and the servers
pub record RemotePes : Type 0 where
  pub my_pe : ℕ
  pub n_pes : ℕ
  pub n_remote_pes : ℕ
  pub servers : Servers

pub record Layers : Type 0 where
  pub node : Node
  pub heaps : Local
  pub blocks : Store
  pub remote : RemotePes
  pub psync : ℕ
  pub ram : ℕ → ℕ

unfoldable pub open_servers : Kernel → (my_pe n_pes : ℕ) → Servers
unfolding network_create_server
open_servers k my_pe n_pes = record {
  cmd = network_create_server k (port_base + 2 * my_pe) n_pes;
  data_server = network_create_server k (port_base + 2 * my_pe + 1) n_pes;
}

unfoldable pub comm_remote_init : Kernel → (my_pe n_pes n_remote_pes : ℕ) → RemotePes
unfolding open_servers
comm_remote_init k my_pe n_pes n_remote_pes = record {
  my_pe = my_pe;
  n_pes = n_pes;
  n_remote_pes = n_remote_pes;
  servers = open_servers k my_pe n_pes;
}

-- Closing through a `NULL` that the second server is faults; the closed ones are `NULL`.
unfoldable pub close_servers : Servers → Run Servers
close_servers s = elim s.cmd [
  | none ↦ ok s
  | some c ↦ of_option s.data_server >>= λ d. ok (record { cmd = none; data_server = none })
]

-- What both the wire-up and the finalization of the remote layer end with; the thread, its lock and its
-- buffers are not modelled here.
unfoldable pub comm_remote_close : RemotePes → Run RemotePes
unfolding close_servers
comm_remote_close r = close_servers r.servers >>= λ servers. ok (record r { servers = servers })

unfoldable pub symmetric_malloc :
    ℕ → (fresh : ℕ) (raw : Block) (size : ℕ) → Layers → Run (ℕ × Layers)
unfolding shared_heap_malloc
symmetric_malloc fuel fresh raw size c = of_option c.heaps.symmetric_heap >>= λ h.
    shared_heap_malloc fuel c.blocks h fresh raw size >>= λ r.
    ok (r.0, record c { heaps = record c.heaps { symmetric_heap = some r.1 }; blocks = r.2 })

unfoldable pub symmetric_free : (ptr : ℕ) → Layers → Run Layers
unfolding shared_heap_free
symmetric_free ptr c = of_option c.heaps.symmetric_heap >>= λ h.
    shared_heap_free c.blocks h ptr >>= λ r.
    ok (record c { heaps = record c.heaps { symmetric_heap = some r.0 }; blocks = r.1 })

-- `memset(ptr, 0, n)`
unfoldable pub clear_bytes : (ptr n : ℕ) → Layers → Run Layers
clear_bytes ptr n c =
    if ptr == null && ltb 0 n
    then fault
    else ok (record c { ram = write_ram c.ram ptr (replicate n 0) })

-- `a - b` on `int`
unfoldable pub sub32 : (a b : ℕ) → ℕ
sub32 a b = (a + 2 ^ 32 - b % 2 ^ 32) % 2 ^ 32

module _ (shm_open : (key : ℕ) → Option ℕ) (mmap : (fd size : ℕ) → ℕ) where
  unfoldable pub comm_init :
      Kernel
      → Store
      → (fresh : ℕ) (raw : Block) (ram : ℕ → ℕ)
      → (region old my_local_pe n_local_pes my_pe n_pes n_nodes : ℕ) → Run Layers
  unfolding comm_node_init comm_local_init comm_remote_init sub32
  comm_init k s fresh raw ram region old my_local_pe n_local_pes my_pe n_pes n_nodes =
      comm_local_init shm_open mmap s fresh raw region old my_local_pe n_local_pes >>= λ r.
      ok (record {
        node = comm_node_init n_pes n_nodes;
        heaps = r.0;
        blocks = r.1;
        remote = comm_remote_init k my_pe n_pes (sub32 n_pes n_local_pes);
        psync = null;
        ram = ram;
      })

  -- `array` and `held` are where the array of mappings lies and what its memory holds; `levels` as in
  -- `comm_remote_wireup_run`. The threads that `comm_start` starts are modelled on their own.
  unfoldable pub comm_wireup :
      ℕ
      → (array : ℕ) (held : ℕ → ℕ) (levels fresh : ℕ) (raw : Block) → Layers
      → Run (List Action × Layers)
  unfolding comm_local_wireup comm_remote_wireup_run comm_remote_close symmetric_malloc clear_bytes
  comm_wireup fuel array held levels fresh raw c =
      comm_local_wireup shm_open mmap array held c.heaps >>= λ heaps.
      comm_remote_wireup_run c.node c.remote.n_pes levels c.remote.my_pe >>= λ actions.
      comm_remote_close c.remote >>= λ remote.
      symmetric_malloc fuel fresh raw (4 * c.remote.n_pes)
        (record c { heaps = heaps; remote = remote })
      >>= λ r. clear_bytes r.0 (4 * c.remote.n_pes) (record r.1 { psync = r.0 }) >>= λ c'.
          ok (actions, c')

-- What `munmap` is given, and the layers. The worker's flag, the thread with its lock and buffers,
-- and the node's arrays, which are let go too, are not part of this state.
unfoldable pub comm_finalize : ℕ → Layers → Run (List ℕ × Layers)
unfolding comm_remote_close comm_local_finalize symmetric_free
comm_finalize fuel c = comm_remote_close c.remote >>= λ remote.
    comm_local_finalize fuel c.blocks c.heaps >>= λ r.
    symmetric_free c.psync (record c { remote = remote; heaps = r.1; blocks = r.2 }) >>= λ c'.
    ok (r.0, c')
