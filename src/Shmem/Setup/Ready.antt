-- ===== src/Shmem/Setup/Ready.antt =====
-- What `shmem_init` asks of PMIx and of the system, and its first two steps when that is given.
use Prim.Native.String.{String}
use open_shmem_csci.Base.{
  ℕ, ◌+◌, ◌*◌, ◌%◌, ◌^◌, ◌≤◌, ◌<◌, ◌≡◌, ◌≢◌, refl, ap, Option, none, some, List, All, arith,
}
use open_shmem_csci.Base.Run.{ok, bind-ok, Returns, of_option}
use open_shmem_csci.Memory.Store.{Store, Block, null}
use open_shmem_csci.Memory.SharedHeap.{SharedHeap}
use open_shmem_csci.Memory.SharedMem.{map_failed}
use open_shmem_csci.Network.{Kernel}
use open_shmem_csci.Rte.{
  Pmix, Rte, job_size, room, with_rank, rte_init, rte_my_local_pe, rte_n_local_pes, rte_n_nodes,
}
use open_shmem_csci.Rte.Fence.{proc_of}
use open_shmem_csci.Rte.Hosts.{IsListed, Resolves, names_of}
use open_shmem_csci.Comm.Node.{Node, comm_node_init}
use open_shmem_csci.Comm.Node.Writes.{InRange}
use open_shmem_csci.Comm.Node.Hosts.{Hosts, OnceEach, all_pes}
use open_shmem_csci.Comm.Node.Complete.{IsIn}
use open_shmem_csci.Comm.Local.Setup.{symmetric_heap_size}
use open_shmem_csci.Comm.Layers.{Layers, Servers, open_servers, close_servers}
use open_shmem_csci.Comm.Layers.Created.{IsCreated, comm_init-IsCreated}
use open_shmem_csci.Shmem.Setup.{init_layers}

-- the runtime's state after `rte_init`, when PMIx tells `v` processes
abbrev pub begun : Pmix → (v : ℕ) → Rte
begun p v = record {
  my_pe = p.init.1.rank % 2 ^ 32;
  n_pes = v % 2 ^ 32;
  proc = proc_of p.init.1.nspace p.rank_wildcard;
}

-- what the runtime tells of the node: the own local number, the local PEs and the nodes
abbrev pub my_local : Pmix → ℕ → ℕ
my_local p v = (rte_my_local_pe p (begun p v)).0

abbrev pub n_local : Pmix → ℕ → ℕ
n_local p v = (rte_n_local_pes p (begun p v)).0

-- PMIx tells the number of processes and the hosts with their ranks.
pub record IsTold (p : Pmix) (v : ℕ) (table : Hosts) : Type 0 where
  pub size : p.get (proc_of p.init.1.nspace p.rank_wildcard) job_size ≡ some v
  pub few : v < 2 ^ 31
  pub room_for : 4 * v ≤ symmetric_heap_size
  pub listed : IsListed p (begun p v) (names_of table)
  pub resolved : All (Resolves p p.init.1.nspace) table
  pub in_range : InRange v (all_pes table)
  pub once : OnceEach (all_pes table)
  pub all_listed : (pe : ℕ) → pe < v → IsIn table pe
  pub my_place : my_local p v < n_local p v
  pub few_local : n_local p v < 2 ^ 31

-- The objects of the node's PEs open with descriptors other than 0 and are mapped, and the servers are
-- created, or the first is not.
pub record IsOpened (k : Kernel) (shm_open : (key : ℕ) → Option ℕ) (mmap : (fd size : ℕ) → ℕ)
    (fd : ℕ → ℕ) (array region me n my_pe n_pes : ℕ) : Type 0 where
  pub opened : (i : ℕ) → i < n → shm_open i ≡ some (fd i)
  pub positive : (i : ℕ) → i < n → fd i ≢ 0
  pub named : (i : ℕ) → i < n → array + 8 * i ≢ map_failed
  pub region_named : region ≢ map_failed
  pub mapped : mmap (fd me) symmetric_heap_size ≢ map_failed
  pub address : mmap (fd me) symmetric_heap_size ≢ null
  pub small : mmap (fd me) symmetric_heap_size + symmetric_heap_size < 2 ^ 63
  pub closed : Servers
  pub closing : close_servers (open_servers k my_pe n_pes) ≡ ok closed

-- an address that `malloc` may return: below 2^63 and not used
abbrev pub IsUnused : Store → ℕ → Type 0
IsUnused s a = (a ≢ null) × (a < 2 ^ 63) × (s a ≡ none)

pub IsCreated-node :
    (c : Layers) (h : SharedHeap) (node : Node)
    → IsCreated c h
    → IsCreated (record c { node = node }) h
IsCreated-node c h node is = record {
  created = is.created;
  id = is.id;
  empty = is.empty;
  sized = is.sized;
  mapped = is.mapped;
  closed = is.closed;
  closing = is.closing;
  same_pes = is.same_pes;
}

-- a number of processes below 2^31 is an `int`
pub v_int : (v : ℕ) → v < 2 ^ 31 → v % 2 ^ 32 ≡ v
v_int v few = omega arith

module _ (p : Pmix) (k : Kernel) (shm_open : (key : ℕ) → Option ℕ) (mmap : (fd size : ℕ) → ℕ)
    (gethostbyname : String → Option (List ℕ)) (hostname : String) (v : ℕ) (s : Store) (fresh : ℕ)
    (raw : Block) (ram : ℕ → ℕ) (region old array : ℕ) (held : ℕ → ℕ) (fd : ℕ → ℕ)
    (is : IsOpened k shm_open mmap fd array region
      (my_local p v)
      (n_local p v)
      (begun p v).my_pe
      (v % 2 ^ 32))
    (free : IsUnused s fresh) (clear : raw.next ≡ null) where
  pub begun_lem :
      (r : Rte)
      → p.get (proc_of p.init.1.nspace p.rank_wildcard) job_size ≡ some v
      → rte_init p r ≡ ok (begun p v)
  unfolding rte_init
  begun_lem r size = bind-ok _ (ap of_option size) refl

  -- the layers as `comm_init` leaves them
  abbrev pub IsBegun : (nodes : ℕ) → Layers × Rte → Type 0
  IsBegun nodes r =
      (r.1 ≡ begun p v)
      × ((h : SharedHeap) × IsCreated r.0 h
          × (h.heap.ptr ≡ mmap (fd (my_local p v)) symmetric_heap_size)
          × (r.0.remote.n_pes ≡ v % 2 ^ 32)
          × (r.0.remote.my_pe ≡ (begun p v).my_pe)
          × (r.0.node ≡ comm_node_init (v % 2 ^ 32) nodes)
          × (r.0.heaps.my_local_pe ≡ my_local p v)
          × (r.0.heaps.n_local_pes ≡ n_local p v)
          × ((a : ℕ) → a ≢ fresh → s a ≡ none → r.0.blocks a ≡ none))

  pub init_layers-IsBegun :
      my_local p v < n_local p v
      → Returns
          (init_layers p k shm_open mmap gethostbyname hostname s fresh raw ram region old
            (begun p v))
          (IsBegun (room (rte_n_nodes p (begun p v)).0))
  unfolding init_layers with_rank
  init_layers-IsBegun place =
      let (c, run, q) =
        comm_init-IsCreated shm_open mmap k s fresh raw ram region old (my_local p v) (n_local p v)
          (begun p v).my_pe (v % 2 ^ 32) (room (rte_n_nodes p (begun p v)).0) (fd (my_local p v))
          (is.opened (my_local p v) place) is.region_named is.mapped is.address is.small clear
          free.0 free.1 is.closed is.closing in
      ((c, begun p v), bind-ok _ run refl, (refl, q))
