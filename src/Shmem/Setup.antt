-- ===== src/Shmem/Setup.antt =====
-- shmem.c: how the library is set up and what maps the PEs of all the hosts. `hostname` is what
-- `gethostname` writes, and `resolve` stands for `netutil_resolve_host`.
pub mod Mapped
pub mod Ready
pub mod Init
use Prim.Native.String.{String}
use open_shmem_csci.Base.{ℕ, ◌+◌, Option, none, some, List, [], ◌∷◌}
use open_shmem_csci.Base.Run.{Run, ok, fault, ◌>>=◌, of_option}
use open_shmem_csci.Memory.Store.{Store, Block}
use open_shmem_csci.Network.{Kernel}
use open_shmem_csci.Network.Netutil.{netutil_resolve_host}
use open_shmem_csci.Rte.{
  Pmix, Proc, Rte, room, rte_init, rte_my_local_pe, rte_n_local_pes, rte_n_nodes, rte_remote_peers,
  rte_barrier_all,
}
use open_shmem_csci.Comm.Node.{Node, comm_node_map_locality}
use open_shmem_csci.Comm.Wireup.{Action}
use open_shmem_csci.Comm.Layers.{Layers, comm_init, comm_wireup}

-- the lists of PEs that are read: one that was not set faults
unfoldable pub read_peers : List (String × Option (List ℕ)) → Run (List (String × List ℕ))
read_peers [] = ok []
read_peers ((host, pes) ∷ peers) =
    of_option pes >>= λ pes'. read_peers peers >>= λ rest. ok ((host, pes') ∷ rest)

-- Without an array of hosts, the code frees a pointer that was not set.
unfoldable pub shmem_map_locality :
    Pmix → (resolve : String → ℕ) (hostname : String) (fuel : ℕ) → Rte → Node → Run (Node × Rte)
unfolding rte_remote_peers read_peers comm_node_map_locality
shmem_map_locality p resolve hostname fuel r node = rte_remote_peers p fuel r >>= λ q. elim q.0 [
  | none ↦ fault
  | some peers ↦ read_peers peers >>= λ table.
      comm_node_map_locality resolve hostname table node >>= λ node'. ok (node', q.1)
]

-- What PMIx is asked to wait for at each barrier, what the wire-up does, and the state.
pub record Started : Type 0 where
  pub fences : List (List Proc)
  pub actions : List Action
  pub rte : Rte
  pub layers : Layers

module _ (p : Pmix) (k : Kernel) (shm_open : (key : ℕ) → Option ℕ) (mmap : (fd size : ℕ) → ℕ)
    (gethostbyname : String → Option (List ℕ)) (hostname : String) where
  -- The call of `comm_init` with what the runtime tells; a number of nodes that it does not tell gives no
  -- entries for them. `region` and `old` are as in `comm_local_init`.
  unfoldable pub init_layers :
      Store → (fresh : ℕ) (raw : Block) (ram : ℕ → ℕ) (region old : ℕ) → Rte → Run (Layers × Rte)
  unfolding rte_my_local_pe rte_n_local_pes rte_n_nodes room comm_init
  init_layers s fresh raw ram region old r =
      let me = rte_my_local_pe p r in
      let n = rte_n_local_pes p me.1 in
      let nodes = rte_n_nodes p n.1 in
      comm_init shm_open mmap k s fresh raw ram region old me.0 n.0 r.my_pe r.n_pes (room nodes.0)
      >>= λ c. ok (c, nodes.1)

  -- `fresh'` and `raw'` are for the block of `__pSync`; the others as in `comm_wireup`.
  unfoldable pub shmem_init :
      (fuel : ℕ)
      → Store
      → (fresh : ℕ) (raw : Block) (ram : ℕ → ℕ) (region old : ℕ)
      → (array : ℕ) (held : ℕ → ℕ) (levels fresh' : ℕ) (raw' : Block) → Rte
      → Run Started
  unfolding rte_init init_layers shmem_map_locality netutil_resolve_host rte_barrier_all comm_wireup
  shmem_init fuel s fresh raw ram region old array held levels fresh' raw' r =
      rte_init p r >>= λ r₁. init_layers s fresh raw ram region old r₁ >>= λ c.
      shmem_map_locality p (netutil_resolve_host gethostbyname) hostname fuel c.1 c.0.node >>= λ m.
      rte_barrier_all m.1 >>= λ before.
      comm_wireup shm_open mmap fuel array held levels fresh' raw' (record c.0 { node = m.0 })
      >>= λ w. rte_barrier_all m.1 >>= λ after.
          ok (record { fences = before ∷ after ∷ []; actions = w.0; rte = m.1; layers = w.1 })

unfoldable pub shmem_my_pe : Layers → ℕ
shmem_my_pe c = c.remote.my_pe

unfoldable pub shmem_n_pes : Layers → ℕ
shmem_n_pes c = c.remote.n_pes
