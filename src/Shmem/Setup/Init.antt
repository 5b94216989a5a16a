-- ===== src/Shmem/Setup/Init.antt =====
-- `shmem_init` as a whole, on a PE for which everything that it asks for is there.
use Prim.Native.String.{String}
use open_shmem_csci.Base.{
  ℕ, ◌%◌, ◌^◌, ◌<◌, ◌≡◌, ◌≢◌, Option, some, List, ◌∷◌, ◌++◌, map as map_list, length, get_elem?,
}
use open_shmem_csci.Base.Run.{ok}
use open_shmem_csci.Memory.Store.{Store, Block, null}
use open_shmem_csci.Memory.SharedHeap.{SharedHeap}
use open_shmem_csci.Network.{Kernel}
use open_shmem_csci.Rte.{Pmix, Proc, Rte, ranks_from}
use open_shmem_csci.Rte.Fence.{proc_of}
use open_shmem_csci.Comm.Node.{Node, LocalityMap, local, comm_node_map}
use open_shmem_csci.Comm.Node.Hosts.{Hosts}
use open_shmem_csci.Comm.Node.Complete.{place}
use native.Mathlib.Decide.{dec_lt}
use open_shmem_csci.Comm.Wireup.Reads.{IsComplete}
use open_shmem_csci.Comm.Layers.{Layers}
use open_shmem_csci.Shmem.Setup.Ready.{begun, my_local, n_local, IsTold, IsOpened, IsUnused}

module _ (p : Pmix) (k : Kernel) (shm_open : (key : ℕ) → Option ℕ) (mmap : (fd size : ℕ) → ℕ)
    (gethostbyname : String → Option (List ℕ)) (hostname : String) (v : ℕ) (s : Store) (fresh : ℕ)
    (raw : Block) (ram : ℕ → ℕ) (region old array : ℕ) (held : ℕ → ℕ) (fd : ℕ → ℕ)
    (is : IsOpened k shm_open mmap fd array region
      (my_local p v)
      (n_local p v)
      (begun p v).my_pe
      (v % 2 ^ 32))
    (free : IsUnused s fresh) (clear : raw.next ≡ null) where
  module _ (fuel : ℕ) (levels fresh' : ℕ) (raw' : Block) (r : Rte) (j : ℕ) (xs : Hosts)
      (pes : List ℕ) (ys : Hosts) (told : IsTold p v (xs ++ (hostname, pes) ∷ ys))
      (mine : get_elem? pes j ≡ some (begun p v).my_pe)
      (enough : length (xs ++ (hostname, pes) ∷ ys) < fuel) (free' : IsUnused s fresh')
      (other : fresh' ≢ fresh) where
    abbrev table : Hosts
    table = xs ++ (hostname, pes) ∷ ys

    -- what PMIx is to wait for
    abbrev everyone : List Proc
    everyone = map_list (proc_of p.init.1.nspace) (ranks_from v 0)

    -- the own entry in the locality map
    abbrev own : LocalityMap
    own = record { type = local; index = j; host = length xs }

    -- the entry of each PE by its place in the lists
    abbrev place_if : (pe : ℕ) → Dec (pe < v) → LocalityMap
    place_if pe (yes below) = place hostname (told.all_listed pe below)
    place_if pe (no past) = own

    abbrev places : ℕ → LocalityMap
    places pe = place_if pe (dec_lt pe v)

    IsMapped : Node → Type 0
    IsMapped node =
        (comm_node_map node (begun p v).my_pe ≡ ok own) × IsComplete node (v % 2 ^ 32) places
