-- ===== src/Examples/Locality.antt =====
-- Three hosts of which the second is this node.
use Prim.Native.String.{String}
use open_shmem_csci.Base.{ℕ, ◌≡◌, refl, [], ◌∷◌, ◌++◌}
use open_shmem_csci.Base.Run.{ok, ◌>>=◌}
use open_shmem_csci.Comm.Node.{remote, comm_node_init, comm_node_map_locality, comm_node_map}
use open_shmem_csci.Comm.Node.Hosts.{Hosts}

abbrev address : String → ℕ
address host = 7

abbrev before : Hosts
before = ("n1", 0 ∷ 3 ∷ []) ∷ ("n2", 1 ∷ 4 ∷ []) ∷ []

abbrev all_hosts : Hosts
all_hosts = before ++ ("n3", 2 ∷ 5 ∷ []) ∷ []

-- PE 5 is the fourth remote PE
fifth :
    comm_node_map_locality address "n2" all_hosts (comm_node_init 6 3) >>= (λ n. comm_node_map n 5)
    ≡ ok (record { type = remote; index = 3; host = 2 })
unfolding comm_node_init comm_node_map_locality comm_node_map
fifth = refl
