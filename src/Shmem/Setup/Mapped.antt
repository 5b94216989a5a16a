-- ===== src/Shmem/Setup/Mapped.antt =====
-- From what PMIx tells to the entry of each PE in the locality map.
use Prim.Native.String.{String}
use open_shmem_csci.Base.{ℕ, ◌<◌, ◌≡◌, refl, List, [], ◌∷◌, length, All}
use open_shmem_csci.Base.Run.{Run, ok, ◌>>=◌, bind-ok}
use open_shmem_csci.Rte.{Pmix, Rte, with_rank}
use open_shmem_csci.Rte.Hosts.{
  IsHostname, IsListed, Resolves, names_of, found, rte_remote_peers-found,
}
use open_shmem_csci.Comm.Node.{Node, comm_node_map_locality}
use open_shmem_csci.Comm.Node.Hosts.{Hosts}
use open_shmem_csci.Comm.Node.Indices.{Fits}
use open_shmem_csci.Shmem.Setup.{read_peers, shmem_map_locality}

read_peers-found : (table : List (String × List ℕ)) → read_peers (found table) ≡ ok table
unfolding read_peers
read_peers-found [] = refl
read_peers-found ((host, pes) ∷ table) = bind-ok _ (read_peers-found table) refl

-- the names that PMIx tells fit into the arrays of the locality map
pub names-Fits : (table : Hosts) → All IsHostname (names_of table) → Fits table
names-Fits [] names = tt
names-Fits ((host, pes) ∷ table) names = (names.0.fits, names-Fits table names.1)

module _ (p : Pmix) (r : Rte) (resolve : String → ℕ) (hostname : String) (fuel : ℕ) where
  -- what PMIx tells about the hosts comes to the locality map unchanged
  pub shmem_map_locality-table :
      (table : Hosts) (node : Node)
      → IsListed p r (names_of table)
      → length table < fuel
      → All (Resolves p r.proc.nspace) table
      → shmem_map_locality p resolve hostname fuel r node ≡ (
          comm_node_map_locality resolve hostname table node >>= λ n.
          ok (n, with_rank p.rank_wildcard r))
  unfolding shmem_map_locality
  shmem_map_locality-table table node listed enough resolved =
      bind-ok _ (rte_remote_peers-found p r table fuel listed enough resolved)
        (bind-ok _ (read_peers-found table) refl)
