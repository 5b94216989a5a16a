-- ===== src/Comm/Node/Complete.antt =====
-- The entries of all the PEs that the lists of the hosts name.
use mathlib.Core.Path.{subst}
use Prim.Native.String.{String}
use open_shmem_csci.Base.{ℕ, ◌+◌, ◌≤◌, ◌≡◌, ◌∙◌, sym, ap, some, List, ◌∷◌, ◌++◌, length, get_elem?}
use open_shmem_csci.Base.Run.{Run, ok, ◌>>=◌}
use open_shmem_csci.Comm.Node.{
  Node, LocalityMap, entry_index, host_type, comm_node_init, comm_node_map_locality, comm_node_map,
}
use open_shmem_csci.Comm.Node.Writes.{InRange}
use open_shmem_csci.Comm.Node.Hosts.{Hosts, OnceEach, all_pes, remote_pes}
use open_shmem_csci.Comm.Node.Indices.{Fits, comm_node_map-locality}

-- a PE is the `k`-th one in the list of some host
pub record IsIn (table : Hosts) (pe : ℕ) : Type 0 where
  pub before : Hosts
  pub host : String
  pub pes : List ℕ
  pub behind : Hosts
  pub k : ℕ
  pub split : table ≡ before ++ (host, pes) ∷ behind
  pub listed : get_elem? pes k ≡ some pe

-- the entry that the loops write for it
abbrev pub place : (hostname : String) {table : Hosts} {pe : ℕ} → IsIn table pe → LocalityMap
place hostname is = record {
  type = host_type hostname is.host;
  index =
      entry_index (host_type hostname is.host) is.k (length (remote_pes hostname is.before) + is.k);
  host = length is.before;
}

module _ (resolve : String → ℕ) (hostname : String) (n_pes n_nodes : ℕ) where
  -- the map from the lists gives each PE of a list its entry
  pub mapped-place :
      (table : Hosts) (pe : ℕ) (is : IsIn table pe) (node : Node)
      → length table ≤ n_nodes
      → InRange n_pes (all_pes table)
      → OnceEach (all_pes table)
      → Fits table
      → comm_node_map_locality resolve hostname table (comm_node_init n_pes n_nodes) ≡ ok node
      → comm_node_map node pe ≡ ok (place hostname is)
  mapped-place table pe is node nodes range once fits run =
      sym (ap (λ (r : Run Node). r >>= λ n. comm_node_map n pe) run)
      ∙ subst
          (λ t.
            length t ≤ n_nodes
            → InRange n_pes (all_pes t)
            → OnceEach (all_pes t)
            → Fits t
            → (comm_node_map_locality resolve hostname t (comm_node_init n_pes n_nodes) >>= λ n.
                comm_node_map n pe)
              ≡ ok (place hostname is))
          (sym is.split)
          (λ a b c d.
            comm_node_map-locality resolve hostname n_pes n_nodes is.k pe is.before is.host is.pes
              is.behind is.listed a b c d)
          nodes range once fits
