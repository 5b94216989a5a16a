-- ===== src/Comm/Node.antt =====
-- comm/comm_node.c: which node a PE is on, and its number among the PEs of this node or among the
-- remote ones. The region that `comm_node_init` allocates holds two arrays that the code uses; an
-- element that was not written yet is `none`. `resolve` stands for `netutil_resolve_host`.
pub mod Writes
pub mod Hosts
pub mod Indices
pub mod Complete
use Prim.Native.String.{String, len}
use text.Mathlib.Text.{◌==◌ as str_eq}
use open_shmem_csci.Base.{
  ℕ, ◌+◌, ◌*◌, ltb, Bool, true, false, Option, none, some, List, [], ◌∷◌, if◌then◌else◌, get_elem?,
  replicate,
}
use open_shmem_csci.Base.Run.{Run, ok, fault, ◌>>=◌, of_option, write_at}
use open_shmem_csci.Rte.{hostname_len}

-- `PE_TYPE_LOCAL` and `PE_TYPE_REMOTE`
pub data PeType : Type 0 where
  local remote : PeType

pub record HostMap : Type 0 where
  pub hostname : String
  pub addr : ℕ

-- `host` is the index of the host in the array of nodes, to which the code has a pointer
pub record LocalityMap : Type 0 where
  pub type : PeType
  pub index : ℕ
  pub host : ℕ

pub record Node : Type 0 where
  pub nodes : List (Option HostMap)
  pub locality_map : List (Option LocalityMap)

unfoldable pub comm_node_init : (n_pes n_nodes : ℕ) → Node
comm_node_init n_pes n_nodes = record {
  nodes = replicate n_nodes none;
  locality_map = replicate n_pes none;
}

-- `(strcmp(hostname, host) == 0) ? PE_TYPE_LOCAL : PE_TYPE_REMOTE`
unfoldable pub host_type : String → String → PeType
host_type hostname host = if str_eq hostname host then local else remote

-- the entry that the inner loop writes, and the count of remote PEs after it
abbrev pub entry_index : PeType → (j index : ℕ) → ℕ
entry_index local j index = j
entry_index remote j index = index

abbrev pub next_index : PeType → ℕ → ℕ
next_index local index = index
next_index remote index = index + 1

-- The inner loop over `pes[i]`, from its element `j` on: the count of remote PEs, and the map.
unfoldable pub map_pes :
    PeType
    → (i j index : ℕ) → List ℕ
    → List (Option LocalityMap)
    → Run (ℕ × List (Option LocalityMap))
map_pes type i j index [] table = ok (index, table)
map_pes type i j index (pe ∷ pes) table =
    write_at table pe (some (record { type = type; index = entry_index type j index; host = i }))
    >>= λ table'. map_pes type i (j + 1) (next_index type index) pes table'

-- `strcpy` of a host's name into the array for it, which has `HOSTNAME_LEN` bytes
unfoldable pub copy_name : String → Run String
copy_name host = if ltb (len host) hostname_len then ok host else fault

-- The outer loop, from the host `i` on. A host comes with the list of its PEs.
unfoldable pub map_hosts :
    (String → ℕ) → String → (i index : ℕ) → List (String × List ℕ) → Node → Run Node
unfolding copy_name host_type map_pes
map_hosts resolve hostname i index [] node = ok node
map_hosts resolve hostname i index ((host, pes) ∷ hosts) node = copy_name host >>= λ name.
    write_at node.nodes i (some (record { hostname = name; addr = resolve host })) >>= λ nodes.
    map_pes (host_type hostname host) i 0 index pes node.locality_map >>= λ r.
    map_hosts resolve hostname (i + 1) r.0 hosts (record { nodes = nodes; locality_map = r.1 })

unfoldable pub comm_node_map_locality :
    (String → ℕ) → String → List (String × List ℕ) → Node → Run Node
unfolding map_hosts
comm_node_map_locality resolve hostname hosts node = map_hosts resolve hostname 0 0 hosts node

-- reading an entry that was never written, or past the array, faults
unfoldable pub comm_node_map : Node → ℕ → Run LocalityMap
comm_node_map node pe = do e ← of_option (get_elem? node.locality_map pe); of_option e
