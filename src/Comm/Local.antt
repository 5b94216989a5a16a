-- ===== src/Comm/Local.antt =====
-- comm/comm_local.c: access to the symmetric heaps of the PEs of this node, each one a region of
-- bytes. A region that is not mapped is `none`. `src` stands for the bytes that the caller's buffer
-- holds, and a read returns the bytes that the code copies into the caller's buffer.
pub mod Copy
pub mod Setup
use open_shmem_csci.Base.{ℕ, zero, suc, ◌+◌, Option, none, some, List, [], ◌∷◌, get_elem?, set}
use open_shmem_csci.Base.Run.{Run, ok, ◌>>=◌, of_option, write_at}
use open_shmem_csci.Comm.Node.{Node, PeType, LocalityMap, local, remote, comm_node_map}

-- `memcpy` into a region, and out of one
unfoldable pub write_bytes : (region : List ℕ) (offset : ℕ) (src : List ℕ) → Run (List ℕ)
write_bytes region offset [] = ok region
write_bytes region offset (b ∷ src) =
    write_at region offset b >>= λ region'. write_bytes region' (offset + 1) src

unfoldable pub fetch_bytes : (region : List ℕ) (offset size : ℕ) → Run (List ℕ)
fetch_bytes region offset zero = ok []
fetch_bytes region offset (suc size) = of_option (get_elem? region offset) >>= λ b.
    fetch_bytes region (offset + 1) size >>= λ bs. ok (b ∷ bs)

abbrev pub SharedMemory : Type 0
SharedMemory = List (Option (List ℕ))

-- `__shared_memory[index]`, to be accessed
abbrev pub region : SharedMemory → ℕ → Run (List ℕ)
region memory index = of_option (get_elem? memory index) >>= of_option

-- `none` is the return after the message that the PE is remote: nothing is copied
unfoldable pub comm_local_get : Node → SharedMemory → (pe src size : ℕ) → Run (Option (List ℕ))
comm_local_get node memory pe src size = comm_node_map node pe >>= λ map. elim map.type [
  | remote ↦ ok none
  | local ↦ region memory map.index >>= λ r. fetch_bytes r src size >>= λ bs. ok (some bs)
]

unfoldable pub comm_local_put :
    Node → SharedMemory → (pe dest : ℕ) (src : List ℕ) → Run SharedMemory
comm_local_put node memory pe dest src = comm_node_map node pe >>= λ map. elim map.type [
  | remote ↦ ok memory
  | local ↦ region memory map.index >>= λ r.
      write_bytes r dest src >>= λ r'. ok (set memory map.index (some r'))
]
