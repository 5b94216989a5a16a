-- ===== src/Comm/Api/Dispatch.antt =====
-- What the gets and puts of the communication layer do on each branch.
use mathlib.Core.Path.{subst}
use open_shmem_csci.Base.{
  ℕ, ◌+◌, ◌≤◌, ◌≡◌, ◌≢◌, refl, none, some, List, [], ◌∷◌, ◌++◌, arith, length, get_elem?,
}
use open_shmem_csci.Base.Run.{ok, Returns}
use open_shmem_csci.Memory.Store.{null}
use open_shmem_csci.Comm.Node.{LocalityMap, local, remote, comm_node_map}
use open_shmem_csci.Comm.Local.{SharedMemory, comm_local_get}
use open_shmem_csci.Comm.Local.Copy.{comm_local_get-put}
use open_shmem_csci.Comm.Packet.{Packet}
use open_shmem_csci.Comm.Remote.{put_packet, comm_remote_put}
use open_shmem_csci.Comm.Api.{Comm, comm_get, comm_put}
use open_shmem_csci.Memory.Ram.{bytes_at, write_ram, bytes_at-write_ram, length-bytes_at}
use open_shmem_csci.Job.Queue.{Queue}
use open_shmem_csci.Job.Queue.Refine.{Items, IsQueue, enqueue-append}

-- a put to a PE of this node changes the mapped heaps alone, and the bytes are found there
pub comm_put-memory :
    (c : Comm) (fresh raw dest source bytes pe : ℕ) {m : LocalityMap} {r : List ℕ}
    → comm_node_map c.node pe ≡ ok m
    → m.type ≡ local
    → get_elem? c.memory m.index ≡ some (some r)
    → dest + bytes ≤ length r
    → (memory' : SharedMemory) × (comm_put fresh raw dest source bytes pe c
        ≡ ok (record c { memory = memory' }))
      × (comm_local_get c.node memory' pe dest bytes ≡ ok (some (bytes_at c.ram source bytes)))
unfolding comm_put
comm_put-memory c fresh raw dest source bytes pe e_map e_type e_mem fits =
    let src = bytes_at c.ram source bytes in
    let len : length src ≡ bytes = length-bytes_at c.ram source bytes in
    let (memory', e_put, e_get) =
      comm_local_get-put c.node c.memory pe dest src e_map e_type e_mem (omega (arith, len)) in
    (
      memory',
      rw (e_map) (rw (e_type) (rw (e_put) refl)),
      subst (λ n. comm_local_get c.node memory' pe dest n ≡ ok (some src)) len e_get,
    )

-- a put to a PE of this node, and what a get then does
pub comm_put-local :
    (c : Comm) (fresh raw dest source bytes buffer pe : ℕ) {m : LocalityMap} {r : List ℕ}
    → comm_node_map c.node pe ≡ ok m
    → m.type ≡ local
    → get_elem? c.memory m.index ≡ some (some r)
    → dest + bytes ≤ length r
    → Returns (comm_put fresh raw dest source bytes pe c) (λ c'.
      (c'.heap ≡ c.heap)
      × Returns
          (comm_get buffer dest bytes pe c')
          (λ c''. bytes_at c''.ram buffer bytes ≡ bytes_at c.ram source bytes))
unfolding comm_get
comm_put-local c fresh raw dest source bytes buffer pe e_map e_type e_mem fits =
    let src = bytes_at c.ram source bytes in
    let (memory', e, got) =
      comm_put-memory c fresh raw dest source bytes pe e_map e_type e_mem fits in
    (
      record c { memory = memory' },
      e,
      (
        refl,
        (
          record c { memory = memory'; ram = write_ram c.ram buffer src },
          rw (e_map) (rw (e_type) (rw (got) refl)),
          subst (λ n. bytes_at (write_ram c.ram buffer src) buffer n ≡ src)
              (length-bytes_at c.ram source bytes) (bytes_at-write_ram src c.ram buffer),
        ),
      ),
    )

-- a put to a PE of another node changes the packet queue alone, which has one packet more
pub comm_put-queue :
    (c : Comm) (fresh raw dest source bytes pe : ℕ) {m : LocalityMap} {xs : Items (ℕ × Packet)}
    → comm_node_map c.node pe ≡ ok m
    → m.type ≡ remote
    → IsQueue c.remote.queue xs
    → fresh ≢ null
    → c.remote.queue.nodes fresh ≡ none
    → (q : Queue (ℕ × Packet)) × (comm_put fresh raw dest source bytes pe c
        ≡ ok (record c { remote = record c.remote { queue = q } }))
      × IsQueue q (
          xs
          ++ (fresh, (pe, put_packet raw c.remote.my_pe dest (bytes_at c.ram source bytes))) ∷ [])
unfolding comm_put comm_remote_put
comm_put-queue c fresh raw dest source bytes pe e_map e_type is ne unused =
    let packet = put_packet raw c.remote.my_pe dest (bytes_at c.ram source bytes) in
    let (q, e, is') = enqueue-append fresh (pe, packet) is ne unused in
    (q, rw (e_map) (rw (e_type) (rw (e) refl)), is')

-- A put to a PE of another node, with a linked queue and a new node address, succeeds, changes no
-- heap of this node, and has one more packet at the end of the queue: for this PE, with the offset
-- and the bytes of the put.
pub comm_put-remote :
    (c : Comm) (fresh raw dest source bytes pe : ℕ) {m : LocalityMap} {xs : Items (ℕ × Packet)}
    → comm_node_map c.node pe ≡ ok m
    → m.type ≡ remote
    → IsQueue c.remote.queue xs
    → fresh ≢ null
    → c.remote.queue.nodes fresh ≡ none
    → Returns (comm_put fresh raw dest source bytes pe c) (λ c'.
      (c'.memory ≡ c.memory)
      × IsQueue c'.remote.queue (
          xs
          ++ (fresh, (pe, put_packet raw c.remote.my_pe dest (bytes_at c.ram source bytes))) ∷ []))
comm_put-remote c fresh raw dest source bytes pe e_map e_type is ne unused =
    let (q, e, is') = comm_put-queue c fresh raw dest source bytes pe e_map e_type is ne unused in
    (record c { remote = record c.remote { queue = q } }, e, (refl, is'))

-- A get from a PE of another node changes nothing: not one byte is copied.
pub comm_get-remote :
    (c : Comm) (dest source bytes pe : ℕ) {m : LocalityMap}
    → comm_node_map c.node pe ≡ ok m
    → m.type ≡ remote
    → comm_get dest source bytes pe c ≡ ok c
unfolding comm_get
comm_get-remote c dest source bytes pe e_map e_type = rw (e_map) (rw (e_type) refl)
