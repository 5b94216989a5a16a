-- ===== src/Examples/Puts.antt =====
-- PE 1 of a job of three: PEs 0 and 1 are on its node, PE 2 is not.
use open_shmem_csci.Base.{
  ℕ, ◌*◌, ◌≡◌, refl, false, Option, none, some, List, [], ◌∷◌, arith, ◌==◌, if◌then◌else◌,
}
use open_shmem_csci.Base.Run.{ok, ◌>>=◌, Returns}
use open_shmem_csci.Memory.HashMap.{hashmap_init}
use open_shmem_csci.Comm.Node.{Node, LocalityMap, local, remote, comm_node_map}
use open_shmem_csci.Comm.Packet.{Packet, packed, packet_size}
use open_shmem_csci.Comm.Packet.RoundTrip.{IsPacket}
use open_shmem_csci.Comm.Local.{SharedMemory}
use open_shmem_csci.Comm.Remote.{Remote, comm_thread_send}
use open_shmem_csci.Comm.Remote.Send.{Counts, HasSocket, comm_thread_send-messages}
use open_shmem_csci.Memory.Ram.{bytes_at}
use open_shmem_csci.Comm.Api.{Comm}
use open_shmem_csci.Shmem.{shmem_get, shmem_put}
use open_shmem_csci.Shmem.Access.{shmem_get-put}
use open_shmem_csci.Job.Queue.{Queue}
use open_shmem_csci.Job.Queue.Refine.{IsQueue}
use open_shmem_csci.Job.Work.{WorkJob, Worker}

abbrev node : Node
node = record {
  nodes = [];
  locality_map =
      some (record { type = local; index = 0; host = 0 })
      ∷ some (record { type = local; index = 1; host = 0 })
      ∷ some (record { type = remote; index = 0; host = 1 })
      ∷ [];
}

abbrev entry : ℕ → LocalityMap
entry i = record { type = local; index = i; host = 0 }

mapped : (comm_node_map node 0 ≡ ok (entry 0)) × (comm_node_map node 1 ≡ ok (entry 1))
unfolding comm_node_map
mapped = (refl, refl)

mapped_remote : comm_node_map node 2 ≡ ok (record { type = remote; index = 0; host = 1 })
unfolding comm_node_map
mapped_remote = refl

abbrev memory : SharedMemory
memory = some (1 ∷ 2 ∷ 3 ∷ 4 ∷ []) ∷ some (5 ∷ 6 ∷ 7 ∷ 8 ∷ []) ∷ []

-- PE 1 puts two bytes at the offset 1 of PE 2's heap
abbrev packet : Packet
packet = record {
  handler = 0;
  origin = 1;
  request_index = 0;
  size = 2;
  heap_offset = 1;
  payload = 9 ∷ 9 ∷ [];
}

packet-IsPacket : IsPacket packet
packet-IsPacket = record {
  handler_small = omega arith;
  origin_small = omega arith;
  request_index_small = omega arith;
  size_small = omega arith;
  heap_offset_small = omega arith;
}

abbrev queue : Queue (ℕ × Packet)
queue = record {
  head = 10;
  tail = 10;
  nodes = λ p. if p == 10 then some (record { job = (2, packet); next = 0 }) else none;
}

queue-IsQueue : IsQueue queue ((10, (2, packet)) ∷ [])
queue-IsQueue = record { linked = (omega arith, refl, tt, tt); at_head = refl; at_tail = refl }

abbrev sender : Remote
sender = record { my_pe = 1; queue = queue; request_indices = 0 ∷ []; sent = [] }

abbrev zeros : ℕ → ℕ
zeros i = 0

sender-Counts : Counts 1 zeros (0 ∷ [])
sender-Counts = (refl, λ i h. let e : i ≡ 0 = omega arith in rw e refl)

has_socket : HasSocket node zeros 1 (2, packet)
has_socket = (record { type = remote; index = 0; host = 1 }, mapped_remote, (refl, omega arith))

comm_thread_send-messages_example : Returns (comm_thread_send 2 node sender) (λ r'.
    IsQueue r'.queue []
    × (r'.sent ≡ (0, packed (record packet { request_index = 1 }) (9 ∷ 9 ∷ [])) ∷ []))
comm_thread_send-messages_example =
    comm_thread_send-messages node zeros zeros 1 ((10, (2, packet)) ∷ []) sender queue-IsQueue
      sender-Counts (has_socket, tt)

-- PE 2 receives the packet and its two bytes; `receive` says what is left to read
abbrev wire : List ℕ → (socket size : ℕ) → Option (List ℕ) × List ℕ
wire w socket size = if size == packet_size then (some w, 9 ∷ 9 ∷ []) else (some w, [])

abbrev idle : Worker
idle = record {
  queue = record { head = 0; tail = 0; nodes = λ p. none };
  finished = false;
  tested = false;
  calls = [];
}

idle-IsQueue : IsQueue {A = WorkJob} idle.queue []
idle-IsQueue = record { linked = tt; at_head = refl; at_tail = tt }

abbrev comm : Comm
comm = record {
  node = node;
  memory = memory;
  remote = sender;
  worker = idle;
  heap = record { ptr = 4096; head = 100; tail = 100; block_map = hashmap_init 1023; size = 4 };
  blocks = λ p. none;
  ram = λ p. p;
}

-- one `short` to PE 0 and back, through the address of the heap's third byte
shmem_get-put_example :
    Returns
      (shmem_put 2 20 0 4098 5 1 0 comm >>= shmem_get 2 900 4098 1 0)
      (λ c'. bytes_at c'.ram 900 (1 * 2) ≡ bytes_at comm.ram 5 (1 * 2))
shmem_get-put_example =
    shmem_get-put comm 2 20 0 4098 5 900 1 0 mapped.0 refl refl (omega arith) (omega arith)
      (omega arith) (omega arith) (omega arith)
