-- ===== src/Examples/Delivery.antt =====
-- Two nodes with one PE each, PE 1 and PE 2 of three, and the sockets between them as streams of bytes.
use open_shmem_csci.Base.{
  ℕ, zero, suc, ◌+◌, ◌*◌, ◌<◌, ◌≡◌, ◌≢◌, refl, inl, inr, false, Option, none, some, List, [], ◌∷◌,
  ◌++◌, ◌==◌, Bool-cases, if◌then◌else◌, get_elem?, arith,
}
use open_shmem_csci.Base.Run.{ok, ◌>>=◌, Returns}
use open_shmem_csci.Memory.Ram.{bytes_at}
use open_shmem_csci.Memory.HashMap.{hashmap_init}
use open_shmem_csci.Comm.Node.{Node, local, remote, comm_node_map}
use open_shmem_csci.Comm.Local.{comm_local_get}
use open_shmem_csci.Comm.Packet.{Packet, packed}
use open_shmem_csci.Comm.Packet.RoundTrip.{IsPacket}
use open_shmem_csci.Comm.Remote.{receive_packet}
use open_shmem_csci.Comm.Remote.Deliver.{job_of}
use open_shmem_csci.Comm.Remote.Send.{Counts, HasSocket}
use open_shmem_csci.Comm.Api.{Comm, comm_put}
use open_shmem_csci.Comm.Stream.Message.{receive_packet-message}
use open_shmem_csci.Comm.Stream.Round.{Arrived}
use open_shmem_csci.Comm.Delivery.{
  send_turn, receive_turn, worker_turn, bytes_sent, comm_thread_round,
}
use open_shmem_csci.Comm.Delivery.RemotePut.{remote_put-delivered}
use open_shmem_csci.Comm.Delivery.Thread.{comm_thread_round-serves}
use open_shmem_csci.Job.Queue.{Queue}
use open_shmem_csci.Job.Queue.Refine.{IsQueue}
use open_shmem_csci.Job.Work.{Worker}
use open_shmem_csci.Examples.Streams.{Wires, wires_read, unread, wires-IsStream}

-- a queue with nothing in it
abbrev no_queue : {A : Type 0} → Queue A
no_queue {A} = record { head = 0; tail = 0; nodes = λ p. none }

no_queue-IsQueue : {A : Type 0} → IsQueue {A = A} no_queue []
no_queue-IsQueue = record { linked = tt; at_head = refl; at_tail = tt }

abbrev idle : Worker
idle = record { queue = no_queue; finished = false; tested = false; calls = [] }

-- PE 0 and PE `me` on the node; the other one has the socket 0
abbrev sender_node : Node
sender_node = record {
  nodes = [];
  locality_map =
      some (record { type = local; index = 0; host = 0 })
      ∷ some (record { type = local; index = 1; host = 0 })
      ∷ some (record { type = remote; index = 0; host = 1 })
      ∷ [];
}

abbrev receiver_node : Node
receiver_node = record {
  nodes = [];
  locality_map =
      some (record { type = remote; index = 0; host = 0 })
      ∷ some (record { type = remote; index = 1; host = 0 })
      ∷ some (record { type = local; index = 0; host = 1 })
      ∷ [];
}

sender_map : comm_node_map sender_node 2 ≡ ok (record { type = remote; index = 0; host = 1 })
unfolding comm_node_map
sender_map = refl

receiver_map : comm_node_map receiver_node 2 ≡ ok (record { type = local; index = 0; host = 1 })
unfolding comm_node_map
receiver_map = refl

abbrev comm : (my_pe : ℕ) → Node → List ℕ → Comm
comm my_pe node heap = record {
  node = node;
  memory = some heap ∷ [];
  remote = record { my_pe = my_pe; queue = no_queue; request_indices = 0 ∷ 0 ∷ []; sent = [] };
  worker = idle;
  heap = record { ptr = 4096; head = 100; tail = 100; block_map = hashmap_init 1023; size = 4 };
  blocks = λ p. none;
  ram = λ p. p;
}

abbrev sender : Comm
sender = comm 1 sender_node (5 ∷ 6 ∷ 7 ∷ 8 ∷ [])

abbrev receiver : Comm
receiver = comm 2 receiver_node (1 ∷ 2 ∷ 3 ∷ 4 ∷ [])

abbrev zeros : ℕ → ℕ
zeros i = 0

two-Counts : Counts 2 zeros (0 ∷ 0 ∷ [])
two-Counts = (refl, λ i h. at i h)
  where
    at : (i : ℕ) → i < 2 → get_elem? {A = ℕ} (0 ∷ 0 ∷ []) i ≡ some 0
    at zero h = refl
    at (suc zero) h = refl
    at (suc (suc i)) h = absurd (omega arith)

-- PE 1 puts the bytes at its addresses 50 and 51 at the offset 1 of PE 2's heap
remote_put-delivered_example :
    Returns
      (comm_put 20 0 1 50 2 2 sender >>= send_turn 2 >>= λ s'.
        receive_turn wires_read 700 30 1 (λ j. bytes_sent 0 s'.remote.sent) receiver >>= λ d.
        worker_turn 40 0 d.1)
      (λ t'. comm_local_get t'.node t'.memory 2 1 2 ≡ ok (some (bytes_at sender.ram 50 2)))
remote_put-delivered_example =
    remote_put-delivered wires_read unread (λ bs j. bs) sender receiver 20 0 1 50 2 2 2 700 30 0 40
      1 zeros wires-IsStream (λ bs. refl) sender_map refl (omega arith) two-Counts no_queue-IsQueue
      refl (omega arith) refl (omega arith) (omega arith) (omega arith) (omega arith) refl
      receiver_map refl refl (omega arith) no_queue-IsQueue (omega arith) refl

-- a message of two bytes from PE 1 to the offset 3
abbrev message : Packet
message = record {
  handler = 0;
  origin = 1;
  request_index = 1;
  size = 2;
  heap_offset = 3;
  payload = 9 ∷ 8 ∷ [];
}

message-IsPacket : IsPacket message
message-IsPacket = record {
  handler_small = omega arith;
  origin_small = omega arith;
  request_index_small = omega arith;
  size_small = omega arith;
  heap_offset_small = omega arith;
}

-- it comes on the socket 1, with three bytes of the next one
abbrev incoming : Wires
incoming i = if i == 1 then packed message message.payload ++ 0 ∷ 1 ∷ 0 ∷ [] else []

receive_packet-message_example :
    Returns (receive_packet wires_read 2 700 30 1 incoming zeros idle) (λ r.
      (r.0 1 ≡ 0 ∷ 1 ∷ 0 ∷ [])
      × ((j : ℕ) → j ≢ 1 → r.0 j ≡ incoming j)
      × (bytes_at r.1 700 2 ≡ 9 ∷ 8 ∷ [])
      × IsQueue r.2.queue ((30, job_of 2 700 message) ∷ [])
      × ((a : ℕ) → a ≢ 30 → idle.queue.nodes a ≡ none → r.2.queue.nodes a ≡ none))
receive_packet-message_example =
    receive_packet-message wires_read unread wires-IsStream idle 2 700 30 1 incoming zeros message
      (0 ∷ 1 ∷ 0 ∷ []) message-IsPacket refl refl no_queue-IsQueue (omega arith) refl

abbrev buffers : ℕ → ℕ
buffers i = 700 + i * 100

abbrev nodes : ℕ → ℕ
nodes i = 30 + i

abbrev inbox : ℕ → Option Packet
inbox i = if i == 1 then some message else none

abbrev left_over : ℕ → List ℕ
left_over i = if i == 1 then 0 ∷ 1 ∷ 0 ∷ [] else []

arrived : (j : ℕ) → j < 2 → Arrived (inbox j) (left_over j) (incoming j)
arrived j lt = elim (Bool-cases (j == 1)) [
  | inl e ↦ rw (e) (message-IsPacket, refl, refl)
  | inr e ↦ rw (e) (refl, refl)
]

-- and PE 2 has a packet for PE 1 to send
abbrev busy : Comm
busy = record receiver {
  remote = record {
    my_pe = 2;
    queue = record {
      head = 10;
      tail = 10;
      nodes = λ p. if p == 10 then some (record { job = (1, message); next = 0 }) else none;
    };
    request_indices = 0 ∷ 0 ∷ [];
    sent = [];
  };
}

busy-IsQueue : IsQueue busy.remote.queue ((10, (1, message)) ∷ [])
busy-IsQueue = record { linked = (omega arith, refl, tt, tt); at_head = refl; at_tail = refl }

has_socket : HasSocket receiver_node (λ pe. pe) 2 (1, message)
unfolding comm_node_map
has_socket = (record { type = remote; index = 1; host = 0 }, refl, (refl, omega arith))

comm_thread_round-serves_example :
    Returns (comm_thread_round wires_read 2 buffers nodes 2 incoming busy) (λ r.
      ((j : ℕ) → j < 2 → r.0 j ≡ left_over j)
      × IsQueue r.1.worker.queue ((31, job_of 2 800 message) ∷ [])
      × IsQueue r.1.remote.queue []
      × (r.1.remote.sent ≡ (1, packed (record message { request_index = 1 }) (9 ∷ 8 ∷ [])) ∷ []))
comm_thread_round-serves_example =
    comm_thread_round-serves wires_read unread wires-IsStream buffers nodes inbox left_over
      (λ j l d e. d (omega (arith, e))) (λ j. omega arith) 2 incoming busy []
      ((10, (1, message)) ∷ []) (λ pe. pe) zeros 2 arrived no_queue-IsQueue (λ j. refl) busy-IsQueue
      two-Counts (has_socket, tt)
