-- ===== src/Comm/Remote.antt =====
-- comm/comm_remote.c: puts to PEs of other nodes. A put makes a packet and queues it; the
-- communication thread sends what is queued and hands what arrives to the worker. `fresh` addresses
-- are what `malloc` returns. `network_send` is recorded as the socket and the bytes; `receive`
-- stands for `network_receive`, with `none` for -1 and its own state `W`.
pub mod Deliver
pub mod Send
use open_shmem_csci.Base.{
  ℕ, zero, suc, ◌+◌, ◌%◌, ◌^◌, Bool, true, false, Option, none, some, List, [], ◌∷◌, ◌++◌, ◌==◌,
  if◌then◌else◌, length, get_elem?, replicate,
}
use open_shmem_csci.Base.Run.{Run, ok, fault, out_of_fuel, ◌>>=◌, of_option, write_at}
use open_shmem_csci.Memory.Ram.{write_ram}
use open_shmem_csci.Memory.Store.{null}
use open_shmem_csci.Comm.Node.{Node, LocalityMap, comm_node_map}
use open_shmem_csci.Comm.Packet.{Packet, packed, packet_size, read_header}
use open_shmem_csci.Job.Queue.{QueueNode, Queue, new_queue, enqueue, dequeue_free}
use open_shmem_csci.Job.Work.{Worker, handler_put, work_put_remote}

-- A queued packet comes with the PE that it is for.
pub record Remote : Type 0 where
  pub my_pe : ℕ
  pub queue : Queue (ℕ × Packet)
  pub request_indices : List ℕ
  pub sent : List (ℕ × List ℕ)

unfoldable pub comm_remote_start :
    (ℕ → Option (QueueNode (ℕ × Packet))) → (my_pe n_remote_pes : ℕ) → Remote
comm_remote_start nodes my_pe n_remote_pes = record {
  my_pe = my_pe;
  queue = new_queue nodes;
  request_indices = replicate n_remote_pes 0;
  sent = [];
}

-- the request index is not written before the packet is sent: `raw` is what the memory held
unfoldable pub put_packet : (raw my_pe dest : ℕ) → List ℕ → Packet
put_packet raw my_pe dest src = record {
  handler = handler_put;
  origin = my_pe;
  request_index = raw;
  size = length src;
  heap_offset = dest;
  payload = src;
}

unfoldable pub comm_remote_put : (fresh raw pe dest : ℕ) (src : List ℕ) → Remote → Run Remote
unfolding put_packet
comm_remote_put fresh raw pe dest src r = do
  q ← enqueue fresh (pe, put_packet raw r.my_pe dest src) r.queue
  ok (record r { queue = q })

-- The body of `comm_remote_get` is empty: the destination stays as it is.
unfoldable pub comm_remote_get : (pe src size : ℕ) → List ℕ → List ℕ
comm_remote_get pe src size dest = dest

-- one packet of the loop of `__comm_thread_send`
unfoldable pub send_packet : Node → (pe : ℕ) → Packet → Remote → Run Remote
send_packet node pe packet r = comm_node_map node pe >>= λ map.
    of_option (get_elem? r.request_indices map.index) >>= λ last.
    write_at r.request_indices map.index (suc last) >>= λ indices. ok (record r {
      request_indices = indices;
      sent =
          r.sent
          ++ ((map.index, packed (record packet { request_index = suc last }) packet.payload) ∷ []);
    })

unfoldable pub comm_thread_send : ℕ → Node → Remote → Run Remote
unfolding send_packet
comm_thread_send zero node r = out_of_fuel
comm_thread_send (suc fuel) node r =
    if r.queue.head == null
    then ok r
    else dequeue_free r.queue >>= λ d. elim d.0 [
      | none ↦ fault
      | some (pe, packet) ↦
          send_packet node pe packet (record r { queue = d.1 }) >>= comm_thread_send fuel node
    ]

-- what a read has copied: nothing if it failed
unfoldable pub read_or : Option (List ℕ) → List ℕ
read_or none = []
read_or (some bs) = bs

module _ {W : Type 0} (receive : W → (socket size : ℕ) → Option (List ℕ) × W) where
  -- a packet whose header was read: its body is read and goes to the worker with it
  unfoldable pub receive_body :
      (my_pe data_buf fresh i : ℕ)
      → Packet
      → W
      → (ram : ℕ → ℕ) → Worker
      → Run (W × (ℕ → ℕ) × Worker)
  unfolding read_or
  receive_body my_pe data_buf fresh i packet w ram worker =
      let got = receive w i packet.size in
      work_put_remote fresh packet.handler my_pe packet.origin packet.heap_offset data_buf
        packet.size worker
      >>= λ d. ok (got.1, write_ram ram data_buf (read_or got.0), d.1)

  -- The body of the loop of `__comm_thread_receive` for the socket `i`. The addresses are those of
  -- `data_buf` and of the job's queue node.
  unfoldable pub receive_packet :
      (my_pe data_buf fresh i : ℕ) → W → (ram : ℕ → ℕ) → Worker → Run (W × (ℕ → ℕ) × Worker)
  unfolding receive_body
  receive_packet my_pe data_buf fresh i w ram worker =
      let got = receive w i packet_size in
      elim got.0 [
        | none ↦ ok (got.1, ram, worker)
        | some bytes ↦
            if length bytes == packet_size
            then (of_option (read_header bytes) >>= λ h.
                receive_body my_pe data_buf fresh i h.0 got.1 ram worker)
            else ok (got.1, ram, worker)
      ]

  -- The loop of `__comm_thread_receive`, from the socket `i` on. For the socket `i`, `malloc` returns
  -- `data_buf i`, and `fresh i` for the job's queue node.
  unfoldable pub receive_loop :
      (k : ℕ) (my_pe : ℕ) (data_buf fresh : ℕ → ℕ) (i : ℕ)
      → W
      → (ram : ℕ → ℕ) → Worker
      → Run (W × (ℕ → ℕ) × Worker)
  unfolding receive_packet
  receive_loop zero my_pe data_buf fresh i w ram worker = ok (w, ram, worker)
  receive_loop (suc k) my_pe data_buf fresh i w ram worker =
      receive_packet my_pe (data_buf i) (fresh i) i w ram worker >>= λ r.
      receive_loop k my_pe data_buf fresh (i + 1) r.0 r.1 r.2

  unfoldable pub comm_thread_receive :
      (n_remote_pes my_pe : ℕ) (data_buf fresh : ℕ → ℕ)
      → W
      → (ram : ℕ → ℕ) → Worker
      → Run (W × (ℕ → ℕ) × Worker)
  unfolding receive_loop
  comm_thread_receive n_remote_pes my_pe data_buf fresh =
      receive_loop n_remote_pes my_pe data_buf fresh 0
