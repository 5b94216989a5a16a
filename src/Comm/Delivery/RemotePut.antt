-- ===== src/Comm/Delivery/RemotePut.antt =====
-- A put to a PE of another node, from the call to the bytes in the other PE's heap.
use mathlib.Core.Path.{subst}
use mathlib.Core.List.{append-nil}
use open_shmem_csci.Base.{
  ℕ, suc, ◌+◌, ◌^◌, ◌<◌, ◌≤◌, ◌≡◌, ◌≢◌, ◌∙◌, refl, sym, ap, Option, none, some, List, [], ◌∷◌, ◌++◌,
  ◌==◌, if◌then◌else◌, ==_refl, arith, length, get_elem?,
}
use open_shmem_csci.Base.Run.{ok, ◌>>=◌, bind-ok, Returns}
use open_shmem_csci.Memory.Ram.{bytes_at, length-bytes_at}
use open_shmem_csci.Memory.Store.{null}
use open_shmem_csci.Comm.Node.{LocalityMap, local, remote, comm_node_map}
use open_shmem_csci.Comm.Local.{comm_local_get}
use open_shmem_csci.Comm.Packet.{Packet, packed}
use open_shmem_csci.Comm.Packet.RoundTrip.{IsPacket}
use open_shmem_csci.Comm.Remote.{put_packet}
use open_shmem_csci.Comm.Remote.Send.{Counts, comm_thread_send-messages}
use open_shmem_csci.Comm.Remote.Deliver.{job_of}
use open_shmem_csci.Job.Work.{handler_put, work_thread_execute}
use open_shmem_csci.Comm.Api.{Comm, comm_put}
use open_shmem_csci.Comm.Api.Dispatch.{comm_put-memory, comm_put-queue}
use open_shmem_csci.Comm.Stream.{IsStream}
use open_shmem_csci.Comm.Stream.Message.{receive_packet-message}
use open_shmem_csci.Comm.Delivery.{send_turn, receive_turn, worker_turn, bytes_sent}
use open_shmem_csci.Job.Queue.Refine.{IsQueue}
use open_shmem_csci.Job.Queue.Dequeue.{dequeue-cons}

if_put :
    {A : Type 0} (handler : ℕ) (a b : A)
    → handler ≡ 0
    → (if handler == handler_put then a else b) ≡ a
if_put handler a b e = rw e refl

-- the packet of a put, as it is sent
abbrev pub put_message : (my_pe dest number : ℕ) → List ℕ → Packet
put_message my_pe dest number src = record {
  handler = 0;
  origin = my_pe;
  request_index = number;
  size = length src;
  heap_offset = dest;
  payload = src;
}

module _ (s : Comm) (fresh raw dest source bytes pe n : ℕ) (count : ℕ → ℕ) {m : LocalityMap}
    (e_map : comm_node_map s.node pe ≡ ok m) (e_type : m.type ≡ remote) (small : m.index < n)
    (counts : Counts n count s.remote.request_indices) (empty : IsQueue s.remote.queue [])
    (ne : fresh ≢ null) (unused : s.remote.queue.nodes fresh ≡ none) where
  -- the put and the thread's turn send one message
  pub put-send_turn : Returns (comm_put fresh raw dest source bytes pe s >>= send_turn 2) (λ s'.
      s'.remote.sent
      ≡ s.remote.sent
        ++ (
          m.index,
          packed
              (put_message s.remote.my_pe dest (suc (count m.index)) (bytes_at s.ram source bytes))
              (bytes_at s.ram source bytes),
        )
          ∷ [])
  unfolding send_turn put_packet
  put-send_turn =
      let (q, e, is) =
        comm_put-queue s fresh raw dest source bytes pe e_map e_type empty ne unused in
      let s' : Comm = record s { remote = record s.remote { queue = q } } in
      let (r, e', (is', sent)) =
        comm_thread_send-messages s.node (λ p. m.index) count n _ s'.remote is counts
          ((m, e_map, (refl, small)), tt) in
      (record s' { remote = r }, bind-ok _ e (bind-ok _ e' refl), sent)

module _ {W : Type 0} (receive : W → (socket size : ℕ) → Option (List ℕ) × W)
    (pending : W → ℕ → List ℕ) (stream : IsStream receive pending) (t : Comm)
    (data_buf fresh raw fresh' i : ℕ) (w : W) (p : Packet) {m : LocalityMap} {r : List ℕ}
    (e_map : comm_node_map t.node t.remote.my_pe ≡ ok m) (e_type : m.type ≡ local)
    (e_mem : get_elem? t.memory m.index ≡ some (some r)) (fits : p.heap_offset + p.size ≤ length r)
    (empty : IsQueue t.worker.queue []) (ne : fresh ≢ null)
    (unused : t.worker.queue.nodes fresh ≡ none) where
  -- a put that arrives is in the heap after the worker's turn
  pub receive-worker_turn :
      IsPacket p
      → length p.payload ≡ p.size
      → p.handler ≡ 0
      → pending w i ≡ packed p p.payload
      → Returns
          (receive_turn receive data_buf fresh i w t >>= λ d. worker_turn fresh' raw d.1)
          (λ t'.
            comm_local_get t'.node t'.memory t.remote.my_pe p.heap_offset p.size
            ≡ ok (some p.payload))
  unfolding receive_turn worker_turn
  receive-worker_turn is full put at =
      let (d, e, (left, same, got, q, unused')) =
        receive_packet-message receive pending stream t.worker t.remote.my_pe data_buf fresh i w
          t.ram p [] is full (at ∙ sym (append-nil (packed p p.payload))) empty ne unused in
      let (d', e', (first, q', kept)) = dequeue-cons q in
      let c : Comm = record t {
        ram = d.1;
        worker = record d.2 {
          queue = d'.1;
          calls = d.2.calls ++ work_thread_execute (job_of t.remote.my_pe data_buf p);
        };
      } in
      let (memory', e_put, e_get) =
        comm_put-memory c fresh' raw p.heap_offset data_buf p.size t.remote.my_pe e_map e_type e_mem
          fits in
      (
        record c { memory = memory' },
        bind-ok _ (bind-ok _ e refl) (bind-ok _ e' (rw (first) (if_put p.handler _ _ put ∙ e_put))),
        e_get ∙ ap (λ bs. ok (some bs)) got,
      )

-- A put of `bytes` bytes to PE `pe` of another node, with nothing queued or sent before and numbers that
-- fit into the packet's fields. The sender's communication thread sends what is queued, the receiver's
-- receives from the socket on which just the bytes sent arrive, and the receiver's worker, with no job
-- before, takes its turn. Then the bytes that the sender's buffer held are at the offset `dest` of the
-- receiver's heap, when that is mapped and has room for them, and the addresses for the new queue nodes
-- are not NULL and not used.
pub remote_put-delivered :
    {W : Type 0} (receive : W → (socket size : ℕ) → Option (List ℕ) × W) (pending : W → ℕ → List ℕ)
    (arrive : List ℕ → W) (s t : Comm)
    (fresh raw dest source bytes pe n data_buf fresh₁ raw' fresh₂ i : ℕ) (count : ℕ → ℕ)
    {m m' : LocalityMap} {r : List ℕ}
    → IsStream receive pending
    → ((bs : List ℕ) → pending (arrive bs) i ≡ bs)
    → comm_node_map s.node pe ≡ ok m
    → m.type ≡ remote
    → m.index < n
    → Counts n count s.remote.request_indices
    → IsQueue s.remote.queue []
    → s.remote.sent ≡ []
    → fresh ≢ null
    → s.remote.queue.nodes fresh ≡ none
    → s.remote.my_pe < 2 ^ 32
    → suc (count m.index) < 2 ^ 64
    → dest < 2 ^ 64
    → bytes < 2 ^ 64
    → t.remote.my_pe ≡ pe
    → comm_node_map t.node pe ≡ ok m'
    → m'.type ≡ local
    → get_elem? t.memory m'.index ≡ some (some r)
    → dest + bytes ≤ length r
    → IsQueue t.worker.queue []
    → fresh₁ ≢ null
    → t.worker.queue.nodes fresh₁ ≡ none
    → Returns
        (comm_put fresh raw dest source bytes pe s >>= send_turn 2 >>= λ s'.
          receive_turn receive data_buf fresh₁ i (arrive (bytes_sent m.index s'.remote.sent)) t
          >>= λ d. worker_turn fresh₂ raw' d.1)
        (λ t'.
          comm_local_get t'.node t'.memory pe dest bytes ≡ ok (some (bytes_at s.ram source bytes)))
unfolding bytes_sent
remote_put-delivered receive pending arrive s t fresh raw dest source bytes pe n data_buf fresh₁
      raw' fresh₂ i count {m} {m'} {r} stream arrives e_map e_type small counts empty unsent ne
      unused pe_small number_small dest_small bytes_small mine e_map' e_type' e_mem fits empty' ne'
      unused' =
    let src = bytes_at s.ram source bytes in
    let len : length src ≡ bytes = length-bytes_at s.ram source bytes in
    let p = put_message s.remote.my_pe dest (suc (count m.index)) src in
    let (s', e, sent) =
      put-send_turn s fresh raw dest source bytes pe n count e_map e_type small counts empty ne
        unused in
    let there : bytes_sent m.index s'.remote.sent ≡ packed p src =
      ap (bytes_sent m.index) (sent ∙ ap (λ l. l ++ (m.index, packed p src) ∷ []) unsent)
      ∙ rw (==_refl m.index) (append-nil (packed p src)) in
    let is : IsPacket p = record {
      handler_small = omega arith;
      origin_small = pe_small;
      request_index_small = number_small;
      size_small = omega (arith, len);
      heap_offset_small = dest_small;
    } in
    let (t', e', got) =
      receive-worker_turn receive pending stream t data_buf fresh₁ raw' fresh₂ i
        (arrive (bytes_sent m.index s'.remote.sent)) p (ap (comm_node_map t.node) mine ∙ e_map')
        e_type' e_mem (omega (arith, len)) empty' ne' unused' is refl refl (arrives _ ∙ there) in
    (
      t',
      bind-ok _ e e',
      subst (λ q. comm_local_get t'.node t'.memory q dest bytes ≡ ok (some src)) mine
          (subst (λ k. comm_local_get t'.node t'.memory t.remote.my_pe dest k ≡ ok (some src)) len
            got),
    )
