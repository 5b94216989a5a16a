-- ===== src/Comm/Delivery.antt =====
-- Where the layers of comm/*.c and job/work.c meet in one PE: its communication thread sends and
-- receives, and its worker carries out the puts that arrive.
pub mod RemotePut
pub mod Thread
use open_shmem_csci.Base.{ℕ, Option, none, some, List, [], ◌∷◌, ◌++◌, ◌==◌, if◌then◌else◌}
use open_shmem_csci.Base.Run.{Run, ok, ◌>>=◌}
use open_shmem_csci.Comm.Api.{Comm, comm_put}
use open_shmem_csci.Comm.Remote.{comm_thread_send, comm_thread_receive, receive_packet}
use open_shmem_csci.Job.Queue.{dequeue}
use open_shmem_csci.Job.Work.{handler_put, work_thread_execute}

-- the thread's turn to send
unfoldable pub send_turn : ℕ → Comm → Run Comm
send_turn fuel c = comm_thread_send fuel c.node c.remote >>= λ r. ok (record c { remote = r })

-- the thread's turn to receive from the socket `i`
unfoldable pub receive_turn :
    {W : Type 0}
    → (W → (socket size : ℕ) → Option (List ℕ) × W)
    → (data_buf fresh i : ℕ) → W
    → Comm
    → Run (W × Comm)
receive_turn receive data_buf fresh i w c =
    receive_packet receive c.remote.my_pe data_buf fresh i w c.ram c.worker >>= λ r.
    ok (r.0, record c { ram = r.1; worker = r.2 })

-- a round of `__comm_thread`
unfoldable pub comm_thread_round :
    {W : Type 0}
    → (W → (socket size : ℕ) → Option (List ℕ) × W)
    → (n_remote_pes : ℕ) (data_buf fresh : ℕ → ℕ) (fuel : ℕ) → W
    → Comm
    → Run (W × Comm)
unfolding send_turn
comm_thread_round receive n_remote_pes data_buf fresh fuel w c =
    comm_thread_receive receive n_remote_pes c.remote.my_pe data_buf fresh w c.ram c.worker >>= λ r.
    send_turn fuel (record c { ram = r.1; worker = r.2 }) >>= λ c'. ok (r.0, c')

-- A round of the worker, where a job that puts calls `comm_put`. `fresh` and `raw` are for a packet,
-- should that be to a PE of another node.
unfoldable pub worker_turn : (fresh raw : ℕ) → Comm → Run Comm
worker_turn fresh raw c = dequeue c.worker.queue >>= λ d. elim d.0 [
  | none ↦ ok (record c { worker = record c.worker { queue = d.1 } })
  | some job ↦
      let worker = record c.worker {
        queue = d.1;
        calls = c.worker.calls ++ work_thread_execute job;
      } in
      let c' = record c { worker = worker } in
      if job.handler == handler_put
      then comm_put fresh raw job.dest job.src job.size job.dest_pe c'
      else ok c'
]

-- the bytes that were sent on a socket, in order
unfoldable pub bytes_sent : (socket : ℕ) → List (ℕ × List ℕ) → List ℕ
bytes_sent socket [] = []
bytes_sent socket ((s, bs) ∷ sent) =
    if s == socket then bs ++ bytes_sent socket sent else bytes_sent socket sent
