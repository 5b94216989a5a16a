-- ===== src/Comm/Delivery/Thread.antt =====
-- A whole round of the communication thread.
use open_shmem_csci.Base.{ℕ, suc, ◌<◌, ◌≡◌, ◌≢◌, refl, Option, none, List, [], ◌++◌, length, All}
use open_shmem_csci.Base.Run.{bind-ok, Returns}
use open_shmem_csci.Memory.Store.{null}
use open_shmem_csci.Comm.Api.{Comm}
use open_shmem_csci.Comm.Packet.{Packet}
use open_shmem_csci.Comm.Remote.Send.{Counts, HasSocket, messages, comm_thread_send-messages}
use open_shmem_csci.Comm.Stream.{IsStream}
use open_shmem_csci.Comm.Stream.Round.{Arrived, arrivals, comm_thread_receive-arrivals}
use open_shmem_csci.Comm.Delivery.{comm_thread_round}
use open_shmem_csci.Job.Queue.Refine.{Items, IsQueue, jobs}
use open_shmem_csci.Job.Work.{WorkJob}

module _ {W : Type 0} (receive : W → (socket size : ℕ) → Option (List ℕ) × W)
    (pending : W → ℕ → List ℕ) (stream : IsStream receive pending) (data_buf fresh : ℕ → ℕ)
    (inbox : ℕ → Option Packet) (rest : ℕ → List ℕ) (apart : (j l : ℕ) → j ≢ l → fresh j ≢ fresh l)
    (some_address : (j : ℕ) → fresh j ≢ null) where
  -- A round of the communication thread, when each of the `n` sockets has nothing to read or a whole
  -- message first, each queued packet is for a PE with a socket, and the new addresses are different,
  -- not NULL and not used: the worker's queue gets one job for each message that arrived, in the order of
  -- the sockets, what stood behind these messages is left; the queue of packets is empty, and one
  -- message was sent for each of them, in the order in which they were queued.
  pub comm_thread_round-serves :
      (n : ℕ) (w : W) (c : Comm) (xs : Items WorkJob) (ys : Items (ℕ × Packet))
      (socket count : ℕ → ℕ) (sockets : ℕ)
      → ((j : ℕ) → j < n → Arrived (inbox j) (rest j) (pending w j))
      → IsQueue c.worker.queue xs
      → ((j : ℕ) → c.worker.queue.nodes (fresh j) ≡ none)
      → IsQueue c.remote.queue ys
      → Counts sockets count c.remote.request_indices
      → All (HasSocket c.node socket sockets) (jobs ys)
      → Returns (comm_thread_round receive n data_buf fresh (suc (length ys)) w c) (λ r.
        ((j : ℕ) → j < n → pending r.0 j ≡ rest j)
        × IsQueue r.1.worker.queue (xs ++ arrivals c.remote.my_pe data_buf fresh inbox n 0)
        × IsQueue r.1.remote.queue []
        × (r.1.remote.sent ≡ c.remote.sent ++ messages socket count (jobs ys)))
  unfolding comm_thread_round
  comm_thread_round-serves n w c xs ys socket count sockets arrived q unused packets counts known =
      let (r, e, (left, jobs_in)) =
        comm_thread_receive-arrivals receive pending stream c.remote.my_pe data_buf fresh inbox rest
          apart some_address n w c.ram c.worker xs arrived q unused in
      let (t, e', (empty, sent)) =
        comm_thread_send-messages c.node socket count sockets ys c.remote packets counts known in
      (
        (r.0, record c { ram = r.1; worker = r.2; remote = t }),
        bind-ok _ e (bind-ok _ (bind-ok _ e' refl) refl),
        (left, jobs_in, empty, sent),
      )
