-- ===== src/Comm/Stream/Round.antt =====
-- A turn of the communication thread over all its sockets.
use mathlib.Core.Path.{subst}
use mathlib.Core.List.{append_assoc, append-nil}
use open_shmem_csci.Base.{
  ℕ, zero, suc, ◌+◌, ◌<◌, ◌≤◌, ◌≡◌, ◌≢◌, ◌∙◌, refl, sym, ap, Option, none, some, List, [], ◌∷◌,
  ◌++◌, arith, length, Option-cases, inl, inr, ◌⊎◌,
}
use open_shmem_csci.Base.Run.{bind-ok, Returns}
use open_shmem_csci.Memory.Store.{null}
use open_shmem_csci.Comm.Packet.{Packet, packed, packet_size}
use open_shmem_csci.Comm.Packet.RoundTrip.{IsPacket}
use open_shmem_csci.Comm.Remote.{receive_packet, receive_loop, comm_thread_receive}
use open_shmem_csci.Comm.Remote.Deliver.{job_of}
use open_shmem_csci.Comm.Stream.{IsStream}
use open_shmem_csci.Comm.Stream.Message.{receive_packet-message}
use open_shmem_csci.Job.Queue.Refine.{Items, IsQueue}
use open_shmem_csci.Job.Work.{WorkJob, Worker}

-- a socket has nothing to read; or it has a whole message first, and then `rest`
abbrev pub Arrived : Option Packet → (rest pending : List ℕ) → Type 0
Arrived none rest bs = (bs ≡ []) × (rest ≡ [])
Arrived (some p) rest bs =
    IsPacket p × (length p.payload ≡ p.size) × (bs ≡ packed p p.payload ++ rest)

-- the jobs of `k` sockets from `i` on, in the order of the sockets
abbrev pub arrivals :
    (my_pe : ℕ) (data_buf fresh : ℕ → ℕ) (inbox : ℕ → Option Packet) (k i : ℕ) → Items WorkJob
arrivals my_pe data_buf fresh inbox zero i = []
arrivals my_pe data_buf fresh inbox (suc k) i = elim (inbox i) [
  | none ↦ arrivals my_pe data_buf fresh inbox k (i + 1)
  | some p ↦ (fresh i, job_of my_pe (data_buf i) p) ∷ arrivals my_pe data_buf fresh inbox k (i + 1)
]

le_cases : (i j : ℕ) → i ≤ j → (i ≡ j) ⊎ (i + 1 ≤ j)
le_cases i j h = omega arith

module _ {W : Type 0} (receive : W → (socket size : ℕ) → Option (List ℕ) × W)
    (pending : W → ℕ → List ℕ) (stream : IsStream receive pending) (my_pe : ℕ)
    (data_buf fresh : ℕ → ℕ) where
  -- one socket: `extra` is the job that it adds, if any
  socket_turn :
      (o : Option Packet) (rest : List ℕ) (i : ℕ) (w : W) (ram : ℕ → ℕ) (worker : Worker)
      (xs : Items WorkJob)
      → Arrived o rest (pending w i)
      → IsQueue worker.queue xs
      → fresh i ≢ null
      → worker.queue.nodes (fresh i) ≡ none
      → Returns (receive_packet receive my_pe (data_buf i) (fresh i) i w ram worker) (λ r.
        (pending r.0 i ≡ rest)
        × ((j : ℕ) → j ≢ i → pending r.0 j ≡ pending w j)
        × IsQueue r.2.queue
            (xs ++ (elim o [ none ↦ [] | some p ↦ (fresh i, job_of my_pe (data_buf i) p) ∷ [] ]))
        × ((a : ℕ) → a ≢ fresh i → worker.queue.nodes a ≡ none → r.2.queue.nodes a ≡ none))
  unfolding receive_packet
  socket_turn none rest i w ram worker xs (nothing, e_rest) q ne unused =
      let (w', e, same) = stream.idle w i packet_size nothing (omega arith) in
      (
        (w', ram, worker),
        rw (ap (λ x. x.0) e, receive_packet) (rw (ap (λ x. x.1) e) refl),
        (
          same i ∙ nothing ∙ sym e_rest,
          λ j d. same j,
          subst (IsQueue worker.queue) (sym (append-nil xs)) q,
          λ a d h. h,
        ),
      )
  socket_turn (some p) rest i w ram worker xs (is, full, at) q ne unused =
      let (r, e, (left, same, got, q', kept)) =
        receive_packet-message receive pending stream worker my_pe (data_buf i) (fresh i) i w ram p
          rest is full at q ne unused in
      (r, e, (left, same, q', kept))

  module _ (inbox : ℕ → Option Packet) (rest : ℕ → List ℕ)
      (apart : (j l : ℕ) → j ≢ l → fresh j ≢ fresh l) (ne : (j : ℕ) → fresh j ≢ null) where
    arrivals-cons :
        (xs : Items WorkJob) (k i : ℕ)
        → (xs ++ (elim (inbox i) [
          | none ↦ []
          | some p ↦ (fresh i, job_of my_pe (data_buf i) p) ∷ []
        ]))
            ++ arrivals my_pe data_buf fresh inbox k (i + 1)
          ≡ xs ++ arrivals my_pe data_buf fresh inbox (suc k) i
    arrivals-cons xs k i = elim (Option-cases (inbox i)) [
      | inl e ↦
          rw (e, arrivals)
            (ap (λ t. t ++ arrivals my_pe data_buf fresh inbox k (i + 1)) (append-nil xs))
      | inr (p, e) ↦ rw (e, arrivals) (append_assoc xs _ _)
    ]

    loop_lem :
        (k i : ℕ) (w : W) (ram : ℕ → ℕ) (worker : Worker) (xs : Items WorkJob)
        → ((j : ℕ) → i ≤ j → j < i + k → Arrived (inbox j) (rest j) (pending w j))
        → IsQueue worker.queue xs
        → ((j : ℕ) → i ≤ j → j < i + k → worker.queue.nodes (fresh j) ≡ none)
        → Returns (receive_loop receive k my_pe data_buf fresh i w ram worker) (λ r.
          ((j : ℕ) → i ≤ j → j < i + k → pending r.0 j ≡ rest j)
          × ((j : ℕ) → j < i → pending r.0 j ≡ pending w j)
          × IsQueue r.2.queue (xs ++ arrivals my_pe data_buf fresh inbox k i))
    unfolding receive_loop
    loop_lem zero i w ram worker xs arrived q unused = (
      (w, ram, worker),
      refl,
      (
        λ j le lt. absurd (omega arith),
        λ j lt. refl,
        subst (IsQueue worker.queue) (sym (append-nil xs)) q,
      ),
    )
    loop_lem (suc k) i w ram worker xs arrived q unused =
        let (r, e, (left, same, q', kept)) =
          socket_turn (inbox i) (rest i) i w ram worker xs (arrived i (omega arith) (omega arith)) q
            (ne i) (unused i (omega arith) (omega arith)) in
        let (r', e', (left', same', q'')) =
          loop_lem k (i + 1) r.0 r.1 r.2 _
            (λ j le lt.
              subst (Arrived (inbox j) (rest j)) (sym (same j (omega arith)))
                (arrived j (omega arith) (omega arith)))
            q'
            (λ j le lt.
              kept (fresh j) (apart j i (omega arith)) (unused j (omega arith) (omega arith))) in
        (
          r',
          bind-ok _ e e',
          (
            λ j le lt. elim (le_cases i j le) [
              | inl here ↦ subst (λ l. pending r'.0 l ≡ rest l) here (same' i (omega arith) ∙ left)
              | inr later ↦ left' j later (omega arith)
            ],
            λ j lt. same' j (omega arith) ∙ same j (omega arith),
            subst (IsQueue r'.2.queue) (arrivals-cons xs k i) q'',
          ),
        )

    -- In one turn the communication thread takes at most one message from each socket, in the order
    -- of the sockets: where every one of the `n` sockets has nothing to read, or a whole message first,
    -- the turn ends with one job more in the worker's queue for each message, and what stood behind
    -- these messages is left on the sockets.
    pub comm_thread_receive-arrivals :
        (n : ℕ) (w : W) (ram : ℕ → ℕ) (worker : Worker) (xs : Items WorkJob)
        → ((j : ℕ) → j < n → Arrived (inbox j) (rest j) (pending w j))
        → IsQueue worker.queue xs
        → ((j : ℕ) → worker.queue.nodes (fresh j) ≡ none)
        → Returns (comm_thread_receive receive n my_pe data_buf fresh w ram worker) (λ r.
          ((j : ℕ) → j < n → pending r.0 j ≡ rest j)
          × IsQueue r.2.queue (xs ++ arrivals my_pe data_buf fresh inbox n 0))
    unfolding comm_thread_receive
    comm_thread_receive-arrivals n w ram worker xs arrived q unused =
        let (r, e, (left, same, q')) =
          loop_lem n 0 w ram worker xs (λ j le lt. arrived j (omega arith)) q
            (λ j le lt. unused j) in
        (r, e, (λ j lt. left j (omega arith) (omega arith), q'))
