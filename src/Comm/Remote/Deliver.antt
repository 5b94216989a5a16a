-- ===== src/Comm/Remote/Deliver.antt =====
-- What the communication thread sends, and what it makes of a packet that arrives.
use mathlib.Core.Path.{subst}
use open_shmem_csci.Base.{ℕ, ◌≡◌, ◌≢◌, refl, ap, Option, none, some, List, [], ◌∷◌, ◌++◌, length}
use open_shmem_csci.Base.Run.{ok, of_option, bind-ok, Returns}
use open_shmem_csci.Memory.Ram.{bytes_at, write_ram, bytes_at-write_ram}
use open_shmem_csci.Memory.Store.{null}
use open_shmem_csci.Comm.Packet.{Packet, packed, packet_size, read_header}
use open_shmem_csci.Comm.Packet.RoundTrip.{IsPacket, length-packed, read_header-packed}
use open_shmem_csci.Comm.Remote.{read_or, receive_body, receive_packet}
use open_shmem_csci.Job.Queue.Refine.{Items, IsQueue, enqueue-append, enqueue-unused}
use open_shmem_csci.Job.Work.{WorkJob, Worker, work_put_remote}

abbrev pub job_of : (my_pe data_buf : ℕ) → Packet → WorkJob
job_of my_pe data_buf p = record {
  handler = p.handler;
  dest_pe = my_pe;
  origin_pe = p.origin;
  dest = p.heap_offset;
  src = data_buf;
  size = p.size;
}

put_job :
    (worker : Worker) {xs : Items WorkJob} (my_pe data_buf fresh : ℕ) (p : Packet)
    → IsQueue worker.queue xs
    → fresh ≢ null
    → worker.queue.nodes fresh ≡ none
    → Returns
        (work_put_remote fresh p.handler my_pe p.origin p.heap_offset data_buf p.size worker)
        (λ d.
          IsQueue d.1.queue (xs ++ (fresh, job_of my_pe data_buf p) ∷ [])
          × ((a : ℕ) → a ≢ fresh → worker.queue.nodes a ≡ none → d.1.queue.nodes a ≡ none))
unfolding work_put_remote
put_job worker my_pe data_buf fresh p is ne unused =
    let (q, e, is') = enqueue-append fresh (job_of my_pe data_buf p) is ne unused in
    (
      (0, record worker { queue = q }),
      rw (e) refl,
      (is', λ a d. enqueue-unused worker.queue q fresh a (job_of my_pe data_buf p) e d),
    )

module _ {W : Type 0} (receive : W → (socket size : ℕ) → Option (List ℕ) × W) (worker : Worker)
    {xs : Items WorkJob} (my_pe data_buf fresh i : ℕ) where
  receive_body-job :
      (w w₂ : W) (ram : ℕ → ℕ) (p : Packet) (body : List ℕ)
      → receive w i p.size ≡ (some body, w₂)
      → length body ≡ p.size
      → IsQueue worker.queue xs
      → fresh ≢ null
      → worker.queue.nodes fresh ≡ none
      → Returns (receive_body receive my_pe data_buf fresh i p w ram worker) (λ r.
        (r.0 ≡ w₂)
        × (bytes_at r.1 data_buf p.size ≡ body)
        × IsQueue r.2.queue (xs ++ (fresh, job_of my_pe data_buf p) ∷ [])
        × ((a : ℕ) → a ≢ fresh → worker.queue.nodes a ≡ none → r.2.queue.nodes a ≡ none))
  unfolding receive_body read_or
  receive_body-job w w₂ ram p body e₂ full q ne unused =
      let (d, e, (q', kept)) = put_job worker my_pe data_buf fresh p q ne unused in
      (
        (w₂, write_ram ram data_buf body, d.1),
        rw (e₂) (rw (e) refl),
        (
          refl,
          subst (λ n. bytes_at (write_ram ram data_buf body) data_buf n ≡ body) full
              (bytes_at-write_ram body ram data_buf),
          q',
          kept,
        ),
      )

  -- When the header of a packet whose fields fit their types arrives on a socket, and then as many
  -- bytes as it says, the thread ends in a state where the worker's queue, which was
  -- linked and gets a node at a new address, has one more job at its end: the packet's handler,
  -- sender, offset and size, for this PE, and the address of the buffer, which holds these bytes.
  pub receive_packet-job :
      (w w₁ w₂ : W) (ram : ℕ → ℕ) (p : Packet) (body : List ℕ)
      → IsPacket p
      → receive w i packet_size ≡ (some (packed p []), w₁)
      → receive w₁ i p.size ≡ (some body, w₂)
      → length body ≡ p.size
      → IsQueue worker.queue xs
      → fresh ≢ null
      → worker.queue.nodes fresh ≡ none
      → Returns (receive_packet receive my_pe data_buf fresh i w ram worker) (λ r.
        (r.0 ≡ w₂)
        × (bytes_at r.1 data_buf p.size ≡ body)
        × IsQueue r.2.queue (xs ++ (fresh, job_of my_pe data_buf p) ∷ [])
        × ((a : ℕ) → a ≢ fresh → worker.queue.nodes a ≡ none → r.2.queue.nodes a ≡ none))
  unfolding receive_packet
  receive_packet-job w w₁ w₂ ram p body is e₁ e₂ full q ne unused =
      let (d, e, rest) =
        receive_body-job w₁ w₂ ram (record p { payload = [] }) body e₂ full q ne unused in
      let header : of_option (read_header (packed p [])) ≡ ok (record p { payload = [] }, []) =
        ap of_option (read_header-packed p [] is) in
      (
        d,
        rw (ap (λ x. x.0) e₁, receive_packet)
            (rw (length-packed p []) (bind-ok _ header (rw (ap (λ x. x.1) e₁) e))),
        rest,
      )
