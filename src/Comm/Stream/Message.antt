-- ===== src/Comm/Stream/Message.antt =====
-- A packet sent over a stream is received whole: its header and its data are found where one message
-- ends and the next begins.
use mathlib.Core.Path.{subst}
use mathlib.Core.List.{append_assoc}
use open_shmem_csci.Base.{
  ℕ, ◌≡◌, ◌≢◌, ◌∙◌, sym, ap, Option, none, some, List, [], ◌∷◌, ◌++◌, length,
}
use open_shmem_csci.Base.Run.{Returns}
use open_shmem_csci.Memory.Ram.{bytes_at}
use open_shmem_csci.Memory.Store.{null}
use open_shmem_csci.Comm.Packet.{Packet, packed, packet_size}
use open_shmem_csci.Comm.Packet.RoundTrip.{IsPacket, length-packed}
use open_shmem_csci.Comm.Remote.{receive_packet}
use open_shmem_csci.Comm.Remote.Deliver.{job_of, receive_packet-job}
use open_shmem_csci.Comm.Stream.{IsStream}
use open_shmem_csci.Job.Queue.Refine.{Items, IsQueue}
use open_shmem_csci.Job.Work.{WorkJob, Worker}

-- a header with `payload` behind it
packed-split : (p : Packet) (rest : List ℕ) → packed p rest ≡ packed p [] ++ rest
unfolding packed
packed-split p rest = simp append_assoc

module _ {W : Type 0} (receive : W → (socket size : ℕ) → Option (List ℕ) × W)
    (pending : W → ℕ → List ℕ) (stream : IsStream receive pending) where
  -- When a message, and then `rest`, is what a socket has to read, `receive_packet` takes the message
  -- and leaves `rest`.
  pub receive_packet-message :
      (worker : Worker) {xs : Items WorkJob} (my_pe data_buf fresh i : ℕ) (w : W) (ram : ℕ → ℕ)
      (p : Packet) (rest : List ℕ)
      → IsPacket p
      → length p.payload ≡ p.size
      → pending w i ≡ packed p p.payload ++ rest
      → IsQueue worker.queue xs
      → fresh ≢ null
      → worker.queue.nodes fresh ≡ none
      → Returns (receive_packet receive my_pe data_buf fresh i w ram worker) (λ r.
        (pending r.0 i ≡ rest)
        × ((j : ℕ) → j ≢ i → pending r.0 j ≡ pending w j)
        × (bytes_at r.1 data_buf p.size ≡ p.payload)
        × IsQueue r.2.queue (xs ++ (fresh, job_of my_pe data_buf p) ∷ [])
        × ((a : ℕ) → a ≢ fresh → worker.queue.nodes a ≡ none → r.2.queue.nodes a ≡ none))
  receive_packet-message worker my_pe data_buf fresh i w ram p rest is full at q ne unused =
      let (w₁, e₁, at₁, same₁) = stream.reads w i (packed p []) (p.payload ++ rest) (
        at
        ∙ ap (λ t. t ++ rest) (packed-split p p.payload)
        ∙ append_assoc (packed p []) p.payload rest) in
      let (w₂, e₂, at₂, same₂) = stream.reads w₁ i p.payload rest at₁ in
      let head : receive w i packet_size ≡ (some (packed p []), w₁) =
        subst (λ n. receive w i n ≡ (some (packed p []), w₁)) (length-packed p []) e₁ in
      let body : receive w₁ i p.size ≡ (some p.payload, w₂) =
        subst (λ n. receive w₁ i n ≡ (some p.payload, w₂)) full e₂ in
      let (r, e, (e_w, got, q', kept)) =
        receive_packet-job receive worker my_pe data_buf fresh i w w₁ w₂ ram p p.payload is head
          body full q ne unused in
      (
        r,
        e,
        (
          subst (λ u. pending u i ≡ rest) (sym e_w) at₂,
          subst (λ u. (j : ℕ) → j ≢ i → pending u j ≡ pending w j) (sym e_w)
              (λ j d. same₂ j d ∙ same₁ j d),
          got,
          q',
          kept,
        ),
      )
