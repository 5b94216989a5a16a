-- ===== src/Comm/Remote/Send.antt =====
-- The send loop of the communication thread against the messages that the queue stands for.
use mathlib.Core.List.{append_assoc, append-nil}
use mathlib.Core.Path.{subst}
use open_shmem_csci.Base.{
  ℕ, suc, ◌<◌, ◌≡◌, ◌∙◌, refl, sym, ap, some, List, [], ◌∷◌, ◌++◌, ◌==◌, if◌then◌else◌, arith,
  length, get_elem?, set, All, length-set, get_elem?-set_self, get_elem?-set_ne, lt→ltb, Bool-cases,
  ==→eq, ==→ne, inl, inr,
}
use open_shmem_csci.Base.Run.{bind-ok, Returns}
use open_shmem_csci.Comm.Node.{Node, comm_node_map}
use open_shmem_csci.Comm.Packet.{Packet, packed}
use open_shmem_csci.Comm.Remote.{Remote, send_packet, comm_thread_send}
use open_shmem_csci.Job.Queue.Dequeue.{dequeue_free-cons, head_ne}
use open_shmem_csci.Job.Queue.Refine.{Items, IsQueue, jobs}

-- one more for the socket `i`
abbrev pub bump : (ℕ → ℕ) → ℕ → ℕ → ℕ
bump count i j = if i == j then suc (count j) else count j

-- What is sent for the queued packets: each one goes to the socket of its PE, with the next number
-- of that socket for its request index.
abbrev pub messages : (socket count : ℕ → ℕ) → List (ℕ × Packet) → List (ℕ × List ℕ)
messages socket count [] = []
messages socket count ((pe, p) ∷ ps) =
    (socket pe, packed (record p { request_index = suc (count (socket pe)) }) p.payload)
    ∷ messages socket (bump count (socket pe)) ps

-- the request indices hold the counts of `n` sockets
abbrev pub Counts : ℕ → (ℕ → ℕ) → List ℕ → Type 0
Counts n count indices =
    (length indices ≡ n) × ((i : ℕ) → i < n → get_elem? indices i ≡ some (count i))

-- the locality map has a remote PE's entry, which is the number of its socket
abbrev pub HasSocket : Node → (socket : ℕ → ℕ) → ℕ → ℕ × Packet → Type 0
HasSocket node socket n x =
    Returns (comm_node_map node x.0) (λ m. (m.index ≡ socket x.0) × (m.index < n))

Counts-set :
    (n : ℕ) (count : ℕ → ℕ) (indices : List ℕ) (i : ℕ)
    → i < n
    → Counts n count indices
    → Counts n (bump count i) (set indices i (suc (count i)))
Counts-set n count indices i h (len, at) = (
  length-set indices i _ ∙ len,
  λ j k. elim (Bool-cases (i == j)) [
    | inl e ↦ rw (e) (
        rw (ap (get_elem? (set indices i (suc (count i)))) (sym (==→eq i j e))) (
          rw (ap count (==→eq i j e)) (get_elem?-set_self indices i (suc (count j)) (omega arith))))
    | inr e ↦ rw (e) (get_elem?-set_ne indices (suc (count i)) (λ q. ==→ne i j e q) ∙ at j k)
  ],
)

send_packet-sent :
    (node : Node) (socket count : ℕ → ℕ) (n pe : ℕ) (p : Packet) (r : Remote)
    → Counts n count r.request_indices
    → HasSocket node socket n (pe, p)
    → Returns (send_packet node pe p r) (λ r'.
      (r'.queue ≡ r.queue)
      × (r'.sent
          ≡ r.sent
            ++ (socket pe, packed (record p { request_index = suc (count (socket pe)) }) p.payload)
              ∷ [])
      × Counts n (bump count (socket pe)) r'.request_indices)
unfolding send_packet
send_packet-sent node socket count n pe p r (len, at) (m, e, (e_index, small)) =
    let got : get_elem? r.request_indices m.index ≡ some (count (socket pe)) =
      subst (λ x. get_elem? r.request_indices m.index ≡ some (count x)) e_index
        (at m.index small) in
    (
      record r {
        request_indices = set r.request_indices m.index (suc (count (socket pe)));
        sent =
            r.sent
            ++ (m.index, packed (record p { request_index = suc (count (socket pe)) }) p.payload)
              ∷ [];
      },
      rw (e) (rw (got) (rw (lt→ltb m.index (length r.request_indices) (omega arith)) refl)),
      (
        refl,
        rw (e_index) refl,
        rw (e_index) (
            Counts-set n count r.request_indices (socket pe) (subst (λ x. x < n) e_index small)
              (len, at)),
      ),
    )

-- On a linked queue of packets for PEs whose entries have the number of a socket, with the request
-- indices holding a count for each socket, the send loop, with one round more than there are
-- packets, empties the queue and sends one message for each packet in the order in which they were
-- queued: to the socket of its PE, with that socket's next request index.
pub comm_thread_send-messages :
    (node : Node) (socket count : ℕ → ℕ) (n : ℕ) (xs : Items (ℕ × Packet)) (r : Remote)
    → IsQueue r.queue xs
    → Counts n count r.request_indices
    → All (HasSocket node socket n) (jobs xs)
    → Returns
        (comm_thread_send (suc (length xs)) node r)
        (λ r'. IsQueue r'.queue [] × (r'.sent ≡ r.sent ++ messages socket count (jobs xs)))
unfolding comm_thread_send
comm_thread_send-messages node socket count n [] r q c all =
    (r, rw (q.at_head) refl, (q, sym (append-nil r.sent)))
comm_thread_send-messages node socket count n ((a, (pe, p)) ∷ xs) r q c all =
    let (d, e, (e_packet, q', gone)) = dequeue_free-cons q in
    let (r₁, e₁, (e_queue, e_sent, c₁)) =
      send_packet-sent node socket count n pe p (record r { queue = d.1 }) c all.0 in
    let (r₂, e₂, (q₂, e_sent₂)) =
      comm_thread_send-messages node socket (bump count (socket pe)) n xs r₁ (rw (e_queue) q') c₁
        all.1 in
    (
      r₂,
      rw (head_ne q) (bind-ok _ e (rw (e_packet) (bind-ok _ e₁ e₂))),
      (q₂, e_sent₂ ∙ rw (e_sent) (append_assoc r.sent _ _)),
    )
