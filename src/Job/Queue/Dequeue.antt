-- ===== src/Job/Queue/Dequeue.antt =====
-- The two ways of taking the first item out of the linked queue.
use open_shmem_csci.Base.{ℕ, ◌≡◌, ◌∙◌, refl, sym, ap, false, none, some, [], ◌∷◌, ◌==◌, ne→==}
use mathlib.Core.Path.{subst}
use open_shmem_csci.Base.Run.{ok, Returns}
use open_shmem_csci.Memory.Store.{null}
use open_shmem_csci.Job.Queue.{Queue, node, put_node, dequeue, dequeue_free}
use open_shmem_csci.Job.Queue.Refine.{
  Items, first, Avoids, EndsAt, IsQueue, Linked-put_node, put_node_self,
}

module _ {ℓ} {A : Type ℓ} where
  -- `dequeue` of an empty queue says so and changes nothing.
  pub dequeue-nil : {q : Queue A} → IsQueue q [] → dequeue q ≡ ok (none, q)
  unfolding dequeue
  dequeue-nil is = rw is.at_head

  EndsAt-tail : (t : ℕ) (x : ℕ × A) (xs : Items A) → EndsAt t (x ∷ xs) → EndsAt t xs
  EndsAt-tail t x [] e = tt
  EndsAt-tail t x (y ∷ xs) e = e

  module _ {q : Queue A} {p : ℕ} {a : A} {xs : Items A} (is : IsQueue q ((p, a) ∷ xs)) where
    pub head_ne : (q.head == null) ≡ false
    head_ne = ap (λ n. n == null) is.at_head ∙ ne→== p null is.linked.0

    got : q.nodes q.head ≡ some (node a (first xs))
    got = ap q.nodes is.at_head ∙ is.linked.1

    -- On a linked queue that is not empty, `dequeue` returns the first job and leaves the others
    -- in order, in the same nodes.
    pub dequeue-cons :
        Returns (dequeue q) (λ r. (r.0 ≡ some a) × IsQueue r.1 xs × (r.1.nodes ≡ q.nodes))
    unfolding dequeue
    dequeue-cons = (
      _,
      rw (head_ne, got),
      (
        refl,
        record {
          linked = is.linked.3;
          at_head = refl;
          at_tail = EndsAt-tail q.tail (p, a) xs is.at_tail;
        },
        refl,
      ),
    )

    -- On a linked queue that is not empty, `dequeue_free` returns the first job, leaves the others
    -- in order, and frees the node of that job.
    pub dequeue_free-cons :
        Returns (dequeue_free q) (λ r. (r.0 ≡ some a) × IsQueue r.1 xs × (r.1.nodes p ≡ none))
    unfolding dequeue_free
    dequeue_free-cons = (
      (some a, record { head = first xs; tail = q.tail; nodes = put_node q.nodes q.head none }),
      rw (head_ne, got),
      (
        refl,
        record {
          linked =
              Linked-put_node q.nodes q.head none xs
                (subst (λ n. Avoids n xs) (sym is.at_head) is.linked.2) is.linked.3;
          at_head = refl;
          at_tail = EndsAt-tail q.tail (p, a) xs is.at_tail;
        },
        ap (λ n. put_node q.nodes n none p) is.at_head ∙ put_node_self q.nodes p none,
      ),
    )
