-- ===== src/Job/Queue.antt =====
-- The linked queue of job/work.c. The one of comm/comm_remote.c has the same functions over packets,
-- but frees a node that it takes out. `fresh` is the address that `malloc` returns for a node. Each
-- function holds the queue's lock from beginning to end, so it is one step of its thread.
pub mod Refine
pub mod Dequeue
use open_shmem_csci.Base.{ℕ, Option, none, some, ◌==◌, if◌then◌else◌}
use open_shmem_csci.Base.Run.{Run, ok, ◌>>=◌, of_option}
use open_shmem_csci.Memory.Store.{null}

pub record QueueNode {ℓ} (A : Type ℓ) : Type ℓ where
  pub job : A
  pub next : ℕ

pub record Queue {ℓ} (A : Type ℓ) : Type ℓ where
  pub head : ℕ
  pub tail : ℕ
  pub nodes : ℕ → Option (QueueNode A)

module _ {ℓ} {A : Type ℓ} where
  abbrev pub node : A → ℕ → QueueNode A
  node a p = record { job = a; next = p }

  unfoldable pub put_node :
      (ℕ → Option (QueueNode A)) → ℕ → Option (QueueNode A) → ℕ → Option (QueueNode A)
  put_node nodes p n q = if q == p then n else nodes q

  unfoldable pub get_node : (ℕ → Option (QueueNode A)) → ℕ → Run (QueueNode A)
  get_node nodes p = if p == null then Run.fault else of_option (nodes p)

  unfoldable pub new_queue : (ℕ → Option (QueueNode A)) → Queue A
  new_queue nodes = record { head = null; tail = null; nodes = nodes }

  -- the new node is written whole: its `job`, and `next = NULL`
  unfoldable pub enqueue : (fresh : ℕ) → A → Queue A → Run (Queue A)
  unfolding put_node get_node
  enqueue fresh job q =
      if q.head == null
      then ok (record {
        head = fresh;
        tail = fresh;
        nodes = put_node q.nodes fresh (some (node job null));
      })
      else get_node q.nodes q.tail >>= λ t. ok (record q {
        tail = fresh;
        nodes =
            put_node (put_node q.nodes q.tail (some (record t { next = fresh }))) fresh
              (some (node job null));
      })

  -- the node that is taken out stays allocated
  unfoldable pub dequeue : Queue A → Run (Option A × Queue A)
  unfolding get_node
  dequeue q =
      if q.head == null
      then ok (none, q)
      else get_node q.nodes q.head >>= λ n. ok (some n.job, record q { head = n.next })

  -- the node that is taken out is freed
  unfoldable pub dequeue_free : Queue A → Run (Option A × Queue A)
  unfolding get_node put_node
  dequeue_free q =
      if q.head == null
      then ok (none, q)
      else get_node q.nodes q.head >>= λ n.
          ok (some n.job, record q { head = n.next; nodes = put_node q.nodes q.head none })
