-- ===== src/Job/Work.antt =====
-- job/work.c: other threads put jobs into the worker's queue, and the worker thread executes them.
-- What a job does is the list of the calls of `comm_put` that it makes.
pub mod Order
pub mod Finish
use open_shmem_csci.Base.{
  ℕ, Bool, true, false, not, Option, none, some, List, [], ◌∷◌, ◌++◌, ◌==◌, if◌then◌else◌,
}
use open_shmem_csci.Base.Run.{Run, ok, ◌>>=◌}
use open_shmem_csci.Job.Queue.{QueueNode, Queue, new_queue, enqueue, dequeue}

abbrev pub handler_put : ℕ
handler_put = 0

abbrev pub handler_get : ℕ
handler_get = 1

pub record WorkJob : Type 0 where
  pub handler : ℕ
  pub dest_pe : ℕ
  pub origin_pe : ℕ
  pub dest : ℕ
  pub src : ℕ
  pub size : ℕ

-- a call `comm_put(dest, src, size, dest_pe)`
pub record PutCall : Type 0 where
  pub dest : ℕ
  pub src : ℕ
  pub size : ℕ
  pub dest_pe : ℕ

-- `tested` says that the thread found the flag unset and has not yet taken a job; `calls` is what it
-- has done so far.
pub record Worker : Type 0 where
  pub queue : Queue WorkJob
  pub finished : Bool
  pub tested : Bool
  pub calls : List PutCall

unfoldable pub work_start : (ℕ → Option (QueueNode WorkJob)) → Worker
unfolding new_queue
work_start nodes = record { queue = new_queue nodes; finished = false; tested = false; calls = [] }

unfoldable pub work_finalize : Worker → Worker
work_finalize w = record w { finished = true }

-- the body of `work_put_remote`: the job's descriptor, and its way into the queue; the result is 0
unfoldable pub work_put_remote :
    (fresh handler pe origin_pe dest src size : ℕ) → Worker → Run (ℕ × Worker)
work_put_remote fresh handler pe origin_pe dest src size w = do
  let job : WorkJob = record {
    handler = handler;
    dest_pe = pe;
    origin_pe = origin_pe;
    dest = dest;
    src = src;
    size = size;
  }
  q ← enqueue fresh job w.queue
  ok (0, record w { queue = q })

-- `work_put`, where `my_pe` is what `comm_remote_pe` returns
unfoldable pub work_put : (my_pe fresh handler pe dest src size : ℕ) → Worker → Run (ℕ × Worker)
work_put my_pe fresh handler pe dest src size w = do
  let job : WorkJob = record {
    handler = handler;
    dest_pe = pe;
    origin_pe = my_pe;
    dest = dest;
    src = src;
    size = size;
  }
  q ← enqueue fresh job w.queue
  ok (0, record w { queue = q })

-- the call of `comm_get` for `HANDLER_GET` is commented out
unfoldable pub work_thread_execute : WorkJob → List PutCall
work_thread_execute job =
    if job.handler == handler_put
    then record { dest = job.dest; src = job.src; size = job.size; dest_pe = job.dest_pe } ∷ []
    else if job.handler == handler_get
    then []
    else []

-- the condition of the loop of `__work_thread_run`
unfoldable pub work_thread_test : Worker → Worker
work_thread_test w = record w { tested = not w.finished }

-- One round of the body of that loop, whose condition held when it was tested; with no job it yields.
unfoldable pub work_thread_round : Worker → Run Worker
unfolding work_thread_execute
work_thread_round w = dequeue w.queue >>= λ r. elim r.0 [
  | none ↦ ok (record w { queue = r.1; tested = false })
  | some job ↦
      ok (record w { queue = r.1; tested = false; calls = w.calls ++ work_thread_execute job })
]

-- `n` rounds of the loop, or fewer if it was told to finish, with no other thread in between
unfoldable pub work_thread_run : ℕ → Worker → Run Worker
unfolding work_thread_round
work_thread_run Prim.Native.Nat.zero w = ok w
work_thread_run (Prim.Native.Nat.suc n) w = elim w.finished [
  | true ↦ ok w
  | false ↦ work_thread_round w >>= work_thread_run n
]
