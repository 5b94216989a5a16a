-- ===== src/Job/Work/Order.antt =====
-- Jobs are executed in the order in which they were put, each one once, whatever the interleaving of
-- the threads; and rounds of the worker empty the queue.
use open_shmem_csci.Base.{
  ℕ, ◌≡◌, ◌≢◌, ◌∙◌, refl, sym, ap, true, false, Option, none, List, [], ◌∷◌, ◌++◌, length,
}
use mathlib.Core.List.{append_assoc, append-nil}
use mathlib.Core.Path.{subst}
use open_shmem_csci.Base.Run.{Run, ok, ◌>>=◌, Returns}
use open_shmem_csci.Memory.Store.{null}
use open_shmem_csci.Job.Queue.{QueueNode, enqueue}
use open_shmem_csci.Job.Queue.Dequeue.{dequeue-nil, dequeue-cons}
use open_shmem_csci.Job.Queue.Refine.{
  Items, IsQueue, jobs, jobs-append, new_queue-IsQueue, enqueue-append,
}
use open_shmem_csci.Job.Work.{
  WorkJob, PutCall, Worker, work_start, work_finalize, work_put_remote, work_put,
  work_thread_execute, work_thread_test, work_thread_round, work_thread_run,
}

-- the calls that a list of jobs makes, in order
abbrev pub calls_of : List WorkJob → List PutCall
calls_of [] = []
calls_of (j ∷ js) = work_thread_execute j ++ calls_of js

calls_of-append : (xs ys : List WorkJob) → calls_of (xs ++ ys) ≡ calls_of xs ++ calls_of ys
calls_of-append [] ys = refl
calls_of-append (x ∷ xs) ys =
    ap (λ t. work_thread_execute x ++ t) (calls_of-append xs ys)
    ∙ sym (append_assoc (work_thread_execute x) (calls_of xs) (calls_of ys))

-- One step of one of the threads: a job is put by either function, at an address that `malloc` may
-- return; the worker tests the flag; it makes a round of the body, when the test let it; or it is told
-- to finish, which may come between the two.
pub data Step : List WorkJob → Worker → Worker → Type 0 where
  put_remote :
      {w v : Worker} (fresh handler pe origin_pe dest src size : ℕ)
      → fresh ≢ null
      → w.queue.nodes fresh ≡ none
      → work_put_remote fresh handler pe origin_pe dest src size w ≡ ok (0, v)
      → Step
          (record {
            handler = handler;
            dest_pe = pe;
            origin_pe = origin_pe;
            dest = dest;
            src = src;
            size = size;
          }
            ∷ [])
          w
          v
  put :
      {w v : Worker} (my_pe fresh handler pe dest src size : ℕ)
      → fresh ≢ null
      → w.queue.nodes fresh ≡ none
      → work_put my_pe fresh handler pe dest src size w ≡ ok (0, v)
      → Step
          (record {
            handler = handler;
            dest_pe = pe;
            origin_pe = my_pe;
            dest = dest;
            src = src;
            size = size;
          }
            ∷ [])
          w
          v
  test : {w : Worker} → w.tested ≡ false → Step [] w (work_thread_test w)
  round : {w v : Worker} → w.tested ≡ true → work_thread_round w ≡ ok v → Step [] w v
  finish : {w : Worker} → Step [] w (work_finalize w)

-- the states that the threads can reach, with the jobs that were put on the way, in order
pub data Reach (start : Worker) : List WorkJob → Worker → Type 0 where
  here : Reach start [] start
  next :
      {js ks ls : List WorkJob} {w v : Worker}
      → Reach start js w
      → Step ks w v
      → ls ≡ js ++ ks
      → Reach start ls v

-- what was put is what was executed and then what waits; the calls are those of the executed jobs
pub record InOrder (js : List WorkJob) (w : Worker) : Type 0 where
  pub executed : List WorkJob
  pub waiting : Items WorkJob
  pub queue : IsQueue w.queue waiting
  pub all_jobs : js ≡ executed ++ jobs waiting
  pub calls : w.calls ≡ calls_of executed

finished-InOrder : (js : List WorkJob) (w : Worker) → InOrder js w → InOrder js (work_finalize w)
unfolding work_finalize
finished-InOrder js w o = record {
  executed = o.executed;
  waiting = o.waiting;
  queue = o.queue;
  all_jobs = o.all_jobs;
  calls = o.calls;
}

tested-InOrder : (js : List WorkJob) (w : Worker) → InOrder js w → InOrder js (work_thread_test w)
unfolding work_thread_test
tested-InOrder js w o = record {
  executed = o.executed;
  waiting = o.waiting;
  queue = o.queue;
  all_jobs = o.all_jobs;
  calls = o.calls;
}

abbrev front : Items WorkJob → List WorkJob
front [] = []
front ((p, j) ∷ xs) = j ∷ []

abbrev rest : Items WorkJob → Items WorkJob
rest [] = []
rest (x ∷ xs) = xs

front-rest : (xs : Items WorkJob) → jobs xs ≡ front xs ++ jobs (rest xs)
front-rest [] = refl
front-rest (x ∷ xs) = refl

enqueued :
    (js : List WorkJob) (w : Worker) (fresh : ℕ) (job : WorkJob) (v : Worker)
    → InOrder js w
    → fresh ≢ null
    → w.queue.nodes fresh ≡ none
    → ◌≡◌ {A = Run (ℕ × Worker)}
        (enqueue fresh job w.queue >>= (λ q. ok (0, record w { queue = q })))
        (ok (0, v))
    → InOrder (js ++ job ∷ []) v
enqueued js w fresh job v o ne unused e =
    let (q, run, is) = enqueue-append fresh job o.queue ne unused in
    let same : record w { queue = q } ≡ v = cc (rw (run, ◌>>=◌) at e) in
    subst (InOrder (js ++ job ∷ [])) same (record {
      executed = o.executed;
      waiting = o.waiting ++ (fresh, job) ∷ [];
      queue = is;
      all_jobs =
          ap (λ t. t ++ job ∷ []) o.all_jobs
          ∙ append_assoc o.executed (jobs o.waiting) (job ∷ [])
          ∙ ap (λ t. o.executed ++ t) (sym (jobs-append o.waiting ((fresh, job) ∷ [])));
      calls = o.calls;
    })

-- a round executes the first job that waits, if there is one
round_lem :
    (w : Worker) (xs : Items WorkJob)
    → IsQueue w.queue xs
    → Returns (work_thread_round w) λ v.
      (v.finished ≡ w.finished)
      × IsQueue v.queue (rest xs)
      × (v.calls ≡ w.calls ++ calls_of (front xs))
unfolding work_thread_round
round_lem w [] is = (
  record w { queue = w.queue; tested = false },
  rw (dequeue-nil is),
  (refl, is, sym (append-nil w.calls)),
)
round_lem w ((p, job) ∷ xs) is =
    let (r, run, (e, is', same)) = dequeue-cons is in
    (
      record w { queue = r.1; tested = false; calls = w.calls ++ work_thread_execute job },
      rw (run, ◌>>=◌, e),
      (refl, is', ap (λ t. w.calls ++ t) (sym (append-nil (work_thread_execute job)))),
    )

rounded :
    (js : List WorkJob) (w v : Worker) → InOrder js w → work_thread_round w ≡ ok v → InOrder js v
rounded js w v o e =
    let (u, run, (fin, is, cs)) = round_lem w o.waiting o.queue in
    let same : u ≡ v = cc (sym run ∙ e) in
    subst (InOrder js) same (record {
      executed = o.executed ++ front o.waiting;
      waiting = rest o.waiting;
      queue = is;
      all_jobs =
          o.all_jobs
          ∙ ap (λ t. o.executed ++ t) (front-rest o.waiting)
          ∙ sym (append_assoc o.executed (front o.waiting) (jobs (rest o.waiting)));
      calls =
          cs
          ∙ ap (λ t. t ++ calls_of (front o.waiting)) o.calls
          ∙ sym (calls_of-append o.executed (front o.waiting));
    })

Step-InOrder :
    (js ks : List WorkJob) (w v : Worker) → InOrder js w → Step ks w v → InOrder (js ++ ks) v
Step-InOrder js ks w v o (put_remote fresh handler pe origin_pe dest src size ne unused e) =
    enqueued js w fresh _ v o ne unused (unfold work_put_remote in e)
Step-InOrder js ks w v o (put my_pe fresh handler pe dest src size ne unused e) =
    enqueued js w fresh _ v o ne unused (unfold work_put in e)
Step-InOrder js ks w v o (round go e) =
    subst (λ t. InOrder t v) (sym (append-nil js)) (rounded js w v o e)
Step-InOrder js ks w v o (test idle) =
    subst (λ t. InOrder t (work_thread_test w)) (sym (append-nil js)) (tested-InOrder js w o)
Step-InOrder js ks w v o finish =
    subst (λ t. InOrder t (work_finalize w)) (sym (append-nil js)) (finished-InOrder js w o)

-- In every state that the threads can reach from the start, however they interleave, the worker
-- has executed the jobs in the order in which they were put, each once, and the ones that wait are
-- the others, in that order.
pub Reach-InOrder :
    (nodes : ℕ → Option (QueueNode WorkJob)) (js : List WorkJob) (w : Worker)
    → Reach (work_start nodes) js w
    → InOrder js w
unfolding work_start
Reach-InOrder nodes js w here = record {
  executed = [];
  waiting = [];
  queue = new_queue-IsQueue nodes;
  all_jobs = refl;
  calls = refl;
}
Reach-InOrder nodes ls v (next {js} {ks} {w} r st e) =
    subst (λ t. InOrder t v) (sym e) (Step-InOrder js ks w v (Reach-InOrder nodes js w r) st)

-- On a linked queue, with nobody putting jobs or telling the worker to finish, as many rounds as
-- jobs wait execute them all in order and leave the queue empty.
pub work_thread_run-drains :
    (w : Worker) (xs : Items WorkJob)
    → IsQueue w.queue xs
    → w.finished ≡ false
    → Returns
        (work_thread_run (length xs) w)
        (λ v. IsQueue v.queue [] × (v.calls ≡ w.calls ++ calls_of (jobs xs)))
unfolding work_thread_run
work_thread_run-drains w [] is go = (w, refl, (is, sym (append-nil w.calls)))
work_thread_run-drains w ((p, j) ∷ xs) is go =
    let (v, run, (fin, is', cs)) = round_lem w ((p, j) ∷ xs) is in
    let (u, run', (is'', cs')) = work_thread_run-drains v xs is' (fin ∙ go) in
    (
      u,
      rw (go, run, ◌>>=◌) run',
      (
        is'',
        cs'
            ∙ ap (λ t. t ++ calls_of (jobs xs)) cs
            ∙ append_assoc w.calls (calls_of (front ((p, j) ∷ xs))) (calls_of (jobs xs))
            ∙ ap (λ t. w.calls ++ (t ++ calls_of (jobs xs))) (append-nil (work_thread_execute j)),
      ),
    )
