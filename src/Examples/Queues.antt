-- ===== src/Examples/Queues.antt =====
-- A worker's queue with one job, and then two.
use open_shmem_csci.Base.{
  ℕ, ◌≤◌, ◌⊎◌, length, ◌≡◌, refl, true, false, Option, none, some, [], ◌∷◌, arith, ◌==◌,
  if◌then◌else◌,
}
use open_shmem_csci.Base.Run.{ok, Returns}
use open_shmem_csci.Job.Queue.{QueueNode, Queue, put_node, enqueue, dequeue}
use open_shmem_csci.Job.Queue.Refine.{IsQueue, enqueue-append}
use open_shmem_csci.Job.Work.{
  WorkJob, Worker, work_start, work_put_remote, work_thread_round, work_finalize, work_thread_test,
  work_thread_run,
}
use open_shmem_csci.Job.Work.Finish.{work_finalize-stops}
use open_shmem_csci.Job.Work.Order.{
  Reach, here, next, put_remote, round, test, InOrder, calls_of, Reach-InOrder,
  work_thread_run-drains,
}

-- a put of 8 bytes at the offset 64 of PE 1's heap, which PE 3 sent
abbrev job : WorkJob
job = record { handler = 0; dest_pe = 1; origin_pe = 3; dest = 64; src = 500; size = 8 }

abbrev one_job : Queue WorkJob
one_job = record {
  head = 10;
  tail = 10;
  nodes = λ p. if p == 10 then some (record { job = job; next = 0 }) else none;
}

one_job-IsQueue : IsQueue one_job ((10, job) ∷ [])
one_job-IsQueue = record { linked = (omega arith, refl, tt, tt); at_head = refl; at_tail = refl }

enqueue-append_example :
    Returns (enqueue 20 job one_job) (λ q. IsQueue q ((10, job) ∷ (20, job) ∷ []))
enqueue-append_example = enqueue-append 20 job one_job-IsQueue (omega arith) refl

abbrev busy : Worker
busy = record { queue = one_job; finished = false; tested = false; calls = [] }

work_thread_run-drains_example :
    Returns (work_thread_run 1 busy) (λ v. IsQueue v.queue [] × (v.calls ≡ calls_of (job ∷ [])))
work_thread_run-drains_example = work_thread_run-drains busy ((10, job) ∷ []) one_job-IsQueue refl

-- the worker after the job was put and a round was made
abbrev no_nodes : ℕ → Option (QueueNode WorkJob)
no_nodes p = none

program : Unit {0}
unfolding work_start work_put_remote work_thread_round put_node enqueue dequeue work_thread_test
    work_finalize
program = tt

abbrev put_nodes : ℕ → Option (QueueNode WorkJob)
put_nodes = put_node no_nodes 10 (some (record { job = job; next = 0 }))

abbrev waiting : Worker
waiting = record {
  queue = record { head = 10; tail = 10; nodes = put_nodes };
  finished = false;
  tested = false;
  calls = [];
}

abbrev executed : Worker
executed = record {
  queue = record { head = 0; tail = 10; nodes = put_nodes };
  finished = false;
  tested = false;
  calls = record { dest = 64; src = 500; size = 8; dest_pe = 1 } ∷ [];
}

put_run : work_put_remote 10 0 1 3 64 500 8 (work_start no_nodes) ≡ ok (0, waiting)
unfolding program
put_run = refl

round_run : work_thread_round (work_thread_test waiting) ≡ ok executed
unfolding program
round_run = refl

tested_now : (work_thread_test waiting).tested ≡ true
unfolding program
tested_now = refl

no_node : (work_start no_nodes).queue.nodes 10 ≡ none
unfolding program
no_node = refl

executed-Reach : Reach (work_start no_nodes) (job ∷ []) executed
executed-Reach =
    next
      (next (next here (put_remote 10 0 1 3 64 500 8 (omega arith) no_node put_run) refl)
        (test refl) refl)
      (round tested_now round_run) refl

Reach-InOrder_example : InOrder (job ∷ []) executed
Reach-InOrder_example = Reach-InOrder no_nodes (job ∷ []) executed executed-Reach

-- the flag is set between the test and the body, with the job still waiting
abbrev told : Worker
told = record {
  queue = record { head = 10; tail = 10; nodes = put_nodes };
  finished = true;
  tested = true;
  calls = [];
}

abbrev last : Worker
last = record executed { finished = true }

last_run : work_thread_round told ≡ ok last
unfolding program
last_run = refl

work_finalize-stops_example :
    (last.finished ≡ true)
    × (((last.tested ≡ told.tested) × (last.calls ≡ told.calls))
        ⊎ ((told.tested ≡ true) × (last.tested ≡ false) × (length last.calls ≤ 1)))
work_finalize-stops_example =
    work_finalize-stops told last [] refl (next here (round refl last_run) refl)
