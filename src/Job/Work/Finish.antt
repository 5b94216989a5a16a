-- ===== src/Job/Work/Finish.antt =====
-- What the worker does once `work_finalize` has set the flag.
use mathlib.Core.Path.{subst}
use open_shmem_csci.Base.{
  ℕ, suc, ◌≤◌, ◌≡◌, ◌⊎◌, ◌∙◌, refl, sym, ap, inl, inr, true, false, not, Option, none, some, List,
  ◌++◌, length, length-append, arith,
}
use open_shmem_csci.Base.Run.{Run, ok, ◌>>=◌, bind-split}
use open_shmem_csci.Job.Queue.{Queue, enqueue, dequeue}
use open_shmem_csci.Job.Work.{
  WorkJob, Worker, work_finalize, work_put_remote, work_put, work_thread_execute, work_thread_test,
  work_thread_round,
}
use open_shmem_csci.Job.Work.Order.{Step, put_remote, put, test, round, finish, Reach, here, next}

-- a job makes one call of `comm_put` at most
execute_few : (job : WorkJob) → length (work_thread_execute job) ≤ 1
unfolding work_thread_execute
execute_few job = ground arith

-- a round leaves the flag, needs a new test, and makes one call at most
round_few :
    (w v : Worker)
    → work_thread_round w ≡ ok v
    → (v.finished ≡ w.finished) × (v.tested ≡ false) × (length v.calls ≤ suc (length w.calls))
unfolding work_thread_round
round_few w v e = let (r, taken, e') = bind-split (dequeue w.queue) _ v e in after r.0 r.1 e'
  where
    after :
        (job : Option WorkJob) (q : Queue WorkJob)
        → ◌≡◌ {A = Run Worker}
            (elim job [
              | none ↦ ok (record w { queue = q; tested = false })
              | some j ↦
                  ok (record w {
                    queue = q;
                    tested = false;
                    calls = w.calls ++ work_thread_execute j;
                  })
            ])
            (ok v)
        → (v.finished ≡ w.finished) × (v.tested ≡ false) × (length v.calls ≤ suc (length w.calls))
    after none q e =
        let same : record w { queue = q; tested = false } ≡ v = cc e in
        subst
          (λ (x : Worker).
            (x.finished ≡ w.finished)
            × (x.tested ≡ false)
            × (length x.calls ≤ suc (length w.calls)))
          same (refl, refl, omega arith)
    after (some j) q e =
        let same : record w { queue = q; tested = false; calls = w.calls ++ work_thread_execute j }
            ≡ v =
          cc e in
        subst
          (λ (x : Worker).
            (x.finished ≡ w.finished)
            × (x.tested ≡ false)
            × (length x.calls ≤ suc (length w.calls)))
          same
          (refl, refl, omega (arith, length-append w.calls (work_thread_execute j), execute_few j))

-- `u` is a state of the worker after `w`, in which the flag is set
abbrev pub Stopped : (w u : Worker) → Type 0
Stopped w u =
    (u.finished ≡ true)
    × (((u.tested ≡ w.tested) × (u.calls ≡ w.calls))
        ⊎ ((w.tested ≡ true) × (u.tested ≡ false) × (length u.calls ≤ suc (length w.calls))))

-- putting a job changes the queue only
put_kept :
    (w u v : Worker) (fresh : ℕ) (job : WorkJob)
    → Stopped w u
    → ◌≡◌ {A = Run (ℕ × Worker)}
        (enqueue fresh job u.queue >>= (λ q. ok (0, record u { queue = q })))
        (ok (0, v))
    → Stopped w v
put_kept w u v fresh job s e =
    let (q, run, e') = bind-split (enqueue fresh job u.queue) _ (0, v) e in
    let same : record u { queue = q } ≡ v = cc e' in subst (Stopped w) same s

Step-Stopped : (w u v : Worker) (ks : List WorkJob) → Stopped w u → Step ks u v → Stopped w v
unfolding work_thread_test work_finalize
Step-Stopped w u v ks s (put_remote fresh handler pe origin_pe dest src size ne unused e) =
    put_kept w u v fresh
      (record {
        handler = handler;
        dest_pe = pe;
        origin_pe = origin_pe;
        dest = dest;
        src = src;
        size = size;
      })
      s (unfold work_put_remote in e)
Step-Stopped w u v ks s (put my_pe fresh handler pe dest src size ne unused e) =
    put_kept w u v fresh
      (record {
        handler = handler;
        dest_pe = pe;
        origin_pe = my_pe;
        dest = dest;
        src = src;
        size = size;
      })
      s (unfold work_put in e)
Step-Stopped w u v ks (done, inl (same, calls)) (test idle) =
    (done, inl (ap (λ b. not b) done ∙ sym idle ∙ same, calls))
Step-Stopped w u v ks (done, inr (ready, off, few)) (test idle) =
    (done, inr (ready, ap (λ b. not b) done, few))
Step-Stopped w u v ks (done, inl (same, calls)) (round go e) =
    let (kept, off, few) = round_few u v e in
    (kept ∙ done, inr (sym same ∙ go, off, omega (arith, few, ap length calls)))
Step-Stopped w u v ks (done, inr (ready, off, few)) (round go e) = absurd (cc (off, go))
Step-Stopped w u v ks (done, s) finish = (refl, s)

-- From a state in which the worker was told to finish, whatever the threads do then: the flag stays set;
-- if the worker is not between its test of the flag and the body of its loop, it makes no call of
-- `comm_put` any more, and otherwise one at most, so all the other jobs that wait or are put later are
-- never executed.
pub work_finalize-stops :
    (w v : Worker) (js : List WorkJob)
    → w.finished ≡ true
    → Reach w js v
    → (v.finished ≡ true)
      × (((v.tested ≡ w.tested) × (v.calls ≡ w.calls))
          ⊎ ((w.tested ≡ true) × (v.tested ≡ false) × (length v.calls ≤ suc (length w.calls))))
work_finalize-stops w v js done here = (done, inl (refl, refl))
work_finalize-stops w v ls done (next {js = js} {ks = ks} {w = u} r st e) =
    Step-Stopped w u v ks (work_finalize-stops w u js done r) st
