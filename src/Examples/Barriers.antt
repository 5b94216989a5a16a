-- ===== src/Examples/Barriers.antt =====
-- Two PEs: one round of the barrier, step by step.
use open_shmem_csci.Base.{ℕ, ◌≤◌, ◌<◌, ◌≡◌, refl, arith, ◌⊎◌, inl, inr}
use open_shmem_csci.Comm.Barrier.{
  System, start, root_enter, pe_enter, deliver_root, root_collect, root_collected, root_release,
  root_leave, enter_root, enter_pe, arrive_root, Reach, here, next,
}
use open_shmem_csci.Comm.Barrier.Safety.{left-le-arrived}
use open_shmem_csci.Comm.Barrier.Completion.{Returning, barrier-returns}

program : Unit {0}
unfolding start root_enter pe_enter deliver_root root_collect root_collected root_release root_leave
program = tt

abbrev both_in : System
both_in = deliver_root 1 (pe_enter 1 (root_enter start))

both_in-Reach : Reach 2 both_in
unfolding program
both_in-Reach =
    next (next (next here (enter_root refl)) (enter_pe 1 (omega arith) (omega arith) refl))
      (arrive_root 1 (omega arith) (omega arith) (omega arith))

left-le-arrived_example : both_in.left 1 ≤ both_in.arrived 0
left-le-arrived_example = left-le-arrived 2 both_in 0 1 both_in-Reach (omega arith) (omega arith)

called : (i : ℕ) → i < 2 → both_in.arrived i ≡ 1
unfolding program
called i h = elim (cases i h) [ inl e ↦ rw e refl | inr e ↦ rw e refl ]
  where
    cases : (i : ℕ) → i < 2 → (i ≡ 0) ⊎ (i ≡ 1)
    cases i h = omega arith

barrier-returns_example : Returning 2 1 both_in
barrier-returns_example = barrier-returns 2 1 both_in (omega arith) both_in-Reach called
