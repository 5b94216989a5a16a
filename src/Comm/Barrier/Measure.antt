-- ===== src/Comm/Barrier/Measure.antt =====
-- A number that every step but a call makes smaller: the rounds that PE 0 has left, and what the
-- puts on their way and the elements that are set still cause.
use open_shmem_csci.Base.{
  total, total-one, ℕ, ◌+◌, ◌-◌, ◌*◌, ◌≤◌, ◌<◌, ◌≡◌, ◌≢◌, ◌⊎◌, inl, inr, refl, arith,
}
use open_shmem_csci.Comm.Barrier.{
  RootPhase, outside, collecting, releasing, System, root_enter, root_collect, root_collected,
  root_release, root_leave, pe_enter, pe_leave, deliver_root, deliver_pe, Step, enter_root, collect,
  collected, release, leave_root, enter_pe, leave_pe, arrive_root, arrive_pe,
}

-- what PE 0 still does: a round of the first loop, of the second with its put, and the return
abbrev root_weight : ℕ → RootPhase → ℕ
root_weight n outside = 0
root_weight n (collecting i) = (n - i) + 3 * n + 2
root_weight n (releasing i) = 3 * (n - i) + 1

abbrev pub weight : System → ℕ → ℕ
weight s i = s.to_root i + 2 * s.to_pe i + s.own_sync i

unfoldable pub measure : ℕ → System → ℕ
unfolding total
measure n s = root_weight n s.root + total n (weight s)

pub quiet-decreases :
    {n : ℕ} {s t : System}
    → Step n s t
    → ((j : ℕ) → t.arrived j ≡ s.arrived j)
    → measure n t < measure n s
unfolding measure root_enter root_collect root_collected root_release root_leave pe_enter pe_leave
    deliver_root deliver_pe
quiet-decreases {n} {s} (enter_root e) same = absurd (ground (arith, same 0))
quiet-decreases {n} {s} (collect i e h set) same = ground (arith)
quiet-decreases {n} {s} (collected i e h) same = ground (arith)
quiet-decreases {n} {s} (release i e h) same =
    let change = total-one n (weight s) (weight (root_release i s)) i h (λ j ne. ground arith) in
    ground (arith, change)
quiet-decreases {n} {s} (leave_root i e h) same = ground (arith)
quiet-decreases {n} {s} (enter_pe i p h e) same = absurd (ground (arith, same i))
quiet-decreases {n} {s} (leave_pe i p h e set) same =
    let change = total-one n (weight s) (weight (pe_leave i s)) i h (λ j ne. ground arith) in
    ground (arith, change)
quiet-decreases {n} {s} (arrive_root i p h e) same =
    let change = total-one n (weight s) (weight (deliver_root i s)) i h (λ j ne. ground arith) in
    ground (arith, change)
quiet-decreases {n} {s} (arrive_pe i p h e) same =
    let change = total-one n (weight s) (weight (deliver_pe i s)) i h (λ j ne. ground arith) in
    ground (arith, change)

-- A step is no call and makes the measure smaller, or it is the call of one PE and adds what that PE
-- and PE 0 have to do for it.
pub call-or-quiet :
    {n : ℕ} {s t : System}
    → 0 < n
    → Step n s t
    → (((j : ℕ) → t.arrived j ≡ s.arrived j) × (measure n t < measure n s))
      ⊎ ((i : ℕ) × (i < n)
          × (t.arrived i ≡ s.arrived i + 1)
          × ((j : ℕ) → j ≢ i → t.arrived j ≡ s.arrived j)
          × (measure n t ≤ measure n s + (4 * n + 2)))
unfolding measure root_enter root_collect root_collected root_release root_leave pe_enter pe_leave
    deliver_root deliver_pe
call-or-quiet {n} {s} pos (enter_root e) =
    inr (0, pos, ground arith, (λ j ne. ground arith), ground arith)
call-or-quiet {n} {s} pos (enter_pe i p h e) =
    let change = total-one n (weight s) (weight (pe_enter i s)) i h (λ j ne. ground arith) in
    inr (i, h, ground arith, (λ j ne. ground arith), ground (arith, change))
call-or-quiet {s = s} pos (collect i e h set) =
    inl ((λ j. refl), quiet-decreases (collect {s = s} i e h set) (λ j. refl))
call-or-quiet {s = s} pos (collected i e h) =
    inl ((λ j. refl), quiet-decreases (collected {s = s} i e h) (λ j. refl))
call-or-quiet {s = s} pos (release i e h) =
    inl ((λ j. refl), quiet-decreases (release {s = s} i e h) (λ j. refl))
call-or-quiet {s = s} pos (leave_root i e h) =
    inl ((λ j. refl), quiet-decreases (leave_root {s = s} i e h) (λ j. refl))
call-or-quiet {s = s} pos (leave_pe i p h e set) =
    inl ((λ j. refl), quiet-decreases (leave_pe {s = s} i p h e set) (λ j. refl))
call-or-quiet {s = s} pos (arrive_root i p h e) =
    inl ((λ j. refl), quiet-decreases (arrive_root {s = s} i p h e) (λ j. refl))
call-or-quiet {s = s} pos (arrive_pe i p h e) =
    inl ((λ j. refl), quiet-decreases (arrive_pe {s = s} i p h e) (λ j. refl))
