-- ===== src/Comm/Barrier/Progress.antt =====
-- The barrier does not deadlock: once every PE has called, there is a step to make.
use open_shmem_csci.Base.{ℕ, ◌≤◌, ◌<◌, ◌≡◌, ◌≢◌, refl, ap, true, arith}
use native.Mathlib.Decide.{ℕ_discrete, dec_lt}
use open_shmem_csci.Comm.Barrier.{
  RootPhase, outside, collecting, releasing, System, root_collect, root_collected, root_release,
  root_leave, pe_leave, deliver_root, deliver_pe, Step, collect, collected, release, leave_root,
  leave_pe, arrive_root, arrive_pe, Reach,
}
use open_shmem_csci.Comm.Barrier.Safety.{Invariant, Reach-Invariant, releases, to_nat}

-- a step at which nobody calls the barrier
abbrev pub CanMove : ℕ → System → Type 0
CanMove n s = (t : System) × Step n s t × ((j : ℕ) → t.arrived j ≡ s.arrived j)

-- PE 0 is inside and every PE has called as often as it: somebody can make a step.
root_moves :
    (n : ℕ) (s : System) (phase : RootPhase)
    → Invariant n s
    → s.root ≡ phase
    → phase ≢ outside
    → ((i : ℕ) → 0 < i → i < n → s.arrived 0 ≤ s.arrived i)
    → CanMove n s
unfolding root_collect root_collected root_release root_leave deliver_root
root_moves n s outside v e ne called = absurd (ne refl)
root_moves n s (releasing i) v e ne called = elim (dec_lt i n) [
  | yes h ↦ (root_release i s, release i e h, λ j. refl)
  | no h ↦ (root_leave s, leave_root i e (omega arith), λ j. refl)
]
root_moves n s (collecting i) v e ne called = elim (dec_lt i n) [
  | no h ↦ (root_collected s, collected i e (omega arith), λ j. refl)
  | yes h ↦ elim (ℕ_discrete (s.root_sync i) 0) [
    | no set ↦ (root_collect i s, collect i e h set, λ j. refl)
    | yes clear ↦
        let pos : 0 < i = ground (arith, v.counted) in
        let b = v.balanced i pos h in
        let put : s.to_root i ≢ 0 = ground (arith, b.arrivals, v.root_calls, called i pos h) in
        (deliver_root i s, arrive_root i pos h put, λ j. refl)
  ]
]

le-releases : (root : RootPhase) (l i : ℕ) → l ≤ releases root l i
le-releases outside l i = omega arith
le-releases (collecting k) l i = omega arith
le-releases (releasing k) l i = ground arith

-- In every state that the PEs can reach: if PE 0 is inside the barrier and every other PE has
-- called it at least as often as PE 0, then a step is possible that is no call of the barrier.
pub barrier-root_moves :
    (n : ℕ) (s : System)
    → Reach n s
    → s.root ≢ outside
    → ((i : ℕ) → 0 < i → i < n → s.arrived 0 ≤ s.arrived i)
    → CanMove n s
barrier-root_moves n s r = root_moves n s s.root (Reach-Invariant r) refl

-- In every state that the PEs can reach: if a PE `i` other than 0 is inside the barrier and has
-- called it no more often than PE 0 has returned, then a step is possible that is no call of the
-- barrier.
pub barrier-pe_moves :
    (n : ℕ) (s : System) (i : ℕ)
    → Reach n s
    → 0 < i
    → i < n
    → s.inside i ≡ true
    → s.arrived i ≤ s.left 0
    → CanMove n s
unfolding pe_leave deliver_pe
barrier-pe_moves n s i r pos h inside due = elim (ℕ_discrete (s.own_sync i) 0) [
  | no set ↦ (pe_leave i s, leave_pe i pos h inside set, λ j. refl)
  | yes clear ↦
      let b = (Reach-Invariant r).balanced i pos h in
      let one : to_nat (s.inside i) ≡ 1 = ap to_nat inside in
      let put : s.to_pe i ≢ 0 =
        omega (arith, b.releases_to, b.calls, le-releases s.root (s.left 0) i, one) in
      (deliver_pe i s, arrive_pe i pos h put, λ j. refl)
]
