-- ===== src/Shmem/Collective/Standing.antt =====
-- How a PE stands between its calls of `shmem_malloc`: what it has made and what it can do next.
use mathlib.Core.Path.{subst}
use open_shmem_csci.Base.{
  ℕ, zero, suc, ◌+◌, ◌≤◌, ◌<◌, ◌≡◌, ◌≢◌, ◌⊎◌, refl, ap, inl, inr, Bool, true, false, List, [], ◌∷◌,
  ◌++◌, length, length-append, arith, ◌==◌, if◌then◌else◌,
}
use native.Mathlib.Decide.{ℕ_discrete, dec_lt}
use open_shmem_csci.Memory.Store.{Store}
use open_shmem_csci.Memory.Heap.{Heap}
use open_shmem_csci.Memory.Heap.Sequence.{Request}
use open_shmem_csci.Comm.Barrier.{
  System, RootPhase, outside, collecting, releasing, Step, enter_root, enter_pe, collect, collected,
  release, leave_root, leave_pe, arrive_root, arrive_pe, root_enter, root_collect, root_collected,
  root_release, root_leave, pe_enter, pe_leave, deliver_root, deliver_pe,
}
use open_shmem_csci.Comm.Barrier.Safety.{Invariant, root_inside, to_nat}
use open_shmem_csci.Shmem.Collective.{Pes, begin, allocated, allocate, sync, Runs, here, next}

-- a number below `n` with a property that can be decided, if there is one
pub find_below :
    {P : ℕ → Type 0}
    → ((i : ℕ) → Dec (P i))
    → (n : ℕ) → ((i : ℕ) × (i < n) × P i) ⊎ ((i : ℕ) → i < n → P i → ⊥)
find_below dec zero = inr (λ i h p. omega arith)
find_below {P} dec (suc n) = elim (find_below dec n) [
  | inl (i, h, p) ↦ inl (i, omega arith, p)
  | inr none ↦ elim (dec n) [
    | yes p ↦ inl (n, omega arith, p)
    | no ne ↦ inr (λ i h p. elim (ℕ_discrete i n) [
      | yes last ↦ ne (subst P last p)
      | no before ↦ none i (omega (arith, before)) p
    ])
  ]
]

-- The barrier never forgets a return.
left_mono : {n : ℕ} {s t : System} → Step n s t → (i : ℕ) → s.left i ≤ t.left i
unfolding root_enter root_collect root_collected root_release root_leave pe_enter pe_leave
    deliver_root deliver_pe
left_mono (enter_root e) i = omega arith
left_mono (collect j e h set) i = omega arith
left_mono (collected j e h) i = omega arith
left_mono (release j e h) i = omega arith
left_mono (leave_root j e h) i = ground arith
left_mono (enter_pe j p h e) i = omega arith
left_mono (leave_pe j p h e set) i = ground arith
left_mono (arrive_root j p h e) i = omega arith
left_mono (arrive_pe j p h e) i = omega arith

-- a PE makes no allocation before it has returned from the call before
module _ (n fuel : ℕ) (heap : ℕ → Heap) (blocks : ℕ → Store) (program : ℕ → List Request) where
  pub made-le-left :
      {c : Pes}
      → Runs n fuel (begin heap blocks program) c
      → (i : ℕ) → length (c.made i) ≤ suc (c.barrier.left i)
  unfolding begin allocated
  made-le-left here i = omega arith
  made-le-left (next {d = d} r (allocate j q qs x h idle e call)) i =
      ground (arith, made-le-left r i, length-append (d.made j) (q ∷ []), idle)
  made-le-left (next {d = d} r (sync step few)) i =
      omega (arith, made-le-left r i, left_mono step i)

not_inside : (b : Bool) → to_nat b ≤ 0 → b ≡ false
not_inside true h = absurd (omega arith)
not_inside false h = refl

not_root : (root : RootPhase) → root_inside root ≤ 0 → root ≡ outside
not_root outside h = refl
not_root (collecting i) h = absurd (omega arith)
not_root (releasing i) h = absurd (omega arith)

pub is_inside : (b : Bool) → 1 ≤ to_nat b → b ≡ true
is_inside true h = refl
is_inside false h = absurd (omega arith)

pub root_inside-le : (root : RootPhase) → root_inside root ≤ 1
root_inside-le outside = omega arith
root_inside-le (collecting i) = omega arith
root_inside-le (releasing i) = omega arith

-- a PE that has allocated and not called the barrier can call it
pub can_enter :
    (n : ℕ) (s : System) (i : ℕ)
    → Invariant n s
    → i < n
    → s.arrived i ≤ s.left i
    → (t : System) × Step n s t
      × ((j : ℕ) → t.arrived j ≤ (if j == i then s.arrived j + 1 else s.arrived j))
unfolding root_enter pe_enter
can_enter n s i v h out = elim (dec_lt 0 i) [
  | yes pos ↦ (
    pe_enter i s,
    enter_pe i pos h (not_inside (s.inside i) (omega (arith, (v.balanced i pos h).calls))),
    λ j. ground arith,
  )
  | no first ↦
      let zero_pe : i ≡ 0 = omega (arith, first) in
      (
        root_enter s,
        enter_root (
            not_root s.root
              (omega (arith, v.root_calls, subst (λ k. s.arrived k ≤ s.left k) zero_pe out))),
        λ j. ground (arith, zero_pe),
      )
]

-- a PE that is neither inside nor between two calls has returned from all the calls of its program
abbrev pub MayAllocate : Pes → ℕ → Type 0
MayAllocate c i = (length (c.made i) ≡ c.barrier.left i) × (c.todo i ≢ [])

pub nonempty : (l : List Request) → Dec (l ≢ [])
nonempty [] = no (λ ne. ne refl)
nonempty (q ∷ qs) = yes (λ e. cc)

pub split_todo : (l : List Request) → l ≢ [] → (q : Request) × (qs : List Request) × (l ≡ q ∷ qs)
split_todo [] ne = absurd (ne refl)
split_todo (q ∷ qs) ne = (q, qs, refl)

pub dec_both : {P Q : Type 0} → Dec P → Dec Q → Dec (P × Q)
dec_both (yes p) (yes q) = yes (p, q)
dec_both (yes p) (no nq) = no (λ r. nq r.1)
dec_both (no np) d = no (λ r. np r.0)

pub all_made :
    (made todo program : List Request)
    → made ++ todo ≡ program
    → (todo ≢ [] → ⊥)
    → length made ≡ length program
all_made made [] program e h = ground (arith, ap length e, length-append made [])
all_made made (q ∷ qs) program e h = absurd (h (λ f. cc))
