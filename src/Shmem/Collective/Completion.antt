-- ===== src/Shmem/Collective/Completion.antt =====
-- Every PE comes back from all its collective calls of `shmem_malloc`.
use open_shmem_csci.Base.{
  total, total-one, total-same, ℕ, zero, suc, ◌+◌, ◌-◌, ◌*◌, ◌≤◌, ◌<◌, ◌≡◌, ◌≢◌, refl, ap, inl, inr,
  List, [], ◌∷◌, length, length-append, arith, ==_refl, ne→==,
}
use open_shmem_csci.Memory.Store.{Store}
use open_shmem_csci.Memory.Heap.{Heap}
use open_shmem_csci.Memory.Heap.Sequence.{Request, IsFresh}
use open_shmem_csci.Memory.Heap.Symmetric.Twin.{IsTwin, num_blocks, num_blocks'}
use open_shmem_csci.Comm.Barrier.{System}
use open_shmem_csci.Comm.Barrier.Measure.{measure, call-or-quiet}
use open_shmem_csci.Shmem.Collective.{Pes, begin, allocated, Move, allocate, sync, Runs, next}
use open_shmem_csci.Shmem.Collective.Symmetric.{Kept, Runs-Kept}
use open_shmem_csci.Shmem.Collective.Progress.{shmem_malloc-moves}

-- all PEs have returned from `k` calls, or a step is possible and every step leads there
pub data Finishing (n fuel k : ℕ) : Pes → Type 0 where
  finished : {c : Pes} → ((i : ℕ) → i < n → c.barrier.left i ≡ k) → Finishing n fuel k c
  moves :
      {c : Pes}
      → (d : Pes) × Move n fuel c d
      → ((d : Pes) → Move n fuel c d → Finishing n fuel k d)
      → Finishing n fuel k c

-- the calls of the barrier and the allocations that are left
abbrev calls_left : (k : ℕ) → System → ℕ → ℕ
calls_left k s i = k - s.arrived i

abbrev allocations_left : (k : ℕ) → Pes → ℕ → ℕ
allocations_left k c i = k - length (c.made i)

abbrev work_left : (n k : ℕ) → Pes → ℕ
work_left n k c =
    (4 * n + 3) * total n (calls_left k c.barrier)
    + total n (allocations_left k c)
    + measure n c.barrier

mul-add_one : (a b : ℕ) → a * (b + 1) ≡ a * b + a
mul-add_one a b = grind arith

-- a call of the barrier uses one up
calls-less :
    (n k : ℕ) (s t : System) (i : ℕ)
    → i < n
    → t.arrived i ≡ s.arrived i + 1
    → ((j : ℕ) → j ≢ i → t.arrived j ≡ s.arrived j)
    → t.arrived i ≤ k
    → total n (calls_left k s) ≡ total n (calls_left k t) + 1
calls-less n k s t i h one others few =
    let change =
      total-one n (calls_left k s) (calls_left k t) i h (λ j ne. ap (λ x. k - x) (others j ne)) in
    omega (arith, change, one, few)

module _ (n fuel k : ℕ) (heap : ℕ → Heap) (blocks : ℕ → Store) (program : ℕ → List Request)
    (some_pe : 0 < n) (lengths : (i : ℕ) → i < n → length (program i) ≡ k) where
  made-le : (c : Pes) → Kept n fuel heap blocks program c → (i : ℕ) → i < n → length (c.made i) ≤ k
  made-le c v i h =
      let a = v.runs i h in
      omega (arith, ap length a.whole, length-append (c.made i) (c.todo i), lengths i h)

  Move-decreases :
      (c d : Pes)
      → Kept n fuel heap blocks program c
      → Move n fuel c d
      → work_left n k d < work_left n k c
  unfolding allocated
  Move-decreases c d v (allocate i q qs r h idle e call) =
      let change =
        total-one n (allocations_left k c) (allocations_left k (allocated i q qs r c)) i h (λ j ne.
          let off : length ((allocated i q qs r c).made j) ≡ length (c.made j) =
            rw (ne→== j i ne) refl in
          ap (λ x. k - x) off) in
      let grown : length ((allocated i q qs r c).made i) ≡ length (c.made i) + 1 =
        rw (==_refl i) (length-append (c.made i) (q ∷ [])) in
      let whole = ap length (v.runs i h).whole in
      let split = length-append (c.made i) (c.todo i) in
      omega (arith, change, grown, whole, split, ap length e, lengths i h)
  Move-decreases c d v (sync {t = t} step few) = elim (call-or-quiet some_pe step) [
    | inl (same, less) ↦
        let calls =
          total-same n (calls_left k c.barrier) (calls_left k t)
            (λ j hj. ap (λ x. k - x) (same j)) in
        omega (arith, less, ap (λ x. (4 * n + 3) * x) calls)
    | inr (i, h, one, others, more) ↦
        let calls =
          calls-less n k c.barrier t i h one others (omega (arith, few i h, made-le c v i h)) in
        let spent = ap (λ x. (4 * n + 3) * x) calls in
        let spread = mul-add_one (4 * n + 3) (total n (calls_left k t)) in
        omega (arith, more, spent, spread)
  ]

  Finishing-within :
      (steps : ℕ) (c : Pes)
      → Runs n fuel (begin heap blocks program) c
      → ((i : ℕ) → i < n → IsFresh (blocks i) (program i))
      → (w : (i : ℕ)
          → i < n
          → IsTwin (heap i).ptr (heap i).ptr (blocks i) (blocks i) (heap i) (heap i))
      → ((i : ℕ) (h : i < n) → num_blocks (w i h) + length (program i) ≤ fuel)
      → ((i : ℕ) (h : i < n) → num_blocks' (w i h) + length (program i) ≤ fuel)
      → work_left n k c < steps
      → Finishing n fuel k c
  Finishing-within zero c r f w enough enough' few = absurd (omega arith)
  Finishing-within (suc steps) c r f w enough enough' few =
      elim (shmem_malloc-moves n fuel k heap blocks program c r lengths f w enough enough') [
        | inl done ↦ finished done
        | inr move ↦ moves move (λ d step.
            let less = Move-decreases c d (Runs-Kept n fuel heap blocks program r) step in
            Finishing-within steps d (next r step) f w enough enough' (omega (arith, less, few)))
      ]

-- When each of the `n` PEs makes `k` collective calls of `shmem_malloc`, with new and different
-- descriptors, on a heap that began well laid out over a region that is not NULL, and with enough fuel
-- for all the blocks: from every state that they reach, every order of the PEs' and the network's steps
-- brings all the PEs back from all their calls. Until then there is a step, and none goes on for ever.
pub shmem_malloc-returns :
    (n fuel k : ℕ) (heap : ℕ → Heap) (blocks : ℕ → Store) (program : ℕ → List Request) (c : Pes)
    → 0 < n
    → Runs n fuel (begin heap blocks program) c
    → ((i : ℕ) → i < n → length (program i) ≡ k)
    → ((i : ℕ) → i < n → IsFresh (blocks i) (program i))
    → (w : (i : ℕ)
        → i < n
        → IsTwin (heap i).ptr (heap i).ptr (blocks i) (blocks i) (heap i) (heap i))
    → ((i : ℕ) (h : i < n) → num_blocks (w i h) + length (program i) ≤ fuel)
    → ((i : ℕ) (h : i < n) → num_blocks' (w i h) + length (program i) ≤ fuel)
    → Finishing n fuel k c
shmem_malloc-returns n fuel k heap blocks program c some_pe r lengths f w enough enough' =
    Finishing-within n fuel k heap blocks program some_pe lengths (suc (work_left n k c)) c r f w
      enough enough' (omega arith)
