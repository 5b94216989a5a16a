-- ===== src/Shmem/Collective/Progress.antt =====
-- A collective `shmem_malloc` does not deadlock: as long as a PE has calls to make or to return from,
-- some PE can move.
use mathlib.Core.Path.{subst}
use open_shmem_csci.Base.{
  ℕ, suc, ◌+◌, ◌≤◌, ◌<◌, ◌≡◌, ◌⊎◌, ◌∙◌, sym, ap, inl, inr, List, ◌∷◌, ◌++◌, length, length-append,
  arith,
}
use native.Mathlib.Decide.{ℕ_discrete, dec_lt}
use open_shmem_csci.Memory.Store.{Store}
use open_shmem_csci.Memory.Heap.{Heap}
use open_shmem_csci.Memory.Heap.Sequence.{Request, IsFresh}
use open_shmem_csci.Memory.Heap.Symmetric.Twin.{IsTwin, num_blocks, num_blocks'}
use open_shmem_csci.Memory.Heap.Symmetric.Runs.{malloc_run-next}
use open_shmem_csci.Comm.Barrier.Safety.{Reach-Invariant, left-le-arrived}
use open_shmem_csci.Comm.Barrier.Progress.{CanMove, barrier-root_moves, barrier-pe_moves}
use open_shmem_csci.Comm.Barrier.Completion.{root-cases}
use open_shmem_csci.Shmem.Collective.{Pes, begin, Move, allocate, sync, Runs}
use open_shmem_csci.Shmem.Collective.Symmetric.{Runs-Kept}
use open_shmem_csci.Shmem.Collective.Standing.{
  find_below, is_inside, root_inside-le, can_enter, nonempty, split_todo, dec_both, all_made,
  made-le-left, MayAllocate,
}

module _ (n fuel k : ℕ) (heap : ℕ → Heap) (blocks : ℕ → Store) (program : ℕ → List Request)
    (c : Pes) (r : Runs n fuel (begin heap blocks program) c) where
  abbrev Moves : Type 0
  Moves = (d : Pes) × Move n fuel c d

  allocates :
      (i : ℕ)
      → i < n
      → MayAllocate c i
      → (w : IsTwin (heap i).ptr (heap i).ptr (blocks i) (blocks i) (heap i) (heap i))
      → IsFresh (blocks i) (program i)
      → num_blocks w + length (program i) ≤ fuel
      → num_blocks' w + length (program i) ≤ fuel
      → Moves
  allocates i h (idle, some_left) w f enough enough' =
      let a = (Runs-Kept n fuel heap blocks program r).runs i h in
      let (q, qs, e) = split_todo (c.todo i) some_left in
      let whole : c.made i ++ q ∷ qs ≡ program i = ap (λ l. c.made i ++ l) (sym e) ∙ a.whole in
      let (x, call) =
        malloc_run-next fuel (c.made i) q qs (heap i).ptr (blocks i) (heap i) _ w
          (subst (IsFresh (blocks i)) (sym whole) f) (rw whole enough) (rw whole enough') a.run in
      (_, allocate i q qs x h idle e call)

  -- how PE `j` stands when nobody has still to allocate or to call the barrier
  abbrev Stands : ℕ → Type 0
  Stands j =
      ((c.barrier.arrived j ≡ k) × (c.barrier.left j ≡ k))
      ⊎ ((c.barrier.arrived j ≡ suc (c.barrier.left j)) × (c.barrier.arrived j ≤ k))

  stands :
      (j : ℕ)
      → j < n
      → length (program j) ≡ k
      → (MayAllocate c j → ⊥)
      → (c.barrier.arrived j < length (c.made j) → ⊥)
      → Stands j
  stands j h len idle entered =
      let v = Runs-Kept n fuel heap blocks program r in
      let a = v.runs j h in
      let up = made-le-left n fuel heap blocks program r j in
      let down = left-le-arrived n c.barrier j j v.barrier h h in
      let all = length-append (c.made j) (c.todo j) in
      let e = ap length a.whole in
      elim (ℕ_discrete (length (c.made j)) (c.barrier.left j)) [
        | yes same ↦
            let full =
              all_made (c.made j) (c.todo j) (program j) a.whole
                (λ some_left. idle (same, some_left)) in
            inl (omega (arith, a.calls, entered), omega (arith, a.calls, entered))
        | no ne ↦ inr (omega (arith, a.calls, entered), omega (arith, a.calls, entered))
      ]

  -- one that waits, and that PE 0 has returned from as many barriers as it has called
  waiting_moves :
      (i : ℕ)
      → 0 < i
      → i < n
      → c.barrier.arrived i ≡ suc (c.barrier.left i)
      → c.barrier.arrived i ≤ c.barrier.left 0
      → CanMove n c.barrier
  waiting_moves i pos h one due =
      let v = (Runs-Kept n fuel heap blocks program r).barrier in
      barrier-pe_moves n c.barrier i v pos h
        (is_inside (c.barrier.inside i)
          (omega (arith, ((Reach-Invariant v).balanced i pos h).calls)))
        due

  -- nobody has still to allocate or to call the barrier: the barrier goes on
  waits :
      ((j : ℕ) → j < n → Stands j) → (i : ℕ) → i < n → c.barrier.left i < k → CanMove n c.barrier
  waits all i h behind =
      let v = (Runs-Kept n fuel heap blocks program r).barrier in
      let calls = (Reach-Invariant v).root_calls in
      elim (root-cases c.barrier.root) [
        | inl out ↦
            let level : c.barrier.arrived 0 ≡ c.barrier.left 0 = ground (arith, calls, out) in
            let full : c.barrier.left 0 ≡ k = omega (arith, all 0 (omega arith)) in
            let wait : (c.barrier.arrived i ≡ suc (c.barrier.left i)) × (c.barrier.arrived i ≤ k) =
              (omega (arith, all i h), omega (arith, all i h)) in
            waiting_moves i (ground (arith, full)) h wait.0 (omega (arith, wait))
        | inr ne ↦ elim (find_below (λ j. dec_lt (c.barrier.arrived j) (c.barrier.arrived 0)) n) [
          | inr none ↦ barrier-root_moves n c.barrier v ne (λ j p hj. omega (arith, none j hj))
          | inl (j, hj, late) ↦ elim (all j hj) [
            | inl full ↦ absurd (omega (arith, full, late, all 0 (omega arith)))
            | inr wait ↦
                waiting_moves j (ground (arith, late)) hj wait.0
                  (omega (arith, late, calls, root_inside-le c.barrier.root))
          ]
        ]
      ]

  syncs : CanMove n c.barrier → Moves
  syncs (t, step, same) =
      let v = Runs-Kept n fuel heap blocks program r in
      (_, sync step (λ j hj. omega (arith, same j, (v.runs j hj).calls)))

-- In every state that the `n` PEs reach by calls of `shmem_malloc`, where each PE's program has `k`
-- calls with new and different descriptors, its heap began well laid out over a region that is not
-- NULL, and the fuel is enough for all the blocks: either every PE has returned from its `k` calls,
-- or some PE or the network can make a step.
pub shmem_malloc-moves :
    (n fuel k : ℕ) (heap : ℕ → Heap) (blocks : ℕ → Store) (program : ℕ → List Request) (c : Pes)
    → Runs n fuel (begin heap blocks program) c
    → ((i : ℕ) → i < n → length (program i) ≡ k)
    → ((i : ℕ) → i < n → IsFresh (blocks i) (program i))
    → (w : (i : ℕ)
        → i < n
        → IsTwin (heap i).ptr (heap i).ptr (blocks i) (blocks i) (heap i) (heap i))
    → ((i : ℕ) (h : i < n) → num_blocks (w i h) + length (program i) ≤ fuel)
    → ((i : ℕ) (h : i < n) → num_blocks' (w i h) + length (program i) ≤ fuel)
    → ((i : ℕ) → i < n → c.barrier.left i ≡ k) ⊎ ((d : Pes) × Move n fuel c d)
shmem_malloc-moves n fuel k heap blocks program c r lengths f w enough enough' =
    let v = Runs-Kept n fuel heap blocks program r in
    elim (find_below {P = MayAllocate c}
      (λ i. dec_both (ℕ_discrete (length (c.made i)) (c.barrier.left i)) (nonempty (c.todo i))) n) [
        | inl (i, h, may) ↦ inr (
            allocates n fuel k heap blocks program c r i h may (w i h) (f i h) (enough i h)
              (enough' i h))
        | inr none_allocates ↦
            elim (find_below {P = λ i. c.barrier.arrived i < length (c.made i)}
              (λ i. dec_lt (c.barrier.arrived i) (length (c.made i))) n) [
                | inl (i, h, due) ↦
                    let up = made-le-left n fuel heap blocks program r i in
                    let (t, step, few) =
                      can_enter n c.barrier i (Reach-Invariant v.barrier) h
                        (omega (arith, up, due)) in
                    inr (_, sync step (λ j hj. ground (arith, few j, (v.runs j hj).calls, due)))
                | inr none_enters ↦
                    let all = λ (j : ℕ) (h : j < n).
                      stands n fuel k heap blocks program c r j h (lengths j h) (none_allocates j h)
                        (none_enters j h) in
                    elim (find_below {P = λ i. c.barrier.left i < k}
                      (λ i. dec_lt (c.barrier.left i) k) n) [
                        | inl (i, h, behind) ↦ inr (
                            syncs n fuel k heap blocks program c r
                              (waits n fuel k heap blocks program c r all i h behind))
                        | inr none_behind ↦ inl (λ i h. omega (
                          arith,
                          all i h,
                          none_behind i h,
                          left-le-arrived n c.barrier i i v.barrier h h,
                        ))
                      ]
              ]
      ]
