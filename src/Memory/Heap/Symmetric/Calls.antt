-- ===== src/Memory/Heap/Symmetric/Calls.antt =====
-- The symmetric heap: two PEs that allocate alike get the same offsets.
use open_shmem_csci.Base.{ℕ, ◌+◌, ◌≤◌, ◌≡◌, refl, inl, inr, List, [], ◌∷◌, ne→==, length, arith}
use open_shmem_csci.Base.Run.{bind-ok, Returns}
use open_shmem_csci.Memory.Store.{Store, null}
use open_shmem_csci.Memory.Heap.{Heap}
use open_shmem_csci.Memory.Heap.Sequence.{Request, malloc_all, IsFresh, IsFresh-kept}
use open_shmem_csci.Memory.Heap.Symmetric.{Sames}
use open_shmem_csci.Memory.Heap.Symmetric.Twin.{IsTwin, num_blocks, num_blocks', heap_malloc-IsStep}

-- calls that ask for the same sizes
abbrev pub AskAlike : List Request → List Request → Type 0
AskAlike [] [] = Unit
AskAlike [] (q' ∷ qs') = ⊥
AskAlike (q ∷ qs) [] = ⊥
AskAlike (q ∷ qs) (q' ∷ qs') = (q.bytes ≡ q'.bytes) × AskAlike qs qs'

-- On two heaps of one size that are laid out well over regions other than NULL, with blocks of the same
-- sizes at the same offsets and the same block for the head: two sequences of calls of `heap_malloc` that
-- ask for the same sizes, with new and different descriptors and enough fuel, end without a fault, and
-- the blocks that they return are the same in number and sizes, and at the same offsets from the regions.
pub malloc_all-Sames :
    (fuel : ℕ) (qs qs' : List Request) (b b' : ℕ) (s s' : Store) (heap heap' : Heap)
    → (t : IsTwin b b' s s' heap heap') → IsFresh s qs
    → IsFresh s' qs'
    → AskAlike qs qs'
    → num_blocks t + length qs ≤ fuel
    → num_blocks' t + length qs' ≤ fuel
    → Returns
        (malloc_all fuel qs s heap)
        (λ a. Returns (malloc_all fuel qs' s' heap') (λ a'. Sames b b' a.0 a'.0))
unfolding malloc_all
malloc_all-Sames fuel [] [] b b' s s' heap heap' t f f' ask enough enough' =
    (([], heap, s), refl, (([], heap', s'), refl, tt))
malloc_all-Sames fuel [] (q' ∷ qs') b b' s s' heap heap' t f f' ask enough enough' = absurd ask
malloc_all-Sames fuel (q ∷ qs) [] b b' s s' heap heap' t f f' ask enough enough' = absurd ask
malloc_all-Sames fuel (q ∷ qs) (q' ∷ qs') b b' s s' heap heap' t f f' (same, ask) enough enough' =
    let (r, e, (kept, (r', e', (kept', step)))) =
      heap_malloc-IsStep t q q' same fuel (omega arith) (omega arith) (f.0, f.1, f.2)
        (f'.0, f'.1, f'.2) in
    let (a, run, (a', run', sames)) =
      malloc_all-Sames fuel qs qs' b b' r.2 r'.2 r.1 r'.1 step.twin
        (IsFresh-kept s r.2 q.fresh qs kept f.3 f.4)
        (IsFresh-kept s' r'.2 q'.fresh qs' kept' f'.3 f'.4) ask (omega (arith, step.grows))
        (omega (arith, step.grows')) in
    (
      _,
      bind-ok _ e (bind-ok _ run refl),
      (
        _,
        bind-ok _ e' (bind-ok _ run' refl),
        (elim step.outcome [
          | inl (nothing, nothing') ↦ rw (nothing, nothing') sames
          | inr (some_address, some_address', here) ↦
              rw (ne→== r.0 null some_address, ne→== r'.0 null some_address') (here, sames)
        ]),
      ),
    )
