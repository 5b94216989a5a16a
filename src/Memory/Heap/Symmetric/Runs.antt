-- ===== src/Memory/Heap/Symmetric/Runs.antt =====
-- Runs of `heap_malloc` with every pointer that it returned, NULL too.
use mathlib.Core.Path.{subst}
use open_shmem_csci.Base.{
  ℕ, zero, suc, ◌+◌, ◌≤◌, ◌<◌, ◌≡◌, ◌≢◌, ◌⊎◌, ◌∙◌, refl, sym, inl, inr, some, List, [], ◌∷◌, ◌++◌,
  length, get_elem?, arith,
}
use open_shmem_csci.Base.Run.{Run, ok, ◌>>=◌, bind-ok, bind-split}
use open_shmem_csci.Memory.Store.{Store, null}
use open_shmem_csci.Memory.Heap.{Heap, heap_malloc}
use open_shmem_csci.Memory.Heap.Sequence.{Request, IsFresh, IsFresh-kept}
use open_shmem_csci.Memory.Heap.Symmetric.Twin.{
  IsTwin, num_blocks, num_blocks', IsStep, heap_malloc-IsStep,
}
use open_shmem_csci.Memory.Heap.Symmetric.Calls.{AskAlike}

-- the calls one after the other, with the pointers that they return
unfoldable pub malloc_run : ℕ → List Request → Store → Heap → Run (List ℕ × Heap × Store)
malloc_run fuel [] s heap = ok ([], heap, s)
malloc_run fuel (q ∷ qs) s heap = heap_malloc fuel s heap q.fresh q.raw q.bytes >>= λ r.
    malloc_run fuel qs r.2 r.1 >>= λ t. ok (r.0 ∷ t.0, t.1, t.2)

-- both pointers are NULL, or they lie equally far behind `b` and `b'`
abbrev pub SameOffset : (b b' p p' : ℕ) → Type 0
SameOffset b b' p p' = ((p ≡ null) × (p' ≡ null)) ⊎ ((p ≢ null) × (p' ≢ null) × (p + b' ≡ p' + b))

-- the pointers at the place `k` of the two lists are there and alike
abbrev pub AlikeAt : (b b' k : ℕ) → List ℕ → List ℕ → Type 0
AlikeAt b b' k ps ps' =
    (p : ℕ) × (p' : ℕ) × (get_elem? ps k ≡ some p)
    × (get_elem? ps' k ≡ some p')
    × SameOffset b b' p p'

ok_inj : {a b : ℕ × Heap × Store} → ok a ≡ ok b → a ≡ b
ok_inj e = cc

-- a run that ended well, by its first call
run-first :
    (fuel : ℕ) (q : Request) (qs : List Request) (s : Store) (heap : Heap) (r : ℕ × Heap × Store)
    {a : List ℕ × Heap × Store}
    → heap_malloc fuel s heap q.fresh q.raw q.bytes ≡ ok r
    → malloc_run fuel (q ∷ qs) s heap ≡ ok a
    → (t : List ℕ × Heap × Store) × (malloc_run fuel qs r.2 r.1 ≡ ok t)
      × ((r.0 ∷ t.0, t.1, t.2) ≡ a)
unfolding malloc_run
run-first fuel q qs s heap r {a} e run =
    let (r', e', rest) = bind-split (heap_malloc fuel s heap q.fresh q.raw q.bytes) _ a run in
    let same : r' ≡ r = ok_inj (sym e' ∙ e) in
    let (t, run', last) = bind-split (malloc_run fuel qs r'.2 r'.1) _ a rest in
    (
      t,
      subst (λ (x : ℕ × Heap × Store). malloc_run fuel qs x.2 x.1 ≡ ok t) same run',
      subst (λ (x : ℕ × Heap × Store). (x.0 ∷ t.0, t.1, t.2) ≡ a) same (cc),
    )

-- one call more at the end
pub malloc_run-append :
    (fuel : ℕ) (qs : List Request) (q : Request) (s : Store) (heap : Heap)
    (t : List ℕ × Heap × Store) (r : ℕ × Heap × Store)
    → malloc_run fuel qs s heap ≡ ok t
    → heap_malloc fuel t.2 t.1 q.fresh q.raw q.bytes ≡ ok r
    → malloc_run fuel (qs ++ q ∷ []) s heap ≡ ok (t.0 ++ r.0 ∷ [], r.1, r.2)
unfolding malloc_run
malloc_run-append fuel [] q s heap t r run call =
    let same : ([], heap, s) ≡ t = cc in
    subst
      (λ (x : List ℕ × Heap × Store).
        malloc_run fuel (q ∷ []) s heap ≡ ok (x.0 ++ r.0 ∷ [], r.1, r.2))
      same
      (bind-ok _
        (subst
          (λ (x : List ℕ × Heap × Store). heap_malloc fuel x.2 x.1 q.fresh q.raw q.bytes ≡ ok r)
          (sym same) call)
        refl)
malloc_run-append fuel (p ∷ qs) q s heap t r run call =
    let (r', e, rest) = bind-split (heap_malloc fuel s heap p.fresh p.raw p.bytes) _ t run in
    let (u, run', last) = bind-split (malloc_run fuel qs r'.2 r'.1) _ t rest in
    let same : (r'.0 ∷ u.0, u.1, u.2) ≡ t = cc in
    let ih = malloc_run-append fuel qs q r'.2 r'.1 u r run' (
      subst (λ (x : List ℕ × Heap × Store). heap_malloc fuel x.2 x.1 q.fresh q.raw q.bytes ≡ ok r)
        (sym same) call) in
    subst
      (λ (x : List ℕ × Heap × Store).
        malloc_run fuel (p ∷ qs ++ q ∷ []) s heap ≡ ok (x.0 ++ r.0 ∷ [], r.1, r.2))
      same (bind-ok _ e (bind-ok _ ih refl))

AlikeAt-cons :
    (b b' k p p' : ℕ) (ps ps' : List ℕ)
    → SameOffset b b' p p'
    → ((j : ℕ) → suc j ≡ k → AlikeAt b b' j ps ps')
    → AlikeAt b b' k (p ∷ ps) (p' ∷ ps')
AlikeAt-cons b b' zero p p' ps ps' first later = (p, p', refl, refl, first)
AlikeAt-cons b b' (suc k) p p' ps ps' first later = later k refl

-- Two runs over the first calls of sequences that ask alike: what both have returned is alike.
pub malloc_run-AlikeAt :
    (fuel : ℕ) (m t m' t' : List Request) (b b' : ℕ) (s s' : Store) (heap heap' : Heap)
    (a a' : List ℕ × Heap × Store)
    → (w : IsTwin b b' s s' heap heap') → IsFresh s (m ++ t)
    → IsFresh s' (m' ++ t')
    → AskAlike (m ++ t) (m' ++ t')
    → num_blocks w + length (m ++ t) ≤ fuel
    → num_blocks' w + length (m' ++ t') ≤ fuel
    → malloc_run fuel m s heap ≡ ok a
    → malloc_run fuel m' s' heap' ≡ ok a'
    → (k : ℕ) → k < length m
    → k < length m'
    → AlikeAt b b' k a.0 a'.0
malloc_run-AlikeAt fuel [] t m' t' b b' s s' heap heap' a a' w f f' ask enough enough' run run' k h
      h' =
    absurd (omega arith)
malloc_run-AlikeAt fuel (q ∷ m) t [] t' b b' s s' heap heap' a a' w f f' ask enough enough' run run'
      k h h' =
    absurd (omega arith)
malloc_run-AlikeAt fuel (q ∷ m) t (q' ∷ m') t' b b' s s' heap heap' a a' w f f' (same, ask) enough
      enough' run run' k h h' =
    let (r, e, (kept, (r', e', (kept', step)))) =
      heap_malloc-IsStep w q q' same fuel (omega arith) (omega arith) (f.0, f.1, f.2)
        (f'.0, f'.1, f'.2) in
    let (u, rest, whole) = run-first fuel q m s heap r e run in
    let (u', rest', whole') = run-first fuel q' m' s' heap' r' e' run' in
    let ih =
      malloc_run-AlikeAt fuel m t m' t' b b' r.2 r'.2 r.1 r'.1 u u' step.twin
        (IsFresh-kept s r.2 q.fresh (m ++ t) kept f.3 f.4)
        (IsFresh-kept s' r'.2 q'.fresh (m' ++ t') kept' f'.3 f'.4) ask (omega (arith, step.grows))
        (omega (arith, step.grows')) rest rest' in
    let first : SameOffset b b' r.0 r'.0 = elim step.outcome [
      | inl nothing ↦ inl nothing
      | inr (something, something', here) ↦ inr (something, something', here.0)
    ] in
    subst (λ (x : List ℕ × Heap × Store). AlikeAt b b' k x.0 a'.0) whole
      (subst (λ (x : List ℕ × Heap × Store). AlikeAt b b' k (r.0 ∷ u.0) x.0) whole'
        (AlikeAt-cons b b' k r.0 r'.0 u.0 u'.0 first
          (λ j hj. ih j (omega (arith, hj)) (omega (arith, hj)))))

-- after a run over the first calls, the next call ends without a fault
pub malloc_run-next :
    (fuel : ℕ) (m : List Request) (q : Request) (t : List Request) (b : ℕ) (s : Store) (heap : Heap)
    (a : List ℕ × Heap × Store)
    → (w : IsTwin b b s s heap heap) → IsFresh s (m ++ q ∷ t)
    → num_blocks w + length (m ++ q ∷ t) ≤ fuel
    → num_blocks' w + length (m ++ q ∷ t) ≤ fuel
    → malloc_run fuel m s heap ≡ ok a
    → (r : ℕ × Heap × Store) × (heap_malloc fuel a.2 a.1 q.fresh q.raw q.bytes ≡ ok r)
unfolding malloc_run
malloc_run-next fuel [] q t b s heap a w f enough enough' run =
    let (r, e, more) =
      heap_malloc-IsStep w q q refl fuel (omega arith) (omega arith) (f.0, f.1, f.2)
        (f.0, f.1, f.2) in
    let same : ([], heap, s) ≡ a = cc in
    (
      r,
      subst (λ (x : List ℕ × Heap × Store). heap_malloc fuel x.2 x.1 q.fresh q.raw q.bytes ≡ ok r)
          same e,
    )
malloc_run-next fuel (p ∷ m) q t b s heap a w f enough enough' run =
    let (r, e, (kept, (r', e', (kept', step)))) =
      heap_malloc-IsStep w p p refl fuel (omega arith) (omega arith) (f.0, f.1, f.2)
        (f.0, f.1, f.2) in
    let same : r' ≡ r = ok_inj (sym e' ∙ e) in
    let twin = subst (λ (x : ℕ × Heap × Store). IsStep w p p refl r x) same step in
    let (u, rest, whole) = run-first fuel p m s heap r e run in
    let (x, call) =
      malloc_run-next fuel m q t b r.2 r.1 u twin.twin
        (IsFresh-kept s r.2 p.fresh (m ++ q ∷ t) kept f.3 f.4) (omega (arith, twin.grows))
        (omega (arith, twin.grows')) rest in
    (
      x,
      subst (λ (y : List ℕ × Heap × Store). heap_malloc fuel y.2 y.1 q.fresh q.raw q.bytes ≡ ok x)
          whole call,
    )
