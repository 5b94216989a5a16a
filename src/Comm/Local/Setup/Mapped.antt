-- ===== src/Comm/Local/Setup/Mapped.antt =====
-- What `comm_local_wireup` leaves in the array of mappings: the heap of every PE of the node.
use native.Mathlib.Decide.{ℕ_discrete}
use mathlib.Core.Path.{subst}
use open_shmem_csci.Base.{
  ℕ, zero, suc, ◌+◌, ◌*◌, ◌^◌, ◌≤◌, ◌<◌, ◌≡◌, ◌≢◌, ◌⊎◌, ◌∙◌, inl, inr, refl, sym, ap, Option, none,
  some, List, ==_refl, ne→==, lt→ltb, get_elem?, set, length, length-set, get_elem?-set_self,
  get_elem?-set_ne, get_elem?-some, arith,
}
use open_shmem_csci.Base.Run.{Run, ok, Returns, bind-ok, of_option, write_at}
use open_shmem_csci.Rte.{room}
use open_shmem_csci.Memory.SharedHeap.{SharedHeap}
use open_shmem_csci.Memory.SharedMem.{map_failed, shared_mem_open-success, shared_mem_open-failure}
use open_shmem_csci.Comm.Local.Setup.{
  Local, symmetric_heap_size, held, unless_zero, wireup_loop, comm_local_wireup,
}

pub length-held : (raw : ℕ → ℕ) (n i : ℕ) → length (held raw n i) ≡ n
unfolding held
length-held raw zero i = refl
length-held raw (suc n) i = ap suc (length-held raw n (i + 1))

room_few : (n : ℕ) → n < 2 ^ 31 → room n ≡ n
unfolding room
room_few n few = rw (lt→ltb n (2 ^ 31) few) refl

module _ (shm_open : (key : ℕ) → Option ℕ) (mmap : (fd size : ℕ) → ℕ) (array my : ℕ) where
  -- how the loop goes on from the result for `i`
  abbrev after_open : (k i : ℕ) → List ℕ → Option ℕ × ℕ → Run (List ℕ)
  after_open k i memory r =
      let memory' = set memory i r.1 in
      unless_zero r.0 (ok memory') (wireup_loop shm_open mmap k array my (i + 1) memory')

  own_entry :
      (k : ℕ) (memory : List ℕ)
      → wireup_loop shm_open mmap (suc k) array my my memory
        ≡ wireup_loop shm_open mmap k array my (my + 1) memory
  unfolding wireup_loop
  own_entry k memory = rw (==_refl my) refl

  opened_entry :
      (k i fd old : ℕ) (memory : List ℕ)
      → i ≢ my
      → get_elem? memory i ≡ some old
      → shm_open i ≡ some fd
      → fd ≢ 0
      → array + 8 * i ≢ map_failed
      → wireup_loop shm_open mmap (suc k) array my i memory
        ≡ wireup_loop shm_open mmap k array my (i + 1) (set memory i (mmap fd symmetric_heap_size))
  unfolding wireup_loop unless_zero
  opened_entry k i fd old memory other there opened positive named =
      let e =
        shared_mem_open-success shm_open mmap i symmetric_heap_size (array + 8 * i) old fd opened
          named in
      rw (ne→== i my other) (
        bind-ok _ (ap of_option there)
          (ap (after_open k i memory) e ∙ rw (ne→== fd 0 positive) refl))

  refused_entry :
      (k i old : ℕ) (memory : List ℕ)
      → i ≢ my
      → get_elem? memory i ≡ some old
      → shm_open i ≡ none
      → wireup_loop shm_open mmap (suc k) array my i memory
        ≡ wireup_loop shm_open mmap k array my (i + 1) (set memory i old)
  unfolding wireup_loop unless_zero
  refused_entry k i old memory other there refused =
      let e =
        shared_mem_open-failure shm_open mmap i symmetric_heap_size (array + 8 * i) old refused in
      rw (ne→== i my other) (bind-ok _ (ap of_option there) (ap (after_open k i memory) e))

  -- What the loop makes of the entries from `i` on when every one of the `k` objects opens: the mapped
  -- addresses, without a change to the other entries.
  abbrev IsWired : (fd : ℕ → ℕ) (k i : ℕ) (before after : List ℕ) → Type 0
  IsWired fd k i before after =
      (length after ≡ length before)
      × ((j : ℕ)
          → i ≤ j
          → j < i + k
          → j ≢ my
          → get_elem? after j ≡ some (mmap (fd j) symmetric_heap_size))
      × ((j : ℕ) → (j < i) ⊎ (j ≡ my) → get_elem? after j ≡ get_elem? before j)

  module _ (fd : ℕ → ℕ) (n : ℕ) (opened : (i : ℕ) → i < n → i ≢ my → shm_open i ≡ some (fd i))
      (positive : (i : ℕ) → i < n → i ≢ my → fd i ≢ 0)
      (named : (i : ℕ) → i < n → array + 8 * i ≢ map_failed) where
    IsWired-next :
        (k i : ℕ) (before after : List ℕ)
        → i < length before
        → i ≢ my
        → IsWired fd k (i + 1) (set before i (mmap (fd i) symmetric_heap_size)) after
        → IsWired fd (suc k) i before after
    IsWired-next k i before after below other (len, new, old) = (
      len ∙ length-set before i _,
      λ j from to apart. elim (ℕ_discrete i j) [
        | yes e ↦
            subst (λ x. get_elem? after x ≡ some (mmap (fd x) symmetric_heap_size)) e
              (old i (inl (omega arith)) ∙ get_elem?-set_self before i _ below)
        | no apart' ↦ new j (omega (arith, apart')) (omega arith) apart
      ],
      λ j kept.
          old j (elim kept [ inl l ↦ inl (omega arith) | inr e ↦ inr e ])
          ∙ get_elem?-set_ne before _
              (elim kept [ inl l ↦ λ e. absurd (omega arith) | inr e ↦ λ e'. other (e' ∙ e) ]),
    )

    IsWired-own :
        (k : ℕ) (before after : List ℕ)
        → IsWired fd k (my + 1) before after
        → IsWired fd (suc k) my before after
    IsWired-own k before after (len, new, old) = (
      len,
      λ j from to apart. new j (omega (arith, apart)) (omega arith) apart,
      λ j kept. old j (elim kept [ inl l ↦ inl (omega arith) | inr e ↦ inr e ]),
    )

    wireup_loop-IsWired :
        (k i : ℕ) (memory : List ℕ)
        → i + k ≡ n
        → length memory ≡ n
        → Returns (wireup_loop shm_open mmap k array my i memory) (IsWired fd k i memory)
    unfolding wireup_loop
    wireup_loop-IsWired zero i memory last len =
        (memory, refl, (refl, λ j from to apart. absurd (omega arith), λ j kept. refl))
    wireup_loop-IsWired (suc k) i memory last len = elim (ℕ_discrete i my) [
      | yes e ↦ own e (wireup_loop-IsWired k (i + 1) memory (omega arith) len)
      | no other ↦
          let (old, there) = get_elem?-some memory i (omega arith) in
          let (m, run, wired) =
            wireup_loop-IsWired k (i + 1) (set memory i (mmap (fd i) symmetric_heap_size))
              (omega arith) (length-set memory i _ ∙ len) in
          (
            m,
            opened_entry k i (fd i) old memory other there (opened i (omega arith) other)
                  (positive i (omega arith) other) (named i (omega arith))
                ∙ run,
            IsWired-next k i memory m (omega arith) other wired,
          )
    ]
      where
        own :
            i ≡ my
            → Returns
                (wireup_loop shm_open mmap k array my (i + 1) memory)
                (IsWired fd k (i + 1) memory)
            → Returns
                (wireup_loop shm_open mmap (suc k) array my i memory)
                (IsWired fd (suc k) i memory)
        own e (m, run, wired) = (
          m,
          subst (λ x. wireup_loop shm_open mmap (suc k) array my x memory ≡ ok m) (sym e)
              (own_entry k memory
                ∙ subst (λ x. wireup_loop shm_open mmap k array my (x + 1) memory ≡ ok m) e run),
          subst (λ x. IsWired fd (suc k) x memory m) (sym e)
              (IsWired-own k memory m (subst (λ x. IsWired fd k (x + 1) memory m) e wired)),
        )

module _ (shm_open : (key : ℕ) → Option ℕ) (mmap : (fd size : ℕ) → ℕ) (array : ℕ) (raw : ℕ → ℕ)
    (l : Local) (h : SharedHeap) (fd : ℕ → ℕ)
    (opened : (i : ℕ) → i < l.n_local_pes → i ≢ l.my_local_pe → shm_open i ≡ some (fd i))
    (positive : (i : ℕ) → i < l.n_local_pes → i ≢ l.my_local_pe → fd i ≢ 0)
    (named : (i : ℕ) → i < l.n_local_pes → array + 8 * i ≢ map_failed) where
  -- When the symmetric heap was created, the own PE is below the number of local PEs, which is an `int`, every other local
  -- PE's object opens with a descriptor other than 0, and no entry of the array lies at `MAP_FAILED`,
  -- then wiring up returns: the array has an entry for each local PE, the own entry is the own heap, and
  -- every other one is where `mmap` mapped the object of that PE, whatever the array held before.
  pub comm_local_wireup-mapped :
      l.symmetric_heap ≡ some h
      → l.my_local_pe < l.n_local_pes
      → l.n_local_pes < 2 ^ 31
      → Returns (comm_local_wireup shm_open mmap array raw l) (λ l'.
        (l'.symmetric_heap ≡ l.symmetric_heap)
        × (length l'.shared_memory ≡ l.n_local_pes)
        × (get_elem? l'.shared_memory l.my_local_pe ≡ some h.heap.ptr)
        × ((i : ℕ)
            → i < l.n_local_pes
            → i ≢ l.my_local_pe
            → get_elem? l'.shared_memory i ≡ some (mmap (fd i) symmetric_heap_size)))
  unfolding comm_local_wireup
  comm_local_wireup-mapped created below few = rw (room_few l.n_local_pes few) (
      let start = held raw l.n_local_pes 0 in
      let len = length-held raw l.n_local_pes 0 in
      let memory = set start l.my_local_pe h.heap.ptr in
      let len' = length-set start l.my_local_pe h.heap.ptr ∙ len in
      let inside : l.my_local_pe < length start = omega (arith, below, len) in
      let written : write_at start l.my_local_pe h.heap.ptr ≡ ok memory =
        rw (lt→ltb l.my_local_pe (length start) inside) refl in
      let (m, run, (size, new, old)) =
        wireup_loop-IsWired shm_open mmap array l.my_local_pe fd l.n_local_pes opened positive named
          l.n_local_pes 0 memory (omega arith) len' in
      (
        record l { shared_memory = m },
        bind-ok _ (ap of_option created) (bind-ok _ written (bind-ok _ run refl)),
        (
          refl,
          size ∙ len',
          old l.my_local_pe (inr refl) ∙ get_elem?-set_self start l.my_local_pe h.heap.ptr inside,
          λ i lt apart. new i (omega arith) (omega (arith, lt)) apart,
        ),
      ))
