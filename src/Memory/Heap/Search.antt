-- ===== src/Memory/Heap/Search.antt =====
-- The loop of `heap_malloc` is the next-fit rule: it walks once round the chain from the head, and
-- stops at the first block with room behind it, or says that there is none.
use open_shmem_csci.Base.{
  ℕ, suc, ◌+◌, ◌-◌, ◌^◌, ◌≤◌, ◌<◌, ◌≡◌, ◌≢◌, ◌∙◌, ◌⊎◌, refl, sym, ap, inl, inr, false, Option, none,
  some, List, [], ◌∷◌, ◌++◌, arith, ltb, ◌==◌, ==_refl, ne→==, if◌then◌else◌, Bool-cases, length,
}
use mathlib.Core.Path.{subst}
use open_shmem_csci.Base.Run.{Run, ok, ◌>>=◌}
use open_shmem_csci.Memory.Store.{Store, Block, block, null, load_lem}
use open_shmem_csci.Memory.Heap.{Heap, sub64, block_gap, next_block, search}
use open_shmem_csci.Memory.Heap.Cells.{
  Cell, cell_end, first, start, Linked, Fits, Avoids, Distinct, first_fit, Linked-split, Fits-split,
  Distinct-middle, start-le, first-append,
}

pub sub64_lem : (a b : ℕ) → b ≤ a → a < 2 ^ 64 → sub64 a b ≡ a - b
unfolding sub64
sub64_lem a b h k = omega arith

-- what stands at the end of a stretch of the chain: its last block, or a live block at `lim`
abbrev pub Stop : Store → Heap → ℕ → ℕ → Type 0
Stop s heap stop lim =
    ((stop ≡ null) × (lim ≡ heap.ptr + heap.size))
    ⊎ ((stop ≢ null) × (b : Block) × (s stop ≡ some b) × (b.ptr ≡ lim))

-- fuel for a walk over the cells, and `k` rounds more
abbrev pub rounds : List Cell → ℕ → ℕ
rounds [] k = k
rounds (c ∷ cs) k = suc (rounds cs k)

pub rounds-length : (cs : List Cell) (k : ℕ) → rounds cs k ≡ length cs + k
rounds-length [] k = omega arith
rounds-length (c ∷ cs) k = omega (arith, rounds-length cs k)

abbrev pub after : Heap → ℕ → ℕ
after heap stop = if stop == null then heap.tail else stop

-- the outcome of a walk that found nothing up to `stop`
abbrev pub onward : Store → Heap → ℕ → ℕ → ℕ → Option ℕ → Run (Option ℕ)
onward s heap bytes stop k (some i) = ok (some i)
onward s heap bytes stop k none =
    if after heap stop == heap.head then ok none else search k s heap bytes (after heap stop)

module _ (s : Store) (heap : Heap) (bytes stop lim : ℕ) (end : Stop s heap stop lim)
    (small : lim < 2 ^ 64) where
  -- the free room behind a block of the stretch
  block_gap_lem :
      (c : Cell) (cs : List Cell)
      → Linked s stop (c ∷ cs)
      → Fits lim (c ∷ cs)
      → block_gap s heap (block c.ptr c.size (first stop cs)) ≡ ok (start lim cs - cell_end c)
  unfolding block_gap
  block_gap_lem c (d ∷ cs) h f = rw (
    ne→== d.id null h.3.0,
    load_lem s d.id h.3.0 h.3.2,
    ◌>>=◌,
    sub64_lem d.ptr (cell_end c) f.0 (omega (arith, start-le lim (d ∷ cs) f.1)),
  )
  block_gap_lem c [] h f = elim end [
    | inl (e, l) ↦ rw (e, ← l, sub64_lem lim (cell_end c) f.0 small)
    | inr (ne, b, live, at) ↦ rw (
      ne→== stop null ne,
      load_lem s stop ne live,
      ◌>>=◌,
      at,
      sub64_lem lim (cell_end c) f.0 small,
    )
  ]

  -- one round at a block that is not the last of the stretch
  step-inner :
      (k : ℕ) (c d : Cell) (cs : List Cell)
      → Linked s stop (c ∷ d ∷ cs)
      → Fits lim (c ∷ d ∷ cs)
      → d.id ≢ heap.head
      → search (suc k) s heap bytes c.id
        ≡ (if ltb (d.ptr - cell_end c) bytes then search k s heap bytes d.id else ok (some c.id))
  unfolding search next_block
  step-inner k c d cs h f ne = rw (
    load_lem s c.id h.0 h.2,
    ◌>>=◌,
    block_gap_lem c (d ∷ cs) h f,
    ne→== d.id null h.3.0,
    ne→== d.id heap.head ne,
  )

  step-last :
      (k : ℕ) (c : Cell)
      → Linked s stop (c ∷ [])
      → Fits lim (c ∷ [])
      → search (suc k) s heap bytes c.id
        ≡ (if ltb (lim - cell_end c) bytes then onward s heap bytes stop k none else ok (some c.id))
  unfolding search next_block
  step-last k c h f = rw (load_lem s c.id h.0 h.2, ◌>>=◌, block_gap_lem c [] h f)

  -- A walk over a stretch of the chain is the first fit in it.
  pub search-first_fit :
      (k : ℕ) (c : Cell) (cs : List Cell)
      → Linked s stop (c ∷ cs)
      → Fits lim (c ∷ cs)
      → Avoids heap.head cs
      → search (suc (rounds cs k)) s heap bytes c.id
        ≡ onward s heap bytes stop k (first_fit bytes lim (c ∷ cs))
  unfolding first_fit
  search-first_fit k c [] h f a =
      rw (step-last k c h f) (elim (Bool-cases (ltb (lim - cell_end c) bytes)) [
        | inl tight ↦ rw tight
        | inr room ↦ rw room
      ])
  search-first_fit k c (d ∷ cs) h f a =
      let ih = search-first_fit k d cs h.3 f.1 a.1 in
      rw (step-inner (rounds (d ∷ cs) k) c d cs h f a.0)
        (elim (Bool-cases (ltb (d.ptr - cell_end c) bytes)) [
          | inl tight ↦ rw tight ih
          | inr room ↦ rw room
        ])

-- from the head to the end of the chain, and then from the tail up to the head
unfoldable pub next_fit : ℕ → ℕ → List Cell → Cell → List Cell → Option ℕ
next_fit bytes lim before h behind = elim (first_fit bytes lim (h ∷ behind)) [
  | some i ↦ some i
  | none ↦ first_fit bytes h.ptr before
]

module _ (s : Store) (heap : Heap) (bytes : ℕ) (before : List Cell) (h : Cell) (behind : List Cell)
    (linked : Linked s null (before ++ h ∷ behind))
    (fits : Fits (heap.ptr + heap.size) (before ++ h ∷ behind))
    (distinct : Distinct (before ++ h ∷ behind)) (at_head : heap.head ≡ h.id)
    (at_tail : heap.tail ≡ first null (before ++ h ∷ behind))
    (small : heap.ptr + heap.size < 2 ^ 64) where
  module _ (k : ℕ) where
    -- the second part of the walk, from the tail up to the head
    search-before :
        (front : List Cell)
        → Linked s h.id front
        → Fits h.ptr front
        → Avoids h.id front
        → heap.tail ≡ first h.id front
        → (if heap.tail == heap.head
            then ok none
            else search (rounds front k) s heap bytes heap.tail)
          ≡ ok (first_fit bytes h.ptr front)
    unfolding first_fit
    search-before [] l f a e = rw (e, at_head, ==_refl h.id)
    search-before (c ∷ cs) l f a e =
        let mid = Linked-split s null before (h ∷ behind) linked in
        let fit = (Fits-split (heap.ptr + heap.size) before (h ∷ behind) fits).1 in
        let le = start-le (heap.ptr + heap.size) (h ∷ behind) fit in
        let e' : heap.tail ≡ c.id = e in
        let head_null : (h.id == null) ≡ false = ne→== h.id null mid.1.0 in
        rw (ne→== heap.tail heap.head (λ q. a.0 (sym e' ∙ q ∙ at_head))) (
          ap (λ p. search (rounds (c ∷ cs) k) s heap bytes p) e'
          ∙ search-first_fit s heap bytes h.id h.ptr
              (inr (mid.1.0, block h.ptr h.size (first null behind), mid.1.2, refl)) (omega arith) k
              c cs l f (subst (λ i. Avoids i cs) (sym at_head) a.1)
          ∙ finish (first_fit bytes h.ptr (c ∷ cs)) head_null)
      where
        finish : (o : Option ℕ) → (h.id == null) ≡ false → onward s heap bytes h.id k o ≡ ok o
        finish none e = rw (e, at_head, ==_refl h.id)
        finish (some i) e = refl

    -- On a chain that is linked from its first block, the tail, and fits into a region below 2^64, with
    -- the head one of its blocks: with a round for each block the loop ends, and finds what the
    -- next-fit rule finds, which looks from the head to the end and then from the tail to the head.
    pub search-next_fit :
        search (rounds (h ∷ behind) (rounds before k)) s heap bytes heap.head
        ≡ ok (next_fit bytes (heap.ptr + heap.size) before h behind)
    unfolding next_fit
    search-next_fit =
        let (l, l') = Linked-split s null before (h ∷ behind) linked in
        let (f, f') = Fits-split (heap.ptr + heap.size) before (h ∷ behind) fits in
        let (a, a') = Distinct-middle before h behind distinct in
        (ap (λ p. search (rounds (h ∷ behind) (rounds before k)) s heap bytes p) at_head
          ∙ search-first_fit s heap bytes null (heap.ptr + heap.size) (inl (refl, refl)) small
              (rounds before k) h behind l' f' (subst (λ i. Avoids i behind) (sym at_head) a')
          ∙ go (first_fit bytes (heap.ptr + heap.size) (h ∷ behind))
              (search-before before l f a (at_tail ∙ first-append null before (h ∷ behind))))
      where
        go :
            (o : Option ℕ)
            → (if heap.tail == heap.head
                then ok none
                else search (rounds before k) s heap bytes heap.tail)
              ≡ ok (first_fit bytes h.ptr before)
            → onward s heap bytes null (rounds before k) o
              ≡ ok (elim o [ some i ↦ some i | none ↦ first_fit bytes h.ptr before ])
        go none e = e
        go (some i) e = refl
