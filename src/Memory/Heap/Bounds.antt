-- ===== src/Memory/Heap/Bounds.antt =====
-- What the layout means for the addresses that a client holds.
use open_shmem_csci.Base.{
  ℕ, ◌+◌, ◌^◌, ◌≤◌, ◌<◌, ◌≡◌, ◌≢◌, ◌∙◌, ◌⊎◌, refl, ap, inl, inr, some, List, [], ◌∷◌, ◌++◌, arith,
  All, All-mono, All-append,
}
use open_shmem_csci.Memory.Store.{Store, Block, block, null, update_self}
use open_shmem_csci.Memory.HashMap.Entry.{IsEntry, hashmap_init-IsTable}
use open_shmem_csci.Memory.Heap.{Heap, num_buckets, heap_init, heap_offset}
use open_shmem_csci.Memory.Heap.Search.{sub64_lem}
use open_shmem_csci.Memory.Heap.Cells.{Cell, cell, cell_end, start, Fits, Fits-split, start-le}
use open_shmem_csci.Memory.Heap.Malloc.Layout.{IsHeap}

-- two blocks share no byte
abbrev pub IsApart : Cell → Cell → Type 0
IsApart c d = (cell_end c ≤ d.ptr) ⊎ (cell_end d ≤ c.ptr)

-- the cells of a chain lie between its start and its limit
Fits-bounds :
    (lim : ℕ) (cs : List Cell)
    → Fits lim cs
    → All (λ c. (start lim cs ≤ c.ptr) × (cell_end c ≤ lim)) cs
Fits-bounds lim [] h = tt
Fits-bounds lim (c ∷ cs) h =
    let le = start-le lim cs h.1 in
    (
      (omega arith, omega arith),
      All-mono (λ d. (start lim cs ≤ d.ptr) × (cell_end d ≤ lim)) _
          (λ d p. (omega (arith, p.0, h.0), p.1)) cs (Fits-bounds lim cs h.1),
    )

module _ {s : Store} {heap : Heap} {before behind : List Cell} {h : Cell}
    (is : IsHeap s heap before h behind) where
  -- On a heap that is laid out well every block lies in the region, and the head, which
  -- `heap_malloc` makes the block that it returns, shares no byte with any other block.
  pub IsHeap-IsApart :
      All (λ c. (heap.ptr ≤ c.ptr) × (cell_end c ≤ heap.ptr + heap.size)) (before ++ h ∷ behind)
      × All (IsApart h) (before ++ behind)
  IsHeap-IsApart =
      let lim = heap.ptr + heap.size in
      let (f, g) = Fits-split lim before (h ∷ behind) is.fits in
      (
        All-mono (λ c. (start lim (before ++ h ∷ behind) ≤ c.ptr) × (cell_end c ≤ lim)) _
            (λ c p. (omega (arith, p.0, is.above), p.1)) (before ++ h ∷ behind)
            (Fits-bounds lim (before ++ h ∷ behind) is.fits),
        All-append (IsApart h) before behind
            (All-mono (λ c. (start h.ptr before ≤ c.ptr) × (cell_end c ≤ h.ptr)) (IsApart h)
              (λ c p. inr p.1) before (Fits-bounds h.ptr before f))
            (All-mono (λ c. (start lim behind ≤ c.ptr) × (cell_end c ≤ lim)) (IsApart h)
              (λ c p. inl (omega (arith, p.0, g.0))) behind (Fits-bounds lim behind g.1)),
      )

-- `heap_init` over a region that ends below 2^63, with a block address below 2^63 whose memory
-- happens to hold NULL for `next`, gives a heap that is laid out well: its chain is the empty
-- block at the beginning of the region.
pub heap_init-IsHeap :
    (s : Store) (fresh : ℕ) (raw : Block) (region size : ℕ)
    → raw.next ≡ null
    → fresh ≢ null
    → fresh < 2 ^ 63
    → region + size < 2 ^ 63
    → IsHeap
        (heap_init s fresh raw region size).1
        (heap_init s fresh raw region size).0
        []
        (cell fresh region 0)
        []
unfolding heap_init
heap_init-IsHeap s fresh raw region size clear ne low small = record {
  linked = (ne, low, update_self s fresh _ ∙ ap (λ n. some (block region 0 n)) clear, tt);
  fits = (omega arith, tt);
  distinct = (tt, tt);
  at_head = refl;
  at_tail = refl;
  above = omega arith;
  small = small;
  table = hashmap_init-IsTable (IsEntry _) num_buckets (omega arith);
}

-- For an address in a region that ends below 2^63, the offset is below the size, and the region's
-- beginning plus the offset is the address.
pub heap_offset-add :
    (heap : Heap) (ptr : ℕ)
    → heap.ptr ≤ ptr
    → ptr < heap.ptr + heap.size
    → heap.ptr + heap.size < 2 ^ 63
    → (heap_offset heap ptr < heap.size) × (heap.ptr + heap_offset heap ptr ≡ ptr)
unfolding heap_offset
heap_offset-add heap ptr h k small =
    rw (sub64_lem ptr heap.ptr h (omega arith)) (omega arith, omega arith)
