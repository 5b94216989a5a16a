-- ===== src/Memory/Heap/Malloc.antt =====
-- `heap_malloc`: on a heap that is laid out well it ends without a fault, puts the new block into
-- the gap that the next-fit rule chooses, and keeps the layout; it returns NULL just where no gap
-- of the whole heap is large enough.
pub mod Fit
pub mod Layout
pub mod Insertion
use open_shmem_csci.Base.{
  ℕ, ◌+◌, ◌-◌, ◌^◌, ◌≤◌, ◌<◌, ◌≡◌, ◌≢◌, ◌∙◌, ◌⊎◌, refl, sym, ap, inl, inr, Bool, true, false,
  Option, none, some, List, [], ◌∷◌, ◌++◌, arith, ◌==◌, ne→==, if◌then◌else◌, length, length-append,
}
use mathlib.Core.Path.{subst}
use open_shmem_csci.Base.Run.{Run, ok, ◌>>=◌, Returns}
use open_shmem_csci.Memory.Store.{
  Store, Block, block, null, load, load_lem, update, update_ne, update_self,
}
use open_shmem_csci.Memory.HashMap.{HashMap, hashmap_set}
use open_shmem_csci.Memory.HashMap.Entry.{IsEntry, IsTable, IsTable-mono}
use open_shmem_csci.Memory.HashMap.Lookup.{hashmap_set-IsTable}
use open_shmem_csci.Memory.Heap.{Heap, insert_behind, heap_malloc, search}
use open_shmem_csci.Memory.Heap.Cells.{
  Cell, cell, cell_end, first, start, Linked, Fits, Avoids, Distinct, Linked-split, Linked-update,
  Linked-Avoids, Fits-split, Avoids-split, Distinct-middle, start-le,
}
use open_shmem_csci.Memory.Heap.Search.{next_fit, search-next_fit, rounds, rounds-length}
use open_shmem_csci.Memory.Heap.Insert.{
  allocated, inserted, inserted_ne, IsEntry-allocated, IsEntry-inserted, IsEntry-inserted_self,
  IsEntry-inserted_fresh, Linked-inserted,
}
use open_shmem_csci.Memory.Heap.Malloc.Layout.{IsHeap, insert-IsHeap}
use open_shmem_csci.Memory.Heap.Malloc.Fit.{IsRoom, IsTight, next_fit-IsRoom, next_fit-IsTight}
use open_shmem_csci.Memory.Heap.Malloc.Insertion.{insert_behind_lem}

-- `heap_malloc` returned the block behind `chosen`, and the chain has it there
pub record IsPlaced (heap : Heap) (chain : List Cell) (fresh bytes : ℕ) (r : ℕ × Heap × Store)
    : Type 0 where
  pub before : List Cell
  pub chosen : Cell
  pub behind : List Cell
  pub split : chain ≡ before ++ chosen ∷ behind
  pub room : bytes ≤ start (heap.ptr + heap.size) behind - cell_end chosen
  pub returns : r.0 ≡ cell_end chosen
  pub same_ptr : r.1.ptr ≡ heap.ptr
  pub same_size : r.1.size ≡ heap.size
  pub laid_out : IsHeap r.2 r.1 (before ++ chosen ∷ []) (cell fresh (cell_end chosen) bytes) behind

module _ {s : Store} {heap : Heap} {before behind : List Cell} {h : Cell}
    (is : IsHeap s heap before h behind) (fresh : ℕ) (raw : Block) (bytes : ℕ)
    (unused : s fresh ≡ none) (ne_null : fresh ≢ null) (low : fresh < 2 ^ 63) where
  -- The two outcomes: no gap of the heap is large enough, NULL is returned and the heap stays laid
  -- out as it was; or the block is placed where the rule says. The store has no other new block.
  abbrev pub IsMalloc : ℕ × Heap × Store → Type 0
  IsMalloc r =
      ((p : ℕ) → p ≢ fresh → s p ≡ none → r.2 p ≡ none)
      × ((IsTight bytes (heap.ptr + heap.size) (before ++ h ∷ behind)
            × (r.0 ≡ null)
            × (r.1 ≡ heap)
            × IsHeap r.2 heap before h behind)
          ⊎ ((p : IsPlaced heap (before ++ h ∷ behind) fresh bytes r) × (next_fit bytes
                  (heap.ptr + heap.size) before h behind
                ≡ some p.chosen.id)))

  s₁ : Store
  s₁ = allocated s fresh (record raw { size = bytes })

  avoids : Avoids fresh (before ++ h ∷ behind)
  avoids = Linked-Avoids s null fresh (before ++ h ∷ behind) unused is.linked

  allocated-IsHeap : IsHeap s₁ heap before h behind
  unfolding s₁
  allocated-IsHeap = record {
    linked = Linked-update s null fresh _ (before ++ h ∷ behind) avoids is.linked;
    fits = is.fits;
    distinct = is.distinct;
    at_head = is.at_head;
    at_tail = is.at_tail;
    above = is.above;
    small = is.small;
    table =
        IsTable-mono (IsEntry s) (IsEntry _) (IsEntry-allocated s fresh _ unused ne_null low)
          is.table;
  }

  search_lem :
      (fuel : ℕ)
      → length (before ++ h ∷ behind) ≤ fuel
      → search fuel s₁ heap bytes heap.head
        ≡ ok (next_fit bytes (heap.ptr + heap.size) before h behind)
  search_lem fuel enough =
      let k = fuel - length (before ++ h ∷ behind) in
      let e : fuel ≡ rounds (h ∷ behind) (rounds before k) = omega (
        arith,
        rounds-length (h ∷ behind) (rounds before k),
        rounds-length before k,
        length-append before (h ∷ behind),
      ) in
      ap (λ n. search n s₁ heap bytes heap.head) e
      ∙ search-next_fit s₁ heap bytes before h behind allocated-IsHeap.linked is.fits is.distinct
          is.at_head is.at_tail (omega (arith, is.small)) k

  place :
      (i : ℕ)
      → next_fit bytes (heap.ptr + heap.size) before h behind ≡ some i
      → Returns (insert_behind s₁ heap fresh i) IsMalloc
  unfolding s₁
  place i chosen =
      let lim = heap.ptr + heap.size in
      let raw' : Block = record raw { size = bytes } in
      let r = next_fit-IsRoom bytes lim before h behind i chosen in
      let linked = subst (Linked s null) r.split is.linked in
      let live = (Linked-split s null r.before (r.chosen ∷ r.behind) linked).1.2 in
      let distinct = subst Distinct r.split is.distinct in
      let fits = (Fits-split lim r.before _ (subst (Fits lim) r.split is.fits)).1 in
      let below : cell_end r.chosen < 2 ^ 63 =
        omega (arith, fits.0, start-le lim r.behind fits.1, is.small) in
      let (m, run, t) =
        insert_behind_lem s fresh raw' unused ne_null low heap r.before r.chosen r.behind linked
          distinct is.table below in
      (
        _,
        ap (insert_behind s₁ heap fresh) (sym r.at) ∙ run,
        (
          λ p d u.
              inserted_ne s fresh raw' unused ne_null low r.chosen r.behind
                (λ e. cc (ap s e, live, unused)) p (λ e. cc (ap s e, u, live)) d
              ∙ u,
          inr (
            record {
              before = r.before;
              chosen = r.chosen;
              behind = r.behind;
              split = r.split;
              room = r.room;
              returns = refl;
              same_ptr = refl;
              same_size = refl;
              laid_out =
                  insert-IsHeap is fresh raw' unused ne_null low r.before r.chosen r.behind r.split
                    r.room m t;
            },
            chosen ∙ ap some (sym r.at),
          ),
        ),
      )

  -- On a heap that is laid out well, with a new block address below 2^63 and at least as much fuel as
  -- there are blocks, `heap_malloc` returns without a fault, in one of two ways. Either no block has
  -- `bytes` free behind it: then it returns NULL and the heap is laid out as before. Or it returns
  -- the end of the block that the next-fit rule chooses, which has room behind it, and the heap is
  -- laid out well with a block of `bytes` there, which is the new head. The new block's address is the
  -- only one that comes into use.
  pub heap_malloc-IsMalloc :
      (fuel : ℕ)
      → length (before ++ h ∷ behind) ≤ fuel
      → Returns (heap_malloc fuel s heap fresh raw bytes) IsMalloc
  unfolding heap_malloc s₁
  heap_malloc-IsMalloc fuel enough =
      rw (search_lem fuel enough, ◌>>=◌)
        (go (next_fit bytes (heap.ptr + heap.size) before h behind) refl)
    where
      go :
          (o : Option ℕ)
          → next_fit bytes (heap.ptr + heap.size) before h behind ≡ o
          → Returns
              (elim o [ none ↦ ok (null, heap, s₁) | some i ↦ insert_behind s₁ heap fresh i ])
              IsMalloc
      go none e = (
        _,
        refl,
        (
          λ p d u. update_ne s fresh p _ d ∙ u,
          inl (next_fit-IsTight bytes _ before h behind e, refl, refl, allocated-IsHeap),
        ),
      )
      go (some i) e = place i e
