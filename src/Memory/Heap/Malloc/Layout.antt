-- ===== src/Memory/Heap/Malloc/Layout.antt =====
-- When a heap is laid out well, and that a block put into a gap that is large enough keeps it so.
use open_shmem_csci.Base.{
  ℕ, ◌+◌, ◌-◌, ◌^◌, ◌≤◌, ◌<◌, ◌≡◌, ◌≢◌, ◌∙◌, refl, sym, ap, none, List, [], ◌∷◌, ◌++◌, arith,
}
use mathlib.Core.List.{append_assoc}
use mathlib.Core.Path.{subst}
use open_shmem_csci.Memory.Store.{Store, Block, null}
use open_shmem_csci.Memory.HashMap.{HashMap}
use open_shmem_csci.Memory.HashMap.Entry.{IsEntry, IsTable}
use open_shmem_csci.Memory.Heap.{Heap}
use open_shmem_csci.Memory.Heap.Cells.{
  Cell, cell, cell_end, first, start, Linked, Fits, Avoids, Distinct, Avoids-split, Distinct-insert,
  Linked-Avoids,
}
use open_shmem_csci.Memory.Heap.Insert.{inserted, Linked-inserted}

-- The heap stands for the chain `before ++ h ∷ behind`, whose head is `h`: the blocks are linked in
-- address order, do not overlap, lie in the region, and the map's values can be compared with keys.
pub record IsHeap (s : Store) (heap : Heap) (before : List Cell) (h : Cell) (behind : List Cell)
    : Type 0 where
  pub linked : Linked s null (before ++ h ∷ behind)
  pub fits : Fits (heap.ptr + heap.size) (before ++ h ∷ behind)
  pub distinct : Distinct (before ++ h ∷ behind)
  pub at_head : heap.head ≡ h.id
  pub at_tail : heap.tail ≡ first null (before ++ h ∷ behind)
  pub above : heap.ptr ≤ start (heap.ptr + heap.size) (before ++ h ∷ behind)
  pub small : heap.ptr + heap.size < 2 ^ 63
  pub table : IsTable (IsEntry s) heap.block_map

module _ (lim : ℕ) (new : Cell) where
  Fits-insert :
      (xs : List Cell) (c : Cell) (ys : List Cell)
      → new.ptr ≡ cell_end c
      → new.size ≤ start lim ys - cell_end c
      → Fits lim (xs ++ c ∷ ys)
      → Fits lim (xs ++ c ∷ new ∷ ys)
  Fits-insert [] c ys at room f = (omega arith, (omega arith, f.1))
  Fits-insert (x ∷ []) c ys at room f = (f.0, Fits-insert [] c ys at room f.1)
  Fits-insert (x ∷ x' ∷ xs) c ys at room f = (f.0, Fits-insert (x' ∷ xs) c ys at room f.1)

first-middle :
    (stop : ℕ) (xs : List Cell) (c : Cell) (ys zs : List Cell)
    → first stop (xs ++ c ∷ ys) ≡ first stop ((xs ++ c ∷ []) ++ zs)
first-middle stop [] c ys zs = refl
first-middle stop (x ∷ xs) c ys zs = refl

start-middle :
    (lim : ℕ) (xs : List Cell) (c : Cell) (ys zs : List Cell)
    → start lim (xs ++ c ∷ ys) ≡ start lim ((xs ++ c ∷ []) ++ zs)
start-middle lim [] c ys zs = refl
start-middle lim (x ∷ xs) c ys zs = refl

module _ {s : Store} {heap : Heap} {before behind : List Cell} {h : Cell}
    (is : IsHeap s heap before h behind) (fresh : ℕ) (raw : Block) (unused : s fresh ≡ none)
    (ne_null : fresh ≢ null) (low : fresh < 2 ^ 63) where
  pub insert-IsHeap :
      (xs : List Cell) (c : Cell) (ys : List Cell)
      → before ++ h ∷ behind ≡ xs ++ c ∷ ys
      → raw.size ≤ start (heap.ptr + heap.size) ys - cell_end c
      → (m : HashMap) → IsTable (IsEntry (inserted s fresh raw c ys)) m
      → IsHeap
          (inserted s fresh raw c ys)
          (record heap { head = fresh; block_map = m })
          (xs ++ c ∷ [])
          (cell fresh (cell_end c) raw.size)
          ys
  insert-IsHeap xs c ys e room m t =
      let lim = heap.ptr + heap.size in
      let new = cell fresh (cell_end c) raw.size in
      let linked = subst (Linked s null) e is.linked in
      let fits = subst (Fits lim) e is.fits in
      let distinct = subst Distinct e is.distinct in
      let avoids = Linked-Avoids s null fresh (xs ++ c ∷ ys) unused linked in
      let whole = sym (append_assoc xs (c ∷ []) ys) in
      let regroup = sym (append_assoc xs (c ∷ []) (new ∷ ys)) in
      record {
        linked = subst (Linked (inserted s fresh raw c ys) null) regroup (
            Linked-inserted s fresh raw unused ne_null low c ys
              (Avoids-split fresh xs (c ∷ ys) avoids).1.0 xs linked avoids distinct);
        fits = subst (Fits lim) regroup (Fits-insert lim new xs c ys refl room fits);
        distinct =
            Distinct-insert (xs ++ c ∷ []) new ys (subst (Avoids fresh) whole avoids)
              (subst Distinct whole distinct);
        at_head = refl;
        at_tail = is.at_tail ∙ ap (first null) e ∙ first-middle null xs c ys (new ∷ ys);
        above =
            subst (λ n. heap.ptr ≤ n) (ap (start lim) e ∙ start-middle lim xs c ys (new ∷ ys))
              is.above;
        small = is.small;
        table = t;
      }
