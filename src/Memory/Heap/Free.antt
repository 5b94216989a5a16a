-- ===== src/Memory/Heap/Free.antt =====
-- `heap_free`: a pointer that the map does not lead to is ignored; otherwise the block behind the
-- one that the map gives is taken out of the chain, and only that one.
use open_shmem_csci.Base.{
  ℕ, ◌+◌, ◌^◌, ◌<◌, ◌≡◌, ◌≢◌, ◌∙◌, refl, sym, none, some, List, [], ◌∷◌, ◌++◌, arith, ◌==◌, ne→==,
  if◌then◌else◌,
}
use mathlib.Core.List.{append_assoc}
use mathlib.Core.Path.{subst}
use open_shmem_csci.Base.Run.{ok, ◌>>=◌, Returns}
use open_shmem_csci.Memory.Store.{Store, block, null, load_lem, update, update_self, update_ne}
use open_shmem_csci.Memory.HashMap.{HashMap, hashmap_remove}
use open_shmem_csci.Memory.HashMap.Entry.{IsTable}
use open_shmem_csci.Memory.HashMap.Remove.{IsElsewhere, hashmap_remove-miss}
use open_shmem_csci.Memory.Heap.{Heap, unlink_behind, heap_free}
use open_shmem_csci.Memory.Heap.Cells.{
  Cell, first, Linked, Fits, Avoids, Distinct, Linked-append, Linked-split, Linked-update,
  Distinct-middle, Avoids-split, Fits-append, Fits-split,
}

-- If every value of the map is a live block with a live successor that is not at `ptr` itself, and
-- `ptr` is below 2^63, `heap_free` of `ptr` changes nothing: neither the chain, nor the map, nor the
-- head.
pub heap_free-miss :
    (s : Store) (heap : Heap) (ptr : ℕ)
    → IsTable (IsElsewhere s ptr) heap.block_map
    → ptr < 2 ^ 63
    → heap_free s heap ptr ≡ ok (heap, s)
unfolding heap_free
heap_free-miss s heap ptr t low = rw (hashmap_remove-miss s heap.block_map ptr t low)

-- the store without the block `f`, and with `b` linked past it
abbrev pub unlinked : Store → Cell → Cell → List Cell → Store
unlinked s b f ys = update (update s b.id (some (block b.ptr b.size (first null ys)))) f.id none

module _ (s : Store) (xs : List Cell) (b f : Cell) (ys : List Cell)
    (linked : Linked s null (xs ++ b ∷ f ∷ ys)) (distinct : Distinct (xs ++ b ∷ f ∷ ys)) where
  pub Linked-unlinked : Linked (unlinked s b f ys) null (xs ++ b ∷ ys)
  Linked-unlinked =
      let (l, l') = Linked-split s null xs (b ∷ f ∷ ys) linked in
      let (m, m') = Distinct-middle xs b (f ∷ ys) distinct in
      let whole = sym (append_assoc xs (b ∷ []) (f ∷ ys)) in
      let (n, n') = Distinct-middle (xs ++ b ∷ []) f ys (subst Distinct whole distinct) in
      let (o, o') = Avoids-split f.id xs (b ∷ []) n in
      Linked-append (unlinked s b f ys) null xs (b ∷ ys) (keep b.id xs m o l) (
        l'.0,
        l'.1,
        update_ne (update s b.id _) f.id b.id none o'.0 ∙ update_self s b.id _,
        keep null ys m'.1 n' l'.3.3,
      )
    where
      keep :
          (stop : ℕ) (cs : List Cell)
          → Avoids b.id cs
          → Avoids f.id cs
          → Linked s stop cs
          → Linked (unlinked s b f ys) stop cs
      keep stop cs m n l = Linked-update _ stop f.id none cs n (Linked-update s stop b.id _ cs m l)

  unlink_behind_lem :
      (heap : Heap)
      → unlink_behind s heap b.id
        ≡ ok (
          record heap { head = if first null ys == null then heap.tail else first null ys },
          unlinked s b f ys,
        )
  unfolding unlink_behind
  unlink_behind_lem heap =
      let (l, l') = Linked-split s null xs (b ∷ f ∷ ys) linked in
      let (m, m') = Distinct-middle xs b (f ∷ ys) distinct in
      rw (
        load_lem s b.id l'.0 l'.2,
        ◌>>=◌,
        load_lem s f.id l'.3.0 l'.3.2,
        load_lem (update s b.id _) f.id l'.3.0 (update_ne s b.id f.id _ m'.0 ∙ l'.3.2),
      )

module _ (lim : ℕ) (xs : List Cell) (b f : Cell) (ys : List Cell) where
  pub Fits-without : Fits lim (xs ++ b ∷ f ∷ ys) → Fits lim (xs ++ b ∷ ys)
  Fits-without h =
      let (k, k') = Fits-split lim xs (b ∷ f ∷ ys) h in
      Fits-append lim xs (b ∷ ys) k (omega (arith, k'.0, k'.1.0), k'.1.1)

-- the heap after the block `f` was taken out from behind `b`
pub record IsReleased (s : Store) (heap : Heap) (xs : List Cell) (b f : Cell) (ys : List Cell)
    (r : Heap × Store) : Type 0 where
  pub linked : Linked r.1 null (xs ++ b ∷ ys)
  pub fits : Fits (heap.ptr + heap.size) (xs ++ b ∷ ys)
  pub freed : r.1 f.id ≡ none
  pub kept : (q : ℕ) → q ≢ f.id → q ≢ b.id → r.1 q ≡ s q
  pub head : r.0.head ≡ (if first null ys == null then heap.tail else first null ys)

-- On a chain of different live blocks in address order within the region, if `hashmap_remove` gives
-- the block `b` of the chain for `ptr`, whatever `ptr` is, `heap_free` ends without
-- a fault and takes the block `f` behind `b` out of the chain and the store; no other block changes
-- but the `next` of `b`; the head is the block behind the freed one, or the tail if there is none.
pub heap_free-IsReleased :
    (s : Store) (heap : Heap) (ptr : ℕ) (m : HashMap) (xs : List Cell) (b f : Cell) (ys : List Cell)
    → Linked s null (xs ++ b ∷ f ∷ ys)
    → Distinct (xs ++ b ∷ f ∷ ys)
    → Fits (heap.ptr + heap.size) (xs ++ b ∷ f ∷ ys)
    → hashmap_remove s heap.block_map ptr ≡ ok (b.id, m)
    → Returns (heap_free s heap ptr) (IsReleased s heap xs b f ys)
unfolding heap_free
heap_free-IsReleased s heap ptr m xs b f ys linked distinct fits found =
    let ne = (Linked-split s null xs (b ∷ f ∷ ys) linked).1.0 in
    (
      (
        record heap {
          head = if first null ys == null then heap.tail else first null ys;
          block_map = m;
        },
        unlinked s b f ys,
      ),
      rw (found, ◌>>=◌, ne→== b.id null ne)
          (unlink_behind_lem s xs b f ys linked distinct (record heap { block_map = m })),
      record {
        linked = Linked-unlinked s xs b f ys linked distinct;
        fits = Fits-without (heap.ptr + heap.size) xs b f ys fits;
        freed = update_self _ f.id none;
        kept = λ q h k. update_ne _ f.id q none h ∙ update_ne s b.id q _ k;
        head = refl;
      },
    )
