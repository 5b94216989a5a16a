-- ===== src/Memory/Heap/Malloc/Insertion.antt =====
-- `insert_behind` on a linked chain: what it leaves, and that it does not fault.
use open_shmem_csci.Base.{
  ℕ, ◌^◌, ◌<◌, ◌≡◌, ◌≢◌, ◌∙◌, refl, none, some, List, [], ◌∷◌, ◌++◌, ◌==◌, ne→==, if◌then◌else◌,
}
use mathlib.Core.Path.{subst}
use open_shmem_csci.Base.Run.{ok, ◌>>=◌, Returns}
use open_shmem_csci.Memory.Store.{Store, Block, null, load_lem, update_ne, update_self}
use open_shmem_csci.Memory.HashMap.{HashMap, hashmap_set}
use open_shmem_csci.Memory.HashMap.Entry.{IsEntry, IsTable, IsTable-mono}
use open_shmem_csci.Memory.HashMap.Lookup.{hashmap_set-IsTable}
use open_shmem_csci.Memory.Heap.{Heap, insert_behind}
use open_shmem_csci.Memory.Heap.Cells.{
  Cell, cell_end, first, Linked, Avoids, Distinct, Linked-split, Linked-Avoids, Avoids-split,
  Distinct-middle,
}
use open_shmem_csci.Memory.Heap.Insert.{
  allocated, inserted, IsEntry-allocated, IsEntry-inserted, IsEntry-inserted_self,
  IsEntry-inserted_fresh,
}

-- what `insert_behind` leaves, and that it does not fault
module _ (s : Store) (fresh : ℕ) (raw : Block) (unused : s fresh ≡ none) (ne_null : fresh ≢ null)
    (low : fresh < 2 ^ 63) (heap : Heap) (xs : List Cell) (c : Cell) (ys : List Cell)
    (linked : Linked s null (xs ++ c ∷ ys)) (distinct : Distinct (xs ++ c ∷ ys))
    (table : IsTable (IsEntry s) heap.block_map) where
  parts : Linked s null (c ∷ ys) × Avoids fresh (c ∷ ys) × Avoids c.id ys
  parts =
      let avoids = Linked-Avoids s null fresh (xs ++ c ∷ ys) unused linked in
      (
        (Linked-split s null xs (c ∷ ys) linked).1,
        (Avoids-split fresh xs (c ∷ ys) avoids).1,
        (Distinct-middle xs c ys distinct).1,
      )

  -- the entry of the block behind is written under the address of its `struct block_t`
  set_next :
      (zs : List Cell)
      → ys ≡ zs
      → Returns
          (if first null zs == null
            then ok heap.block_map
            else hashmap_set (allocated s fresh raw) heap.block_map (first null zs) fresh)
          (IsTable (IsEntry (inserted s fresh raw c ys)))
  set_next [] e = (
    heap.block_map,
    refl,
    IsTable-mono (IsEntry s) _ (IsEntry-inserted s fresh raw unused ne_null low c ys parts.1.0)
        table,
  )
  set_next (d ∷ zs) e =
      let (l, a, n) = parts in
      let l' = subst (λ t. Linked s null t) e l.3 in
      let a' = subst (Avoids fresh) e a.1 in
      let n' = subst (Avoids c.id) e n in
      rw (ne→== d.id null l'.0) (
        hashmap_set-IsTable (allocated s fresh raw) heap.block_map d.id fresh (IsEntry s) _ table
          l'.1 (IsEntry-allocated s fresh raw unused ne_null low)
          (IsEntry-inserted s fresh raw unused ne_null low c ys a.0)
          (IsEntry-inserted_fresh s fresh raw unused ne_null low c ys a.0 d zs e l'.0 n'.0 a'.0
            l'.2))

  pub insert_behind_lem :
      cell_end c < 2 ^ 63
      → (m : HashMap) × (insert_behind (allocated s fresh raw) heap fresh c.id
          ≡ ok (cell_end c, record heap { head = fresh; block_map = m }, inserted s fresh raw c ys))
        × IsTable (IsEntry (inserted s fresh raw c ys)) m
  unfolding insert_behind
  insert_behind_lem low' =
      let (l, a, n) = parts in
      let (m, run, t) = set_next ys refl in
      let t' = inserted s fresh raw c ys in
      let (m', run', u) =
        hashmap_set-IsTable t' m (cell_end c) c.id (IsEntry t') (IsEntry t') t low' (λ v h. h)
          (λ v h. h) (IsEntry-inserted_self s fresh raw unused ne_null low c ys a.0 l.0) in
      let live = update_ne s fresh c.id (some raw) a.0 ∙ l.2 in
      (
        m',
        rw (
          load_lem (allocated s fresh raw) c.id l.0 live,
          ◌>>=◌,
          run,
          load_lem (allocated s fresh raw) fresh ne_null (update_self s fresh (some raw)),
          run',
        ),
        u,
      )
