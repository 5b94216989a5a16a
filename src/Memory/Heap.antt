-- ===== src/Memory/Heap.antt =====
-- memory/heap.c: a next-fit allocator over a chain of blocks in address order. The `struct block_t`
-- objects live in the block store; the `struct heap_t` is a record that an operation returns anew.
-- `fresh` is the address that `malloc` returns for a block, `raw` what that memory holds before the
-- code writes to it. `malloc` itself is taken to succeed, since the code does not test its result.
pub mod Cells
pub mod Search
pub mod Insert
pub mod Malloc
pub mod Free
pub mod Bounds
pub mod Sequence
pub mod Symmetric
use open_shmem_csci.Base.{
  ℕ, zero, suc, ◌+◌, ◌-◌, ◌%◌, ◌^◌, Option, none, some, ltb, ◌==◌, if◌then◌else◌,
}
use open_shmem_csci.Base.Run.{Run, ok, out_of_fuel, ◌>>=◌}
use open_shmem_csci.Memory.Store.{Store, Block, block, null, load, update}
use open_shmem_csci.Memory.HashMap.{HashMap, hashmap_init, hashmap_set, hashmap_remove}

abbrev pub num_buckets : ℕ
num_buckets = 1023

pub record Heap : Type 0 where
  pub ptr : ℕ
  pub head : ℕ
  pub tail : ℕ
  pub block_map : HashMap
  pub size : ℕ

-- a pointer difference, cast to `size_t`
unfoldable pub sub64 : ℕ → ℕ → ℕ
sub64 a b = (a + 2 ^ 64 - b) % 2 ^ 64

-- `BLOCK_END`
abbrev pub block_end : Block → ℕ
block_end b = b.ptr + b.size

-- `BLOCK_GAP`
unfoldable pub block_gap : Store → Heap → Block → Run ℕ
block_gap s heap b =
    if b.next == null
    then ok (sub64 (heap.ptr + heap.size) (block_end b))
    else do n ← load s b.next; ok (sub64 n.ptr (block_end b))

-- the value that `NEXT_BLOCK` assigns
unfoldable pub next_block : Heap → Block → ℕ
next_block heap b = if b.next == null then heap.tail else b.next

-- the tail's `next` is not written, so it holds what `malloc` left there
unfoldable pub heap_init : Store → (fresh : ℕ) (raw : Block) (region size : ℕ) → Heap × Store
heap_init s fresh raw region size = (
  record {
    ptr = region;
    head = fresh;
    tail = fresh;
    block_map = hashmap_init num_buckets;
    size = size;
  },
  update s fresh (some (block region 0 raw.next)),
)

-- The loop that looks for room: `none` is `return NULL`, `some` the block behind which there is
-- room for `bytes`.
unfoldable pub search : ℕ → Store → Heap → ℕ → ℕ → Run (Option ℕ)
unfolding block_gap next_block
search zero s heap bytes cur = out_of_fuel
search (suc k) s heap bytes cur = do
  b ← load s cur
  gap ← block_gap s heap b
  let next = next_block heap b
  let rest = search k s heap bytes next
  if ltb gap bytes then (if next == heap.head then ok none else rest) else ok (some cur)

-- what follows the loop: `head` is the block to insert behind
unfoldable pub insert_behind : Store → Heap → (fresh head : ℕ) → Run (ℕ × Heap × Store)
insert_behind s heap fresh head = do
  b ← load s head
  map ← (if b.next == null then ok heap.block_map else hashmap_set s heap.block_map b.next fresh)
  f ← load s fresh
  let s₁ = update s fresh (some (block (block_end b) f.size b.next))
  let s₂ = update s₁ head (some (record b { next = fresh }))
  map' ← hashmap_set s₂ map (block_end b) head
  ok (block_end b, record heap { head = fresh; block_map = map' }, s₂)

unfoldable pub heap_malloc :
    ℕ → Store → Heap → (fresh : ℕ) (raw : Block) (bytes : ℕ) → Run (ℕ × Heap × Store)
unfolding search insert_behind
heap_malloc fuel s heap fresh raw bytes =
    let s₁ = update s fresh (some (record raw { size = bytes })) in
    search fuel s₁ heap bytes heap.head
    >>= elim [ none ↦ ok (null, heap, s₁) | some head ↦ insert_behind s₁ heap fresh head ]

-- `heap_free` once the block before the freed one is known
unfoldable pub unlink_behind : Store → Heap → (before : ℕ) → Run (Heap × Store)
unlink_behind s heap before = do
  b ← load s before
  freed ← load s b.next
  let s₁ = update s before (some (record b { next = freed.next }))
  freed' ← load s₁ b.next
  let head = if freed'.next == null then heap.tail else freed'.next
  ok (record heap { head = head }, update s₁ b.next none)

unfoldable pub heap_free : Store → Heap → (ptr : ℕ) → Run (Heap × Store)
unfolding unlink_behind
heap_free s heap ptr = do
  (before, map) ← hashmap_remove s heap.block_map ptr
  let heap' = record heap { block_map = map }
  if before == null then ok (heap', s) else unlink_behind s heap' before

-- `heap_finalize`: the blocks from the head on are freed
unfoldable pub finalize_loop : ℕ → Store → ℕ → Run Store
finalize_loop zero s p = out_of_fuel
finalize_loop (suc k) s p =
    if p == null then ok s else do b ← load s p; finalize_loop k (update s p none) b.next

unfoldable pub heap_finalize : ℕ → Store → Heap → Run Store
unfolding finalize_loop
heap_finalize fuel s heap = finalize_loop fuel s heap.head

unfoldable pub heap_offset : Heap → ℕ → ℕ
unfolding sub64
heap_offset heap ptr = sub64 ptr heap.ptr
