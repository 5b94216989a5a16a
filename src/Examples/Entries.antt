-- ===== src/Examples/Entries.antt =====
-- The hashmap at a store of three blocks: the empty one at 100, and blocks of 64 and 100 bytes.
use open_shmem_csci.Memory.HashMap.Free.{Nodes, Chained, hashmap_free, hashmap_free-frees}
use open_shmem_csci.Base.{
  All, ◌≢◌, ℕ, ◌≡◌, refl, none, some, List, [], ◌∷◌, arith, ◌==◌, if◌then◌else◌,
}
use open_shmem_csci.Base.Run.{ok, ◌>>=◌, Returns}
use open_shmem_csci.Memory.Store.{Store, block, null, load}
use open_shmem_csci.Memory.HashMap.{HashMap, hashmap_get, hashmap_set, hashmap_remove}
use open_shmem_csci.Memory.HashMap.Entry.{IsEntry, IsTable}
use open_shmem_csci.Memory.HashMap.Lookup.{hashmap_get-set, hashmap_get-set_ne}
use open_shmem_csci.Memory.HashMap.Remove.{IsElsewhere, hashmap_remove-miss}
use open_shmem_csci.Memory.Heap.{Heap, heap_free}
use open_shmem_csci.Memory.Heap.Cells.{Cell, cell}
use open_shmem_csci.Memory.Heap.Free.{heap_free-miss, IsReleased, heap_free-IsReleased}

abbrev three : Store
three p =
    if p == 100
    then some (block 0x10000 0 200)
    else if p == 200
    then some (block 0x10000 64 300)
    else if p == 300
    then some (block 0x10040 100 null)
    else none

-- seven buckets: the address 0x10000 falls into bucket 2, 0x10040 into bucket 3
abbrev map_of : List ℕ → List ℕ → HashMap
map_of b c = record { n_buckets = 7; buckets = [] ∷ [] ∷ b ∷ c ∷ [] ∷ [] ∷ [] ∷ [] }

abbrev the_heap : Heap
the_heap = record {
  ptr = 0x10000;
  head = 300;
  tail = 100;
  block_map = map_of (100 ∷ []) (200 ∷ []);
  size = 4096;
}

entry_100 : IsEntry three 100
entry_100 = record {
  node = block 0x10000 0 200;
  successor = block 0x10000 64 300;
  ne_null = omega arith;
  holds = refl;
  next_ne_null = omega arith;
  next_holds = refl;
}

abbrev entry_200 : IsEntry three 200
entry_200 = record {
  node = block 0x10000 64 300;
  successor = block 0x10040 100 null;
  ne_null = omega arith;
  holds = refl;
  next_ne_null = omega arith;
  next_holds = refl;
}

first-IsTable : IsTable (IsEntry three) (map_of (100 ∷ []) [])
first-IsTable = record {
  some_bucket = omega arith;
  width = refl;
  entries = (tt, (tt, ((entry_100, tt), (tt, (tt, (tt, (tt, tt)))))));
}

hashmap_get-set_example :
    hashmap_set three (map_of (100 ∷ []) []) 0x10040 200 >>= (λ m. hashmap_get three m 0x10040)
    ≡ ok 200
hashmap_get-set_example = hashmap_get-set first-IsTable 0x10040 200 (omega arith) entry_200 refl

hashmap_get-set_ne_example :
    hashmap_set three (map_of (100 ∷ []) []) 0x10040 200 >>= (λ m. hashmap_get three m 0x10000)
    ≡ hashmap_get three (map_of (100 ∷ []) []) 0x10000
hashmap_get-set_ne_example =
    hashmap_get-set_ne first-IsTable 0x10040 200 (omega arith) entry_200 refl 0x10000 (omega arith)
      (omega arith)

-- both entries are found, and the second cannot be removed by its key
found : hashmap_get three the_heap.block_map 0x10040 ≡ ok 200
unfolding hashmap_get load
found = refl

IsElsewhere-IsTable : IsTable (IsElsewhere three 0x10040) the_heap.block_map
unfolding entry_100
IsElsewhere-IsTable = record {
  some_bucket = omega arith;
  width = refl;
  entries = (
    tt,
    (tt, (((entry_100, omega arith), tt), (((entry_200, omega arith), tt), (tt, (tt, (tt, tt)))))),
  );
}

hashmap_remove-miss_example :
    hashmap_remove three the_heap.block_map 0x10040 ≡ ok (null, the_heap.block_map)
hashmap_remove-miss_example =
    hashmap_remove-miss three the_heap.block_map 0x10040 IsElsewhere-IsTable (omega arith)

heap_free-miss_example : heap_free three the_heap 0x10040 ≡ ok (the_heap, three)
heap_free-miss_example = heap_free-miss three the_heap 0x10040 IsElsewhere-IsTable (omega arith)

abbrev c₁ : Cell
c₁ = cell 100 0x10000 0

abbrev c₂ : Cell
c₂ = cell 200 0x10000 64

abbrev c₃ : Cell
c₃ = cell 300 0x10040 100

removes : hashmap_remove three the_heap.block_map 0x10000 ≡ ok (100, map_of [] (200 ∷ []))
unfolding hashmap_remove load
removes = refl

heap_free-IsReleased_example :
    Returns (heap_free three the_heap 0x10000) (IsReleased three the_heap [] c₁ c₂ (c₃ ∷ []))
heap_free-IsReleased_example =
    heap_free-IsReleased three the_heap 0x10000 (map_of [] (200 ∷ [])) [] c₁ c₂ (c₃ ∷ [])
      (
        omega arith,
        omega arith,
        refl,
        (omega arith, omega arith, refl, (omega arith, omega arith, refl, tt)),
      )
      ((omega arith, (omega arith, tt)), ((omega arith, tt), (tt, tt)))
      (omega arith, (omega arith, (omega arith, tt))) removes

-- two buckets, with two nodes in the first and one in the second
abbrev nodes : Nodes
nodes p =
    if p == 10
    then some (record { value = 1; next = 20 })
    else if p == 20
    then some (record { value = 2; next = 0 })
    else if p == 30
    then some (record { value = 3; next = 0 })
    else none

nodes-Chained : Chained 3 nodes (10 ∷ 30 ∷ []) ((10 ∷ 20 ∷ []) ∷ (30 ∷ []) ∷ [])
nodes-Chained = (
  omega arith,
  (
    refl,
    omega arith,
    (
      record { value = 1; next = 20 },
      refl,
      (refl, omega arith, (record { value = 2; next = 0 }, refl, refl)),
    ),
  ),
  (omega arith, (refl, omega arith, (record { value = 3; next = 0 }, refl, refl)), tt),
)

hashmap_free-frees_example : Returns (hashmap_free 3 (10 ∷ 30 ∷ []) nodes) (λ left.
    All (λ p. left p ≡ none) (10 ∷ 20 ∷ 30 ∷ [])
    × ((p : ℕ) → All (λ q. q ≢ p) (10 ∷ 20 ∷ 30 ∷ []) → left p ≡ nodes p))
hashmap_free-frees_example =
    hashmap_free-frees 3 (10 ∷ 30 ∷ []) ((10 ∷ 20 ∷ []) ∷ (30 ∷ []) ∷ []) nodes nodes-Chained
      (((omega arith, (omega arith, tt)), ((omega arith, tt), (tt, tt))))
