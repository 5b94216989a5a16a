-- ===== src/Memory.antt =====
-- The memory layer, memory/*.c: the block store, the hashmap, the heap.
pub mod Store
pub mod HashMap
pub mod Heap
pub mod SharedMem
pub mod SharedHeap
pub mod Ram
