-- ===== src/Examples/Layers.antt =====
-- PE 0 of a node of two PEs, with two more on another node, set up over shared memory objects that all open.
use open_shmem_csci.Base.{
  ℕ, ltb, if◌then◌else◌, ◌∷◌, ◌-◌, ◌+◌, ◌*◌, ◌<◌, ◌≡◌, ◌≢◌, refl, false, Option, none, some, [],
  length, get_elem?, arith,
}
use open_shmem_csci.Base.Run.{Returns}
use open_shmem_csci.Memory.Store.{Store, Block, block}
use open_shmem_csci.Memory.Heap.{heap_init}
use open_shmem_csci.Memory.SharedHeap.{SharedHeap}
use open_shmem_csci.Network.{Kernel}
use open_shmem_csci.Comm.Node.{Node, LocalityMap, local, remote}
use open_shmem_csci.Comm.Local.Setup.{Local, symmetric_heap_size, comm_local_wireup}
use open_shmem_csci.Comm.Local.Setup.Mapped.{comm_local_wireup-mapped}
use open_shmem_csci.Comm.Layers.{Layers, Servers, open_servers}

abbrev pub opens : ℕ → Option ℕ
opens key = some (key + 3)

abbrev pub maps : (fd size : ℕ) → ℕ
maps fd size = fd * 0x10000000

abbrev pub clear : Block
clear = block 0 0 0

abbrev pub no_blocks : Store
no_blocks p = none

abbrev pub zeros : ℕ → ℕ
zeros i = 0

abbrev pub kernel : Kernel
kernel = record {
  socket = some 9;
  setsockopt_fails = λ fd. false;
  bind_fails = λ fd addr. false;
  listen_fails = λ fd n. false;
  accept = λ fd. (none, record { family = 2; s_addr = 0; port = 0 });
  connect_fails = λ fd addr. false;
  get_flags = λ fd. 0;
  set_flags_fails = λ fd flags. false;
  htons = λ port. port;
}

abbrev empty_heap : SharedHeap
empty_heap = record {
  heap = (heap_init no_blocks 100 clear 0x30000000 symmetric_heap_size).0;
  key = 0;
}

abbrev created : Local
created = record {
  my_local_pe = 0;
  n_local_pes = 2;
  symmetric_heap = some empty_heap;
  shared_memory = [];
}

comm_local_wireup-mapped_example : Returns (comm_local_wireup opens maps 5000 zeros created) (λ l'.
    (l'.symmetric_heap ≡ some empty_heap)
    × (length l'.shared_memory ≡ 2)
    × (get_elem? l'.shared_memory 0 ≡ some empty_heap.heap.ptr)
    × ((i : ℕ) → i < 2 → i ≢ 0 → get_elem? l'.shared_memory i ≡ some ((i + 3) * 0x10000000)))
comm_local_wireup-mapped_example =
    comm_local_wireup-mapped opens maps 5000 zeros created empty_heap (λ i. i + 3)
      (λ i lt other. refl) (λ i lt other. omega arith) (λ i lt. omega arith) refl (omega arith)
      (omega arith)

abbrev both : Servers
both = open_servers kernel 0 4

abbrev pub none_left : Servers
none_left = record { cmd = none; data_server = none }

abbrev entries : ℕ → LocalityMap
entries pe =
    if ltb pe 2
    then record { type = local; index = pe; host = 0 }
    else record { type = remote; index = pe - 2; host = 1 }

abbrev node : Node
node = record {
  nodes =
      some (record { hostname = "n1"; addr = 7 })
      ∷ some (record { hostname = "n2"; addr = 8 })
      ∷ [];
  locality_map = some (entries 0) ∷ some (entries 1) ∷ some (entries 2) ∷ some (entries 3) ∷ [];
}

abbrev layers : Layers
layers = record {
  node = node;
  heaps = created;
  blocks = (heap_init no_blocks 100 clear 0x30000000 symmetric_heap_size).1;
  remote = record { my_pe = 0; n_pes = 4; n_remote_pes = 2; servers = both };
  psync = 0;
  ram = λ p. 7;
}
