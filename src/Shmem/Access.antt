-- ===== src/Shmem/Access.antt =====
-- A typed put and a typed get through the library's interface.
use mathlib.Core.Path.{subst}
use open_shmem_csci.Base.{
  ℕ, ◌+◌, ◌-◌, ◌*◌, ◌<◌, ◌≤◌, ◌^◌, ◌≡◌, ◌∙◌, ap, some, List, arith, length, get_elem?,
}
use open_shmem_csci.Base.Run.{ok, ◌>>=◌, bind-ok, Returns}
use open_shmem_csci.Memory.Heap.{heap_offset}
use open_shmem_csci.Memory.Heap.Bounds.{heap_offset-add}
use open_shmem_csci.Memory.Ram.{bytes_at}
use open_shmem_csci.Comm.Node.{LocalityMap, local, comm_node_map}
use open_shmem_csci.Comm.Api.{Comm, comm_get, comm_local_offset}
use open_shmem_csci.Comm.Api.Dispatch.{comm_put-local}
use open_shmem_csci.Shmem.{num_bytes, shmem_getmem, shmem_putmem, shmem_get, shmem_put}

num_bytes_lem :
    (type_size nelems : ℕ)
    → nelems * type_size < 2 ^ 64
    → num_bytes type_size nelems ≡ nelems * type_size
unfolding num_bytes
num_bytes_lem type_size nelems h = omega arith

offset_lem :
    (c : Comm) (ptr : ℕ)
    → c.heap.ptr ≤ ptr
    → ptr < c.heap.ptr + c.heap.size
    → c.heap.ptr + c.heap.size < 2 ^ 63
    → comm_local_offset c ptr ≡ ptr - c.heap.ptr
unfolding comm_local_offset
offset_lem c ptr h k small = let (b, e) = heap_offset-add c.heap ptr h k small in omega arith

-- the offset depends on the heap only
offset_same :
    (c c' : Comm) (ptr : ℕ) → c'.heap ≡ c.heap → comm_local_offset c' ptr ≡ comm_local_offset c ptr
unfolding comm_local_offset
offset_same c c' ptr e = ap (λ h. heap_offset h ptr) e

put_then_get :
    (c : Comm) (type_size fresh raw dest source buffer nelems pe : ℕ) {m : LocalityMap} {r : List ℕ}
    → comm_node_map c.node pe ≡ ok m
    → m.type ≡ local
    → get_elem? c.memory m.index ≡ some (some r)
    → comm_local_offset c dest + num_bytes type_size nelems ≤ length r
    → Returns
        (shmem_put type_size fresh raw dest source nelems pe c
          >>= shmem_get type_size buffer dest nelems pe)
        (λ c'.
          bytes_at c'.ram buffer (num_bytes type_size nelems)
          ≡ bytes_at c.ram source (num_bytes type_size nelems))
unfolding shmem_put shmem_get shmem_putmem shmem_getmem
put_then_get c type_size fresh raw dest source buffer nelems pe e_map e_type e_mem fits =
    let n = num_bytes type_size nelems in
    let (c', e, (same, (c'', e', got))) =
      comm_put-local c fresh raw (comm_local_offset c dest) source n buffer pe e_map e_type e_mem
        fits in
    let go : comm_get buffer (comm_local_offset c' dest) n pe c' ≡ ok c'' =
      ap (λ o. comm_get buffer o n pe c') (offset_same c c' dest same) ∙ e' in
    (c'', bind-ok _ e go, got)

-- A typed put to an address of the symmetric heap, whose region ends below 2^63, succeeds if the
-- PE is on this node and its heap is mapped and has room for the elements at the same offset, and
-- their size in bytes is below 2^64. A typed get from there then succeeds and leaves in any buffer
-- the bytes of the elements that were put.
pub shmem_get-put :
    (c : Comm) (type_size fresh raw dest source buffer nelems pe : ℕ) {m : LocalityMap} {r : List ℕ}
    → comm_node_map c.node pe ≡ ok m
    → m.type ≡ local
    → get_elem? c.memory m.index ≡ some (some r)
    → c.heap.ptr ≤ dest
    → dest < c.heap.ptr + c.heap.size
    → c.heap.ptr + c.heap.size < 2 ^ 63
    → nelems * type_size < 2 ^ 64
    → dest - c.heap.ptr + nelems * type_size ≤ length r
    → Returns
        (shmem_put type_size fresh raw dest source nelems pe c
          >>= shmem_get type_size buffer dest nelems pe)
        (λ c'.
          bytes_at c'.ram buffer (nelems * type_size) ≡ bytes_at c.ram source (nelems * type_size))
shmem_get-put c type_size fresh raw dest source buffer nelems pe {m} {r} e_map e_type e_mem above
      below small no_wrap fits =
    let e_bytes = num_bytes_lem type_size nelems no_wrap in
    let e_offset = offset_lem c dest above below small in
    let room : comm_local_offset c dest + num_bytes type_size nelems ≤ length r =
      rw (e_offset, e_bytes) fits in
    let (c', e, got) =
      put_then_get c type_size fresh raw dest source buffer nelems pe e_map e_type e_mem room in
    (c', e, subst (λ n. bytes_at c'.ram buffer n ≡ bytes_at c.ram source n) e_bytes got)
