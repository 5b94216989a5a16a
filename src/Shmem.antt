-- ===== src/Shmem.antt =====
-- shmem.c: the interface of the library. An address of the symmetric heap is turned into its offset,
-- which names the same place in every PE's heap; a typed operation counts elements.
pub mod Access
pub mod Setup
pub mod Collective
use open_shmem_csci.Base.{ℕ, ◌*◌, ◌%◌, ◌^◌}
use open_shmem_csci.Base.Run.{Run}
use open_shmem_csci.Comm.Api.{
  Comm, comm_get, comm_put, comm_get_nbi, comm_put_nbi, comm_flush, comm_local_offset,
}

unfoldable pub shmem_getmem : (dest source nelems pe : ℕ) → Comm → Run Comm
shmem_getmem dest source nelems pe c = comm_get dest (comm_local_offset c source) nelems pe c

unfoldable pub shmem_putmem : (fresh raw dest source nelems pe : ℕ) → Comm → Run Comm
shmem_putmem fresh raw dest source nelems pe c =
    comm_put fresh raw (comm_local_offset c dest) source nelems pe c

unfoldable pub shmem_getmem_nbi : (fresh dest source nelems pe : ℕ) → Comm → Run Comm
shmem_getmem_nbi fresh dest source nelems pe c =
    comm_get_nbi fresh dest (comm_local_offset c source) nelems pe c

unfoldable pub shmem_putmem_nbi : (fresh dest source nelems pe : ℕ) → Comm → Run Comm
shmem_putmem_nbi fresh dest source nelems pe c =
    comm_put_nbi fresh (comm_local_offset c dest) source nelems pe c

-- `nelems*sizeof(type)`, a `size_t`
unfoldable pub num_bytes : (type_size nelems : ℕ) → ℕ
num_bytes type_size nelems = (nelems * type_size) % 2 ^ 64

-- The functions that `SHMEM_OPS` makes for a type of `type_size` bytes.
unfoldable pub shmem_get : (type_size dest source nelems pe : ℕ) → Comm → Run Comm
shmem_get type_size dest source nelems pe = shmem_getmem dest source (num_bytes type_size nelems) pe

unfoldable pub shmem_put : (type_size fresh raw dest source nelems pe : ℕ) → Comm → Run Comm
shmem_put type_size fresh raw dest source nelems pe =
    shmem_putmem fresh raw dest source (num_bytes type_size nelems) pe

unfoldable pub shmem_get_nbi : (type_size fresh dest source nelems pe : ℕ) → Comm → Run Comm
shmem_get_nbi type_size fresh dest source nelems pe =
    shmem_getmem_nbi fresh dest source (num_bytes type_size nelems) pe

unfoldable pub shmem_put_nbi : (type_size fresh dest source nelems pe : ℕ) → Comm → Run Comm
shmem_put_nbi type_size fresh dest source nelems pe =
    shmem_putmem_nbi fresh dest source (num_bytes type_size nelems) pe

unfoldable pub shmem_quiet : Comm → Comm
shmem_quiet c = comm_flush c
