-- ===== src/Examples/Startup.antt =====
-- `shmem_init` on PE 2 of four, the first one of the second host.
use open_shmem_csci.Memory.SharedHeap.{SharedHeap}
use open_shmem_csci.Rte.{Rte}
use open_shmem_csci.Rte.Fence.{proc_of}

abbrev unset : Rte
unset = record { my_pe = 0; n_pes = 0; proc = proc_of "" 0 }
