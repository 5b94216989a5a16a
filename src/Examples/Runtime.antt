-- ===== src/Examples/Runtime.antt =====
-- Two hosts with two PEs each, as PMIx tells them, and a PE that is set up on the second one.
use Prim.Native.String.{String}
use text.Mathlib.Text.{◌==◌ as str_eq}
use open_shmem_csci.Rte.Mpi as Mpi
use open_shmem_csci.Rte.Mpi.Hosts.{joined_from, sent, IsName, mpi_hosts-names}
use open_shmem_csci.Base.{
  ℕ, length, length-replicate, ◌==◌, Bool-cases, inl, inr, ◌≡◌, refl, true, Option, none, some,
  List, [], ◌∷◌, ◌++◌, if◌then◌else◌, replicate, arith,
}
use open_shmem_csci.Base.Run.{ok, fault}
use open_shmem_csci.Rte.{
  Key, job_size, local_rank, local_size, num_nodes, Proc, Pmix, Rte, with_rank, ranks, rte_hosts,
}
use open_shmem_csci.Rte.Fence.{proc_of}
use open_shmem_csci.Rte.Hosts.{IsHostname, IsListed, Resolves, written, names_of, rte_hosts-joined}
use open_shmem_csci.Rte.Limits.{rte_hosts-unknown}
use open_shmem_csci.Comm.Node.Hosts.{Hosts}

-- what PMIx tells a process of this job
abbrev told : Key → Option ℕ
told job_size = some 4
told local_rank = some 0
told local_size = some 2
told num_nodes = some 2

abbrev peers : String → Option (List Proc)
peers host =
    if str_eq host "n1"
    then some (proc_of "job" 0 ∷ proc_of "job" 1 ∷ [])
    else some (proc_of "job" 2 ∷ proc_of "job" 3 ∷ [])

abbrev pub pmix : Pmix
pmix = record {
  rank_wildcard = 4294967294;
  init = (true, proc_of "job" 2);
  get = λ proc key. told key;
  resolve_nodes = λ nspace. some "n1,n2";
  resolve_peers = λ host nspace. peers host;
}

-- the same, but the number of nodes is not known
abbrev silent : Pmix
silent = record pmix { get = λ proc key. none }

abbrev rte : Rte
rte = record { my_pe = 2; n_pes = 4; proc = proc_of "job" 2 }

abbrev pub table : Hosts
table = ("n1", 0 ∷ 1 ∷ []) ∷ ("n2", 2 ∷ 3 ∷ []) ∷ []

pub n1-IsHostname : IsHostname "n1"
n1-IsHostname = record {
  some_char = λ e. cc e;
  clean = (omega arith, (omega arith, tt));
  fits = omega arith;
}

pub n2-IsHostname : IsHostname "n2"
n2-IsHostname = record {
  some_char = λ e. cc e;
  clean = (omega arith, (omega arith, tt));
  fits = omega arith;
}

table-IsListed : IsListed pmix rte (names_of table)
table-IsListed = record {
  count = 2;
  listed = refl;
  told = refl;
  few = omega arith;
  enough = omega arith;
  names = (n1-IsHostname, (n2-IsHostname, tt));
}

rte_hosts-joined_example :
    (k : ℕ) × (rte_hosts pmix 3 rte
      ≡ ok (some (written ("n1" ∷ "n2" ∷ []) ++ replicate k none), 2, with_rank 4294967294 rte))
rte_hosts-joined_example = rte_hosts-joined pmix rte (names_of table) 3 table-IsListed (omega arith)

rte_hosts-unknown_example : rte_hosts silent 3 rte ≡ fault
rte_hosts-unknown_example = rte_hosts-unknown silent rte 2 "n1" ("n2" ∷ []) refl refl n1-IsHostname

pub table-Resolves : Resolves pmix "job" ("n1", 0 ∷ 1 ∷ []) × Resolves pmix "job" ("n2", 2 ∷ 3 ∷ [])
unfolding ranks
table-Resolves = (
  (proc_of "job" 0 ∷ proc_of "job" 1 ∷ [], refl, refl),
  (proc_of "job" 2 ∷ proc_of "job" 3 ∷ [], refl, refl),
)

-- two processes over MPI, on hosts "a" and "bc"
abbrev names : ℕ → List ℕ
names i = if i == 0 then 97 ∷ [] else 98 ∷ 99 ∷ []

abbrev buffers : ℕ → List ℕ
buffers i = replicate 256 7

abbrev mpi : ℕ → Mpi.Mpi
mpi i = record {
  comm_rank = i;
  comm_size = 2;
  processor_name = names i;
  allgather = λ mine. joined_from 2 0 (sent names buffers);
}

names-IsName : (i : ℕ) → IsName (names i) × (length (buffers i) ≡ 256)
names-IsName i = elim (Bool-cases (i == 0)) [
  | inl e ↦ rw e ((((λ k. omega (arith, k)), tt), omega arith), length-replicate {A = ℕ} 256 7)
  | inr e ↦ rw e (
    (((λ k. omega (arith, k)), ((λ k. omega (arith, k)), tt)), omega arith),
    length-replicate {A = ℕ} 256 7,
  )
]

mpi_hosts-names_example :
    Mpi.rte_hosts (mpi 1) (buffers 1) (Mpi.rte_init (mpi 1)) ≡ ok ((97 ∷ []) ∷ (98 ∷ 99 ∷ []) ∷ [])
mpi_hosts-names_example =
    mpi_hosts-names 2 mpi buffers 1 (omega arith) (λ j h. names-IsName j)
      (record { size = λ i h. refl; gathers = λ i h. refl })
