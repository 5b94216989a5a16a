-- ===== src/Rte.antt =====
-- rte/pmix/rte.c: the runtime environment, over PMIx. An `int` that can be -1 is its word of 32 bits.
-- A rank is the number that PMIx gives. `HOSTNAME_LEN` counts bytes.
pub mod Strtok
pub mod Hosts
pub mod Fence
pub mod Limits
pub mod Mpi
use Prim.Native.String.{String, len}
use open_shmem_csci.Base.{
  ℕ, zero, suc, ◌+◌, ◌-◌, ◌%◌, ◌^◌, Bool, true, false, Option, none, some, List, [], ◌∷◌, ltb,
  if◌then◌else◌, get_elem?, replicate, length,
}
use open_shmem_csci.Base.Run.{Run, fault, out_of_fuel, ok, ◌>>=◌, of_option, write_at}
use open_shmem_csci.Rte.Strtok.{strtok}

abbrev pub hostname_len : ℕ
hostname_len = 256

-- -1
abbrev pub minus_one : ℕ
minus_one = 2 ^ 32 - 1

pub record Proc : Type 0 where
  pub nspace : String
  pub rank : ℕ

-- `PMIX_JOB_SIZE`, `PMIX_LOCAL_RANK`, `PMIX_LOCAL_SIZE` and `PMIX_NUM_NODES`
pub data Key : Type 0 where
  job_size local_rank local_size num_nodes : Key

-- What PMIx answers, with `none` for a status that is not `PMIX_SUCCESS`. `init` is whether `PMIx_Init`
-- succeeds, and what it leaves in the process.
pub record Pmix : Type 0 where
  pub rank_wildcard : ℕ
  pub init : Bool × Proc
  pub get : Proc → Key → Option ℕ
  pub resolve_nodes : (nspace : String) → Option String
  pub resolve_peers : (hostname nspace : String) → Option (List Proc)

-- `__MY_PE`, `__N_PES` and `__proc`
pub record Rte : Type 0 where
  pub my_pe : ℕ
  pub n_pes : ℕ
  pub proc : Proc

-- `__proc.rank = rank`
unfoldable pub with_rank : ℕ → Rte → Rte
with_rank rank r = record r { proc = record { nspace = r.proc.nspace; rank = rank } }

-- The elements of an array of `count` pointers that `malloc` gives or the stack holds: none when the
-- count is negative.
unfoldable pub room : (count : ℕ) → ℕ
room count = if ltb count (2 ^ 31) then count else 0

-- an `int`, or -1 for an answer that is missing
unfoldable pub int_result : (bits : ℕ) → Option ℕ → ℕ
int_result bits none = minus_one
int_result bits (some v) = v % 2 ^ bits

-- `pes[i]` goes into the entry `i` of the array of processes, from `i` on
unfoldable pub set_procs :
    (nspace : String) (i : ℕ) → List ℕ → List (Option Proc) → Run (List (Option Proc))
set_procs nspace i [] procs = ok procs
set_procs nspace i (pe ∷ pes) procs =
    write_at procs i (some (record { nspace = nspace; rank = pe })) >>= λ procs'.
    set_procs nspace (i + 1) pes procs'

-- The processes that `PMIx_Fence` is given: the first `n` entries of the array.
unfoldable pub fence_procs : (n : ℕ) → List (Option Proc) → Run (List Proc)
fence_procs zero procs = ok []
fence_procs (suc n) [] = fault
fence_procs (suc n) (p ∷ procs) =
    of_option p >>= λ proc. fence_procs n procs >>= λ rest. ok (proc ∷ rest)

-- `i`, `i + 1` and so on, `n` ranks
unfoldable pub ranks_from : (n i : ℕ) → List ℕ
ranks_from zero i = []
ranks_from (suc n) i = i ∷ ranks_from n (i + 1)

unfoldable pub rte_barrier_all : Rte → Run (List Proc)
unfolding room set_procs fence_procs ranks_from
rte_barrier_all r =
    set_procs r.proc.nspace 0 (ranks_from (room r.n_pes) 0) (replicate (room r.n_pes) none)
    >>= λ procs. fence_procs (room r.n_pes) procs

-- The loop of `rte_hosts` over what is left of the text, with the array and the count of hosts.
unfoldable pub copy_hosts :
    (fuel : ℕ) → String → List (Option String) → ℕ → Run (List (Option String) × ℕ)
unfolding strtok
copy_hosts zero text hosts n = out_of_fuel
copy_hosts (suc k) text hosts n = elim (strtok text) [
  | none ↦ ok (hosts, n)
  | some t ↦
      if ltb (len t.0) hostname_len
      then (write_at hosts n (some t.0) >>= λ hosts'. copy_hosts k t.1 hosts' (n + 1))
      else fault
]

unfoldable pub ranks : List Proc → List ℕ
ranks [] = []
ranks (q ∷ qs) = q.rank ∷ ranks qs

module _ (p : Pmix) where
  -- without a job size the code reads the value through a pointer that was not set
  unfoldable pub rte_init : Rte → Run Rte
  rte_init r =
      let my = p.init.1 in
      let proc : Proc = record { nspace = my.nspace; rank = p.rank_wildcard } in
      of_option (p.get proc job_size) >>= λ v.
      ok (record { my_pe = my.rank % 2 ^ 32; n_pes = v % 2 ^ 32; proc = proc })

  unfoldable pub rte_my_local_pe : Rte → ℕ × Rte
  unfolding with_rank int_result
  rte_my_local_pe r = let r' = with_rank r.my_pe r in (int_result 16 (p.get r'.proc local_rank), r')

  unfoldable pub rte_n_local_pes : Rte → ℕ × Rte
  unfolding with_rank int_result
  rte_n_local_pes r =
      let r' = with_rank p.rank_wildcard r in (int_result 32 (p.get r'.proc local_size), r')

  unfoldable pub rte_n_nodes : Rte → ℕ × Rte
  unfolding with_rank int_result
  rte_n_nodes r =
      let r' = with_rank p.rank_wildcard r in (int_result 32 (p.get r'.proc num_nodes), r')

  -- `none`: the list and its length are not set
  unfoldable pub rte_local_peers : (hostname : String) → Rte → Option (List ℕ)
  unfolding ranks
  rte_local_peers hostname r = elim (p.resolve_peers hostname r.proc.nspace) [
    | none ↦ none
    | some procs ↦ some (ranks procs)
  ]

  -- `garbage` is what the buffer for the name of the host holds, which nothing is written to
  unfoldable pub rte_barrier_node : (garbage : String) → Rte → Run (List Proc × Rte)
  unfolding rte_n_local_pes rte_local_peers room set_procs fence_procs
  rte_barrier_node garbage r =
      let n = rte_n_local_pes r in
      of_option (rte_local_peers garbage n.1) >>= λ pes.
      set_procs n.1.proc.nspace 0 pes (replicate (room n.0) none) >>= λ procs.
      fence_procs (length pes) procs >>= λ fence. ok (fence, n.1)

  -- the array of hosts, `none` when it is not set, and the number of hosts
  unfoldable pub rte_hosts : (fuel : ℕ) → Rte → Run (Option (List (Option String)) × ℕ × Rte)
  unfolding rte_n_nodes room copy_hosts
  rte_hosts fuel r = elim (p.resolve_nodes r.proc.nspace) [
    | none ↦ ok (none, 0, r)
    | some text ↦
        let n = rte_n_nodes r in
        copy_hosts fuel text (replicate (room n.0) none) 0 >>= λ c. ok (some c.0, c.1, n.1)
  ]

  -- The loop of `rte_remote_peers` over the hosts from `i` on: each host, and its PEs if they were set.
  unfoldable pub peers_loop :
      (k i : ℕ) → List (Option String) → Rte → Run (List (String × Option (List ℕ)))
  unfolding rte_local_peers
  peers_loop zero i hosts r = ok []
  peers_loop (suc k) i hosts r = of_option (get_elem? hosts i) >>= of_option >>= λ host.
      peers_loop k (i + 1) hosts r >>= λ rest. ok ((host, rte_local_peers host r) ∷ rest)

  -- `none` when the array of hosts is not set
  unfoldable pub rte_remote_peers :
      (fuel : ℕ) → Rte → Run (Option (List (String × Option (List ℕ))) × Rte)
  unfolding rte_hosts peers_loop
  rte_remote_peers fuel r = rte_hosts fuel r >>= λ h. elim h.0 [
    | none ↦ ok (none, h.2)
    | some hosts ↦ peers_loop h.1 0 hosts h.2 >>= λ peers. ok (some peers, h.2)
  ]

  unfoldable pub rte_local_root : (hostname : String) → Rte → Run ℕ
  unfolding rte_local_peers
  rte_local_root hostname r =
      of_option (rte_local_peers hostname r) >>= λ peers. of_option (get_elem? peers 0)
