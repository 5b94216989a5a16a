-- ===== src/Rte/Mpi.antt =====
-- rte/mpi/rte.c: the runtime environment over MPI, which is a parameter. A buffer is a list of bytes,
-- and a text in it ends at the first 0. `MPI_Init`, `MPI_Finalize` and `MPI_Barrier` give nothing back.
pub mod Hosts
use open_shmem_csci.Base.{
  ℕ, zero, suc, ◌+◌, ◌*◌, Option, none, some, List, [], ◌∷◌, ◌++◌, ltb, ◌==◌, if◌then◌else◌, length,
}
use open_shmem_csci.Base.Run.{Run, ok, fault, ◌>>=◌, of_option}
use open_shmem_csci.Rte.{hostname_len}

-- What MPI answers in one process: its rank, the number of processes, the name of the processor,
-- and what the receive buffer of `MPI_Allgather` holds when the process has sent these bytes.
pub record Mpi : Type 0 where
  pub comm_rank : ℕ
  pub comm_size : ℕ
  pub processor_name : List ℕ
  pub allgather : List ℕ → List ℕ

-- `__MY_PE` and `__N_PES`
pub record Rte : Type 0 where
  pub my_pe : ℕ
  pub n_pes : ℕ

unfoldable pub rte_init : Mpi → Rte
rte_init m = record { my_pe = m.comm_rank; n_pes = m.comm_size }

abbrev pub drop {ℓ} : {A : Type ℓ} → ℕ → List A → List A
drop zero xs = xs
drop (suc n) [] = []
drop (suc n) (x ∷ xs) = drop n xs

-- MPI writes the name and a 0 to the front of the buffer; a name that is longer overruns it
unfoldable pub rte_hostname : Mpi → (hostname : List ℕ) → Run (List ℕ)
rte_hostname m hostname =
    if ltb (length m.processor_name) (length hostname)
    then ok (m.processor_name ++ 0 ∷ drop (suc (length m.processor_name)) hostname)
    else fault

-- the text at the front of the bytes; without a 0 the read goes on behind them
unfoldable pub text_at : List ℕ → Option (List ℕ)
text_at [] = none
text_at (c ∷ cs) =
    if c == 0 then some [] else elim (text_at cs) [ none ↦ none | some s ↦ some (c ∷ s) ]

-- `strcpy` to a block of `HOSTNAME_LEN` bytes: the text that the block then holds
unfoldable pub strcpy : List ℕ → Run (List ℕ)
unfolding text_at
strcpy source =
    of_option (text_at source) >>= λ s. if ltb (length s) hostname_len then ok s else fault

-- the loop of `rte_hosts` from `i` on, with `k` PEs left
unfoldable pub split_hosts : (k i : ℕ) → List ℕ → Run (List (List ℕ))
unfolding strcpy
split_hosts zero i hosts = ok []
split_hosts (suc k) i hosts = strcpy (drop (i * hostname_len) hosts) >>= λ host.
    split_hosts k (i + 1) hosts >>= λ rest. ok (host ∷ rest)

-- `raw` is what the stack held in the place of `hostname`
unfoldable pub rte_hosts : Mpi → (raw : List ℕ) → Rte → Run (List (List ℕ))
unfolding rte_hostname split_hosts
rte_hosts m raw r = rte_hostname m raw >>= λ hostname. split_hosts r.n_pes 0 (m.allgather hostname)
