-- ===== src/Rte/Mpi/Hosts.antt =====
-- Over MPI every process learns the name of every PE's host.
use mathlib.Core.List.{append_assoc}
use open_shmem_csci.Base.{
  ℕ, zero, suc, ◌+◌, ◌-◌, ◌*◌, ◌<◌, ◌≡◌, ◌≢◌, ◌∙◌, refl, sym, ap, some, List, [], ◌∷◌, ◌++◌, All,
  length, length-append, lt→ltb, ne→==, arith,
}
use open_shmem_csci.Base.Run.{ok, bind-ok, of_option}
use open_shmem_csci.Rte.{hostname_len}
use open_shmem_csci.Rte.Mpi.{
  Mpi, rte_init, drop, rte_hostname, text_at, strcpy, split_hosts, rte_hosts,
}

-- the buffers of the processes `i`, `i + 1` and so on, `k` of them, one behind the other
abbrev pub joined_from : (k i : ℕ) → (ℕ → List ℕ) → List ℕ
joined_from zero i sent = []
joined_from (suc k) i sent = sent i ++ joined_from k (i + 1) sent

abbrev pub names_from : (k i : ℕ) → (ℕ → List ℕ) → List (List ℕ)
names_from zero i names = []
names_from (suc k) i names = names i ∷ names_from k (i + 1) names

-- the name with its 0, in front of what the buffer held
abbrev pub name_buffer : (name raw : List ℕ) → List ℕ
name_buffer name raw = name ++ 0 ∷ drop (suc (length name)) raw

-- a name without a 0 that fits into a buffer with its 0
abbrev pub IsName : List ℕ → Type 0
IsName name = All (λ c. c ≢ 0) name × (length name < hostname_len)

length-drop : {A : Type 0} → (n : ℕ) (xs : List A) → length (drop n xs) ≡ length xs - n
length-drop zero xs = omega arith
length-drop (suc n) [] = omega arith
length-drop (suc n) (x ∷ xs) = omega (arith, length-drop n xs)

drop-append : {A : Type 0} → (xs ys : List A) (n : ℕ) → n ≡ length xs → drop n (xs ++ ys) ≡ ys
drop-append [] ys zero e = refl
drop-append [] ys (suc n) e = absurd (omega arith)
drop-append (x ∷ xs) ys zero e = absurd (omega arith)
drop-append (x ∷ xs) ys (suc n) e = drop-append xs ys n (omega arith)

text_at-append : (s rest : List ℕ) → All (λ c. c ≢ 0) s → text_at (s ++ 0 ∷ rest) ≡ some s
unfolding text_at
text_at-append [] rest clean = refl
text_at-append (c ∷ s) rest (ne, clean) = rw (ne→== c 0 ne) (rw (text_at-append s rest clean) refl)

strcpy-append : (s rest : List ℕ) → IsName s → strcpy (s ++ 0 ∷ rest) ≡ ok s
unfolding strcpy
strcpy-append s rest (clean, fits) =
    bind-ok _ (ap of_option (text_at-append s rest clean))
      (rw (lt→ltb (length s) hostname_len fits) refl)

length-name_buffer :
    (name raw : List ℕ)
    → length raw ≡ hostname_len
    → length name < hostname_len
    → length (name_buffer name raw) ≡ hostname_len
length-name_buffer name raw e fits = omega (
  arith,
  length-append name (0 ∷ drop (suc (length name)) raw),
  length-drop (suc (length name)) raw,
)

module _ (names raw : ℕ → List ℕ) where
  abbrev pub sent : ℕ → List ℕ
  sent i = name_buffer (names i) (raw i)

  split_hosts-joined :
      (k i : ℕ) (before : List ℕ)
      → length before ≡ i * hostname_len
      → ((j : ℕ) → j < i + k → IsName (names j) × (length (raw j) ≡ hostname_len))
      → split_hosts k i (before ++ joined_from k i sent) ≡ ok (names_from k i names)
  unfolding split_hosts
  split_hosts-joined zero i before e good = refl
  split_hosts-joined (suc k) i before e good =
      let (name, room) = good i (omega arith) in
      let later = joined_from k (i + 1) sent in
      let here : drop (i * hostname_len) (before ++ (sent i ++ later)) ≡ sent i ++ later =
        drop-append before (sent i ++ later) (i * hostname_len) (sym e) in
      let split : sent i ++ later
          ≡ names i ++ 0 ∷ (drop (suc (length (names i))) (raw i) ++ later) =
        append_assoc (names i) (0 ∷ drop (suc (length (names i))) (raw i)) later in
      let front = length-append before (sent i) in
      let size = length-name_buffer (names i) (raw i) room name.1 in
      bind-ok _ (ap strcpy (here ∙ split) ∙ strcpy-append (names i) _ name) (
        bind-ok _
          (ap (split_hosts k (i + 1)) (sym (append_assoc before (sent i) later))
            ∙ split_hosts-joined k (i + 1) (before ++ sent i) (omega (arith, e, front, size))
                (λ j h. good j (omega arith)))
          refl)

-- `MPI_Allgather` among `n` processes, where the process `i` sends 256 bytes `sent i`: each process
-- receives all of them in the order of the ranks.
pub record IsAllgather (n : ℕ) (m : ℕ → Mpi) (sent : ℕ → List ℕ) : Type 0 where
  pub size : (i : ℕ) → i < n → (m i).comm_size ≡ n
  pub gathers : (i : ℕ) → i < n → (m i).allgather (sent i) ≡ joined_from n 0 sent

-- Among `n` processes that call `rte_hosts` together, if each has a processor's name without a 0 byte
-- and shorter than 256 bytes, and `MPI_Allgather` gives every process what all of them sent, then
-- every process gets the same list: the processors' names of all the PEs in the order of their ranks.
pub mpi_hosts-names :
    (n : ℕ) (m : ℕ → Mpi) (raw : ℕ → List ℕ) (i : ℕ)
    → i < n
    → ((j : ℕ) → j < n → IsName (m j).processor_name × (length (raw j) ≡ hostname_len))
    → IsAllgather n m (sent (λ j. (m j).processor_name) raw)
    → rte_hosts (m i) (raw i) (rte_init (m i)) ≡ ok (names_from n 0 (λ j. (m j).processor_name))
unfolding rte_hosts rte_init rte_hostname
mpi_hosts-names n m raw i h good a =
    let (name, room) = good i h in
    let named : rte_hostname (m i) (raw i) ≡ ok (sent (λ j. (m j).processor_name) raw i) =
      rw (lt→ltb (length (m i).processor_name) (length (raw i)) (omega (arith, name.1, room)))
        refl in
    bind-ok _ named (
      rw (a.size i h, a.gathers i h)
        (split_hosts-joined (λ j. (m j).processor_name) raw n 0 [] refl
          (λ j below. good j (omega arith))))
