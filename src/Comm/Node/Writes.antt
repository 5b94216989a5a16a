-- ===== src/Comm/Node/Writes.antt =====
-- What the loops leave alone: a PE in none of the lists keeps its entry.
use open_shmem_csci.Base.{
  ℕ, ◌+◌, ◌<◌, ◌≡◌, ◌≢◌, ◌∙◌, refl, Option, some, List, [], ◌∷◌, lt→ltb, All, length, length-set,
  get_elem?, get_elem?-set_ne, set,
}
use open_shmem_csci.Base.Run.{ok, ◌>>=◌, write_at}
use open_shmem_csci.Comm.Node.{PeType, LocalityMap, entry_index, next_index, map_pes}

pub write_at_lem {ℓ} :
    {A : Type ℓ} (xs : List A) (i : ℕ) (a : A) → i < length xs → write_at xs i a ≡ ok (set xs i a)
write_at_lem xs i a h = rw (lt→ltb i (length xs) h)

-- every PE of the list has an entry in an array of `n`
abbrev pub InRange : ℕ → List ℕ → Type 0
InRange n = All (λ pe. pe < n)

abbrev pub NotIn : ℕ → List ℕ → Type 0
NotIn pe = All (λ q. q ≢ pe)

-- the count of remote PEs after a list of them
abbrev pub index_after : PeType → ℕ → List ℕ → ℕ
index_after type index [] = index
index_after type index (pe ∷ pes) = index_after type (next_index type index) pes

-- the map after the inner loop
abbrev pub written :
    PeType → (i j index : ℕ) → List ℕ → List (Option LocalityMap) → List (Option LocalityMap)
written type i j index [] table = table
written type i j index (pe ∷ pes) table =
    written type i (j + 1) (next_index type index) pes
      (set table pe (some (record { type = type; index = entry_index type j index; host = i })))

pub length-written :
    (type : PeType) (i j index : ℕ) (pes : List ℕ) (table : List (Option LocalityMap))
    → length (written type i j index pes table) ≡ length table
length-written type i j index [] table = refl
length-written type i j index (pe ∷ pes) table =
    length-written type i (j + 1) (next_index type index) pes _ ∙ length-set table pe _

-- with every PE in range the inner loop does not fault
pub map_pes_lem :
    (type : PeType) (i j index : ℕ) (pes : List ℕ) (table : List (Option LocalityMap))
    → InRange (length table) pes
    → map_pes type i j index pes table
      ≡ ok (index_after type index pes, written type i j index pes table)
unfolding map_pes
map_pes_lem type i j index [] table h = refl
map_pes_lem type i j index (pe ∷ pes) table h =
    rw (write_at_lem table pe _ h.0, ◌>>=◌)
      (map_pes_lem type i (j + 1) (next_index type index) pes _ (rw length-set h.1))

pub written_keep :
    (type : PeType) (i j index : ℕ) (pes : List ℕ) (table : List (Option LocalityMap)) (pe : ℕ)
    → NotIn pe pes
    → get_elem? (written type i j index pes table) pe ≡ get_elem? table pe
written_keep type i j index [] table pe h = refl
written_keep type i j index (q ∷ pes) table pe h =
    written_keep type i (j + 1) (next_index type index) pes _ pe h.1 ∙ get_elem?-set_ne table _ h.0
