-- ===== src/Comm/Node/Hosts.antt =====
-- The lists of hosts with their PEs, and the entries that the inner loop writes for one host.
use Prim.Native.String.{String}
use mathlib.Core.Path.{subst}
use native.Mathlib.Nat.{add-zero}
use open_shmem_csci.Base.{
  ℕ, zero, suc, ◌+◌, ◌≡◌, ◌∙◌, ap, Option, some, some_inj, List, [], ◌∷◌, ◌++◌, arith, All, length,
  length-set, get_elem?, get_elem?-set_self, set,
}
use open_shmem_csci.Comm.Node.{
  PeType, local, remote, LocalityMap, host_type, entry_index, next_index,
}
use open_shmem_csci.Comm.Node.Writes.{InRange, NotIn, index_after, written, written_keep}

abbrev pub Hosts : Type 0
Hosts = List (String × List ℕ)

-- the PEs of all the hosts, in the order of the lists
abbrev pub all_pes : Hosts → List ℕ
all_pes [] = []
all_pes ((host, pes) ∷ hosts) = pes ++ all_pes hosts

abbrev pub remote_of : PeType → List ℕ → List ℕ
remote_of local pes = []
remote_of remote pes = pes

-- the PEs of the hosts that are not `hostname`
abbrev pub remote_pes : String → Hosts → List ℕ
remote_pes hostname [] = []
remote_pes hostname ((host, pes) ∷ hosts) =
    remote_of (host_type hostname host) pes ++ remote_pes hostname hosts

-- no PE is listed twice
abbrev pub OnceEach : List ℕ → Type 0
OnceEach [] = Unit
OnceEach (pe ∷ pes) = NotIn pe pes × OnceEach pes

pub OnceEach-split :
    (xs ys : List ℕ) → OnceEach (xs ++ ys) → OnceEach xs × OnceEach ys × All (λ x. NotIn x ys) xs
OnceEach-split [] ys h = (tt, h, tt)
OnceEach-split (x ∷ xs) ys h =
    let (a, b, c) = OnceEach-split xs ys h.1 in let (l, r) = All-split xs h.0 in ((l, a), b, (r, c))
  where
    All-split : (zs : List ℕ) → NotIn x (zs ++ ys) → NotIn x zs × NotIn x ys
    All-split [] k = (tt, k)
    All-split (z ∷ zs) k = let r = All-split zs k.1 in ((k.0, r.0), r.1)

pub All-split {ℓ} : (P : ℕ → Type ℓ) (xs ys : List ℕ) → All P (xs ++ ys) → All P xs × All P ys
All-split P [] ys h = (tt, h)
All-split P (x ∷ xs) ys h = let r = All-split P xs ys h.1 in ((h.0, r.0), r.1)

pub index_after_lem :
    (type : PeType) (index : ℕ) (pes : List ℕ)
    → index_after type index pes ≡ index + length (remote_of type pes)
index_after_lem local index [] = omega arith
index_after_lem remote index [] = omega arith
index_after_lem local index (pe ∷ pes) = index_after_lem local index pes
index_after_lem remote index (pe ∷ pes) = omega (arith, index_after_lem remote (index + 1) pes)

pub entry_shift :
    (type : PeType) (j index k : ℕ)
    → entry_index type (j + 1 + k) (next_index type index + k)
      ≡ entry_index type (j + suc k) (index + suc k)
entry_shift local j index k = omega arith
entry_shift remote j index k = omega arith

abbrev pub entry_at : PeType → (i j index : ℕ) → Option LocalityMap
entry_at type i j index = some (record { type = type; index = entry_index type j index; host = i })

abbrev pub entry : PeType → (k index host : ℕ) → Option (Option LocalityMap)
entry type k index host =
    some (some (record { type = type; index = entry_index type k index; host = host }))

pub entry_eq :
    (type : PeType) {k k' index index' host host' : ℕ}
    → k ≡ k'
    → index ≡ index'
    → host ≡ host'
    → entry type k index host ≡ entry type k' index' host'
entry_eq local p q r = cc
entry_eq remote p q r = cc

-- the inner loop writes the entry of its list's place `k`
pub written_get :
    (type : PeType) (i j index : ℕ) (pes : List ℕ) (table : List (Option LocalityMap)) (k : ℕ)
    {pe : ℕ}
    → get_elem? pes k ≡ some pe
    → InRange (length table) pes
    → OnceEach pes
    → get_elem? (written type i j index pes table) pe
      ≡ some (some (record { type = type; index = entry_index type (j + k) (index + k); host = i }))
written_get type i j index [] table k e r o = absurd (cc)
written_get type i j index (q ∷ pes) table zero {pe} e r o =
    let same : q ≡ pe = some_inj e in
    rw (add-zero, add-zero)
      (subst
        (λ p.
          get_elem?
            (written type i (j + 1) (next_index type index) pes
              (set table q (entry_at type i j index)))
            p
          ≡ some (entry_at type i j index))
        same
        (written_keep type i (j + 1) (next_index type index) pes
            (set table q (entry_at type i j index)) q o.0
          ∙ get_elem?-set_self table q (entry_at type i j index) r.0))
written_get type i j index (q ∷ pes) table (suc k) {pe} e r o =
    written_get type i (j + 1) (next_index type index) pes _ k e (rw length-set r.1) o.1
    ∙ ap (λ n. some (some (record { type = type; index = n; host = i })))
        (entry_shift type j index k)

-- one host: both writes of the outer loop's body succeed
