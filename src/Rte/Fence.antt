-- ===== src/Rte/Fence.antt =====
-- The processes that the barriers hand to `PMIx_Fence`.
use mathlib.Core.Path.{subst}
use Prim.Native.String.{String}
use open_shmem_csci.Base.{
  ℕ, zero, suc, ◌+◌, ◌%◌, ◌^◌, ◌≤◌, ◌<◌, ◌≡◌, ◌∙◌, refl, sym, ap, Option, none, some, List, [], ◌∷◌,
  ◌++◌, map, length, replicate, length-append, get_elem?, lt→ltb, set, arith,
}
use open_shmem_csci.Base.Run.{ok, bind-ok, write_at, of_option}
use open_shmem_csci.Rte.{
  Proc, Pmix, Rte, local_size, room, int_result, set_procs, fence_procs, ranks_from, ranks,
  with_rank, rte_barrier_all, rte_barrier_node, rte_local_peers,
}

module _ {ℓ} {A : Type ℓ} where
  -- a write at the place after `done`
  pub write_at-append :
      (done : List A) (old new : A) (rest : List A)
      → write_at (done ++ old ∷ rest) (length done) new ≡ ok (done ++ new ∷ rest)
  write_at-append done old new rest =
      rw
        (lt→ltb (length done) (length (done ++ old ∷ rest))
          (omega (arith, length-append done (old ∷ rest))))
        (ap ok (set-append done))
    where
      set-append : (done : List A) → set (done ++ old ∷ rest) (length done) new ≡ done ++ new ∷ rest
      set-append [] = refl
      set-append (x ∷ done) = ap (λ xs. x ∷ xs) (set-append done)

  pub append-cons : (xs : List A) (y : A) (ys : List A) → xs ++ y ∷ ys ≡ (xs ++ y ∷ []) ++ ys
  append-cons [] y ys = refl
  append-cons (x ∷ xs) y ys = ap (λ zs. x ∷ zs) (append-cons xs y ys)

  pub get_elem?-append :
      (xs : List A) (y : A) (ys : List A) → get_elem? (xs ++ y ∷ ys) (length xs) ≡ some y
  get_elem?-append [] y ys = refl
  get_elem?-append (x ∷ xs) y ys = get_elem?-append xs y ys

-- the process of the rank `pe` in `nspace`
abbrev pub proc_of : (nspace : String) (pe : ℕ) → Proc
proc_of nspace pe = record { nspace = nspace; rank = pe }

-- The writes of a loop that fills an array in order: the array without its first elements is `rest`.
pub replicate-split {ℓ} :
    {A : Type ℓ} (n m : ℕ) (a : A)
    → n ≤ m
    → (k : ℕ) × (replicate m a ≡ replicate n a ++ replicate k a)
replicate-split zero m a h = (m, refl)
replicate-split (suc n) zero a h = absurd (omega arith)
replicate-split (suc n) (suc m) a h =
    let (k, e) = replicate-split n m a (omega arith) in (k, ap (λ xs. a ∷ xs) e)

module _ (nspace : String) where
  abbrev entries : List ℕ → List (Option Proc)
  entries pes = map (λ pe. some (proc_of nspace pe)) pes

  set_procs-entries :
      (pes : List ℕ) (i : ℕ) (done rest : List (Option Proc))
      → i ≡ length done
      → set_procs nspace i pes (done ++ (replicate (length pes) none ++ rest))
        ≡ ok (done ++ (entries pes ++ rest))
  unfolding set_procs
  set_procs-entries [] i done rest h = refl
  set_procs-entries (pe ∷ pes) i done rest h =
      let new = some (proc_of nspace pe) in
      let later = replicate (length pes) none ++ rest in
      bind-ok _
        (subst (λ x. write_at (done ++ none ∷ later) x new ≡ ok (done ++ new ∷ later)) (sym h)
          (write_at-append done none new later))
        (subst (λ x. set_procs nspace (i + 1) pes x ≡ ok (done ++ new ∷ (entries pes ++ rest)))
          (sym (append-cons done new later))
          (set_procs-entries pes (i + 1) (done ++ new ∷ []) rest
              (omega (arith, h, length-append done (new ∷ [])))
            ∙ ap ok (sym (append-cons done new (entries pes ++ rest)))))

  fence_procs-entries :
      (pes : List ℕ) (rest : List (Option Proc))
      → fence_procs (length pes) (entries pes ++ rest) ≡ ok (map (proc_of nspace) pes)
  unfolding fence_procs
  fence_procs-entries [] rest = refl
  fence_procs-entries (pe ∷ pes) rest = rw (fence_procs-entries pes rest) refl

  -- filling an array of `m` entries
  fill :
      (pes : List ℕ) (m : ℕ)
      → length pes ≤ m
      → (k : ℕ) × (set_procs nspace 0 pes (replicate m none) ≡ ok (entries pes ++ replicate k none))
  fill pes m h =
      let (k, e) = replicate-split (length pes) m none h in
      (
        k,
        subst (λ x. set_procs nspace 0 pes x ≡ ok (entries pes ++ replicate k none)) (sym e)
            (set_procs-entries pes 0 [] (replicate k none) refl),
      )

pub length-ranks_from : (n i : ℕ) → length (ranks_from n i) ≡ n
unfolding ranks_from
length-ranks_from zero i = refl
length-ranks_from (suc n) i = ap suc (length-ranks_from n (i + 1))

-- With fewer than 2^31 PEs, the barrier over all PEs hands PMIx one process for each rank below the
-- number of PEs, in order and in the own namespace.
pub rte_barrier_all-fence :
    (r : Rte)
    → r.n_pes < 2 ^ 31
    → rte_barrier_all r ≡ ok (map (proc_of r.proc.nspace) (ranks_from r.n_pes 0))
unfolding rte_barrier_all
rte_barrier_all-fence r few =
    let n = r.n_pes in
    let len = length-ranks_from n 0 in
    let (k, filled) = fill r.proc.nspace (ranks_from n 0) n (omega (arith, len)) in
    rw (lt→ltb n (2 ^ 31) few) (
      bind-ok _ filled (
        subst
          (λ x.
            fence_procs x (entries r.proc.nspace (ranks_from n 0) ++ replicate k none)
            ≡ ok (map (proc_of r.proc.nspace) (ranks_from n 0)))
          len (fence_procs-entries r.proc.nspace (ranks_from n 0) (replicate k none))))

pub length-ranks : (procs : List Proc) → length (ranks procs) ≡ length procs
unfolding ranks
length-ranks [] = refl
length-ranks (q ∷ procs) = ap suc (length-ranks procs)

pub local_peers-ranks :
    (p : Pmix) (host : String) (r : Rte) (procs : List Proc)
    → p.resolve_peers host r.proc.nspace ≡ some procs
    → rte_local_peers p host r ≡ some (ranks procs)
unfolding rte_local_peers
local_peers-ranks p host r procs e = rw (e, rte_local_peers) refl

-- a count below 2^31 that PMIx tells is the number of elements of the array
pub room-int : (o : Option ℕ) (n : ℕ) → o ≡ some n → n < 2 ^ 31 → room (int_result 32 o) ≡ n
unfolding room int_result
room-int o n e few =
    let whole : n % 2 ^ 32 ≡ n = omega arith in rw (e) (rw (whole, lt→ltb n (2 ^ 31) few) refl)

-- When PMIx resolves the peers for what the unset name buffer holds, and tells a local size that is
-- below 2^31 and no less than the number of these peers, then the barrier of the node hands PMIx one
-- process for each of these peers, in order and in the own namespace.
pub rte_barrier_node-fence :
    (p : Pmix) (garbage : String) (r : Rte) (procs : List Proc) (n : ℕ)
    → p.resolve_peers garbage r.proc.nspace ≡ some procs
    → p.get (proc_of r.proc.nspace p.rank_wildcard) local_size ≡ some n
    → n < 2 ^ 31
    → length procs ≤ n
    → rte_barrier_node p garbage r
      ≡ ok (map (proc_of r.proc.nspace) (ranks procs), with_rank p.rank_wildcard r)
unfolding rte_barrier_node
rte_barrier_node-fence p garbage r procs n resolved size few fits =
    let nspace = r.proc.nspace in
    let (k, filled) = fill nspace (ranks procs) n (omega (arith, length-ranks procs)) in
    bind-ok _
      (ap of_option (local_peers-ranks p garbage (with_rank p.rank_wildcard r) procs resolved))
      (bind-ok _
        (subst
          (λ x.
            set_procs nspace 0 (ranks procs) (replicate x none)
            ≡ ok (entries nspace (ranks procs) ++ replicate k none))
          (sym (room-int (p.get (proc_of nspace p.rank_wildcard) local_size) n size few)) filled)
        (bind-ok _ (fence_procs-entries nspace (ranks procs) (replicate k none)) refl))
