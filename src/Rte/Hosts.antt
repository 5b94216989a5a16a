-- ===== src/Rte/Hosts.antt =====
-- `rte_hosts` takes apart the list that PMIx joined, and `rte_remote_peers` finds each host's PEs.
use mathlib.Core.Path.{subst}
use Prim.Native.String.{String, len}
use open_shmem_csci.Base.{
  ℕ, zero, suc, ◌+◌, ◌^◌, ◌≤◌, ◌<◌, ◌≡◌, ◌≢◌, ◌∙◌, refl, sym, ap, Option, none, some, List, [], ◌∷◌,
  ◌++◌, map, length, replicate, length-append, get_elem?, lt→ltb, All, arith,
}
use open_shmem_csci.Base.Run.{Run, ok, ◌>>=◌, bind-ok, write_at, of_option}
use open_shmem_csci.Rte.{
  Proc, Pmix, Rte, num_nodes, hostname_len, copy_hosts, with_rank, ranks, rte_hosts, peers_loop,
  rte_remote_peers,
}
use open_shmem_csci.Rte.Strtok.{strtok, joined, NoComma, strtok-before, strtok-all}
use open_shmem_csci.Rte.Fence.{
  proc_of, write_at-append, append-cons, get_elem?-append, replicate-split, local_peers-ranks,
  room-int,
}

-- a name that fits into a buffer and that the commas of a list delimit
pub record IsHostname (host : String) : Type 0 where
  pub some_char : host ≢ String.[]
  pub clean : NoComma host
  pub fits : len host < hostname_len

abbrev pub written : List String → List (Option String)
written hosts = map (λ h. some h) hosts

copy_step :
    (k n : ℕ) (text host left : String) (done rest : List (Option String))
    → n ≡ length done
    → len host < hostname_len
    → strtok text ≡ some (host, left)
    → copy_hosts (suc k) text (done ++ none ∷ rest) n
      ≡ copy_hosts k left ((done ++ some host ∷ []) ++ rest) (n + 1)
unfolding copy_hosts
copy_step k n text host left done rest h fits token =
    rw (token, copy_hosts)
      (rw (lt→ltb (len host) hostname_len fits) (
        bind-ok _
          (subst (λ x. write_at (done ++ none ∷ rest) x (some host) ≡ ok (done ++ some host ∷ rest))
            (sym h) (write_at-append done none (some host) rest))
          (ap (λ x. copy_hosts k left x (n + 1)) (append-cons done (some host) rest))))

copy_end :
    (k n : ℕ) (hosts : List (Option String)) → copy_hosts (suc k) String.[] hosts n ≡ ok (hosts, n)
unfolding copy_hosts
copy_end k n hosts = refl

pub strtok-joined :
    (host : String) (hosts : List String)
    → IsHostname host
    → strtok (joined (host ∷ hosts)) ≡ some (host, joined hosts)
strtok-joined host [] good = strtok-all host good.clean good.some_char
strtok-joined host (next ∷ hosts) good =
    strtok-before host (joined (next ∷ hosts)) good.clean good.some_char

copy_hosts-joined :
    (hosts : List String) (k n : ℕ) (done rest : List (Option String))
    → n ≡ length done
    → length hosts < k
    → All IsHostname hosts
    → copy_hosts k (joined hosts) (done ++ (replicate (length hosts) none ++ rest)) n
      ≡ ok (done ++ (written hosts ++ rest), n + length hosts)
copy_hosts-joined hosts zero n done rest h fuel good = absurd (omega arith)
copy_hosts-joined [] (suc k) n done rest h fuel good =
    copy_end k n (done ++ rest) ∙ ap (λ x. ok (done ++ rest, x)) (omega arith)
copy_hosts-joined (host ∷ hosts) (suc k) n done rest h fuel (good, goods) =
    let later = replicate (length hosts) none ++ rest in
    copy_step k n (joined (host ∷ hosts)) host (joined hosts) done later h good.fits
      (strtok-joined host hosts good)
    ∙ copy_hosts-joined hosts k (n + 1) (done ++ some host ∷ []) rest
        (omega (arith, h, length-append done (some host ∷ []))) (omega arith) goods
    ∙ ap (λ x. ok (x, n + 1 + length hosts))
        (sym (append-cons done (some host) (written hosts ++ rest)))
    ∙ ap (λ x. ok (done ++ some host ∷ (written hosts ++ rest), x)) (omega arith)

-- PMIx lists the hosts of `nspace`, and tells a number of nodes that is at least theirs.
pub record IsListed (p : Pmix) (r : Rte) (hosts : List String) : Type 0 where
  pub count : ℕ
  pub listed : p.resolve_nodes r.proc.nspace ≡ some (joined hosts)
  pub told : p.get (proc_of r.proc.nspace p.rank_wildcard) num_nodes ≡ some count
  pub few : count < 2 ^ 31
  pub enough : length hosts ≤ count
  pub names : All IsHostname hosts

module _ (p : Pmix) (r : Rte) (hosts : List String) (fuel : ℕ) (h : IsListed p r hosts)
    (some_fuel : length hosts < fuel) where
  -- When PMIx gives the list of hosts joined by commas, each host's name is not empty, has no comma and
  -- fits into its buffer, and the number of nodes that PMIx tells is below 2^31 and no less than the
  -- number of hosts, then `rte_hosts` returns: the array starts with exactly these hosts, in order, the
  -- other entries are not written, and the count is the number of hosts.
  pub rte_hosts-joined :
      (k : ℕ) × (rte_hosts p fuel r
        ≡ ok (some (written hosts ++ replicate k none), length hosts, with_rank p.rank_wildcard r))
  unfolding rte_hosts
  rte_hosts-joined =
      let (k, e) = replicate-split (length hosts) h.count none h.enough in
      let table = written hosts ++ replicate k none in
      let filled : copy_hosts fuel (joined hosts) (replicate h.count none) 0
          ≡ ok (table, length hosts) =
        subst (λ x. copy_hosts fuel (joined hosts) x 0 ≡ ok (table, length hosts)) (sym e)
          (copy_hosts-joined hosts fuel 0 [] (replicate k none) refl some_fuel h.names
            ∙ ap (λ x. ok (table, x)) (omega arith)) in
      (
        k,
        rw (h.listed, rte_hosts)
            (bind-ok _
              (subst
                (λ x.
                  copy_hosts fuel (joined hosts) (replicate x none) 0 ≡ ok (table, length hosts))
                (sym (
                  room-int (p.get (proc_of r.proc.nspace p.rank_wildcard) num_nodes) h.count h.told
                    h.few))
                filled)
              refl),
      )

-- Every host of the table resolves to its PEs.
abbrev pub Resolves : Pmix → (nspace : String) → (String × List ℕ) → Type 0
Resolves p nspace entry =
    (procs : List Proc) × (p.resolve_peers entry.0 nspace ≡ some procs) × (ranks procs ≡ entry.1)

abbrev pub names_of : List (String × List ℕ) → List String
names_of table = map (λ e. e.0) table

pub length-names_of : (table : List (String × List ℕ)) → length (names_of table) ≡ length table
length-names_of [] = refl
length-names_of (e ∷ table) = ap suc (length-names_of table)

abbrev pub found : List (String × List ℕ) → List (String × Option (List ℕ))
found table = map (λ e. (e.0, some e.1)) table

peers_loop-found :
    (p : Pmix) (r : Rte) (table : List (String × List ℕ)) (i : ℕ) (done rest : List (Option String))
    → i ≡ length done
    → All (Resolves p r.proc.nspace) table
    → peers_loop p (length table) i (done ++ (written (names_of table) ++ rest)) r
      ≡ ok (found table)
unfolding peers_loop
peers_loop-found p r [] i done rest h good = refl
peers_loop-found p r ((host, pes) ∷ table) i done rest h ((procs, e, same), good) =
    let later = written (names_of table) ++ rest in
    let tail : peers_loop p (length table) (i + 1) (done ++ some host ∷ later) r
        ≡ ok (found table) =
      subst (λ x. peers_loop p (length table) (i + 1) x r ≡ ok (found table))
        (sym (append-cons done (some host) later))
        (peers_loop-found p r table (i + 1) (done ++ some host ∷ []) rest
          (omega (arith, h, length-append done (some host ∷ []))) good) in
    bind-ok {a = host} _
      (subst (λ x. (of_option (get_elem? (done ++ some host ∷ later) x) >>= of_option) ≡ ok host)
        (sym h) (bind-ok _ (ap of_option (get_elem?-append done (some host) later)) refl))
      (bind-ok _ tail (
        ap (λ x. ok ((host, x) ∷ found table)) (local_peers-ranks p host r procs e ∙ ap some same)))

-- For a listing as in `rte_hosts-joined`, and when PMIx resolves each host to the processes of a list of
-- ranks, `rte_remote_peers` returns the hosts in order, each with the ranks of its own processes.
pub rte_remote_peers-found :
    (p : Pmix) (r : Rte) (table : List (String × List ℕ)) (fuel : ℕ)
    → IsListed p r (names_of table)
    → length table < fuel
    → All (Resolves p r.proc.nspace) table
    → rte_remote_peers p fuel r ≡ ok (some (found table), with_rank p.rank_wildcard r)
unfolding rte_remote_peers
rte_remote_peers-found p r table fuel h some_fuel good =
    let same : length (names_of table) ≡ length table = length-names_of table in
    let (k, e) = rte_hosts-joined p r (names_of table) fuel h (omega (arith, some_fuel, same)) in
    let all = written (names_of table) ++ replicate k none in
    let finish : List (String × Option (List ℕ))
        → Run (Option (List (String × Option (List ℕ))) × Rte) =
      λ peers. ok (some peers, with_rank p.rank_wildcard r) in
    bind-ok _ e (
      subst
        (λ x.
          (peers_loop p x 0 all (with_rank p.rank_wildcard r) >>= finish)
          ≡ ok (some (found table), with_rank p.rank_wildcard r))
        (sym same)
        (bind-ok _
          (peers_loop-found p (with_rank p.rank_wildcard r) table 0 [] (replicate k none) refl good)
          refl))
