-- ===== src/Rte/Limits.antt =====
-- The loop of `rte_hosts` on any text, and what it does when the number of nodes is not known.
use mathlib.Core.Path.{subst}
use Prim.Native.Char.{Char, code}
use Prim.Native.String.{String, len}
use open_shmem_csci.Base.{
  ℕ, zero, suc, ◌+◌, ◌≤◌, ◌<◌, ◌≡◌, ◌≢◌, refl, inl, inr, Option, none, some, List, [], ◌∷◌, ◌==◌,
  length, ltb, lt→ltb, Bool-cases, Option-cases, some_inj, set, arith,
}
use open_shmem_csci.Base.Run.{fault, out_of_fuel}
use open_shmem_csci.Rte.{Pmix, Rte, num_nodes, hostname_len, copy_hosts, rte_hosts}
use open_shmem_csci.Rte.Strtok.{skip, split, first_token, strtok, joined}
use open_shmem_csci.Rte.Fence.{proc_of}
use open_shmem_csci.Rte.Hosts.{IsHostname, strtok-joined}

abbrev pub num_chars : String → ℕ
num_chars String.[] = 0
num_chars (String.◌∷◌ c s) = suc (num_chars s)

num_chars-skip : (s : String) → num_chars (skip s) ≤ num_chars s
unfolding skip
num_chars-skip String.[] = omega arith
num_chars-skip (String.◌∷◌ c s) = elim (Bool-cases (code c == b',')) [
  | inl e ↦ rw (e) (omega (arith, num_chars-skip s))
  | inr e ↦ rw (e) (omega arith)
]

num_chars-split : (s : String) → num_chars (split s).1 ≤ num_chars s
unfolding split
num_chars-split String.[] = omega arith
num_chars-split (String.◌∷◌ c s) = elim (Bool-cases (code c == b',')) [
  | inl e ↦ rw (e) (omega arith)
  | inr e ↦ rw (e) (omega (arith, num_chars-split s))
]

split_shorter : (c : Char) (s : String) → num_chars (split (String.◌∷◌ c s)).1 ≤ num_chars s
unfolding split
split_shorter c s = elim (Bool-cases (code c == b',')) [
  | inl e ↦ rw (e) (omega arith)
  | inr e ↦ rw (e) (num_chars-split s)
]

first_token_shorter :
    (s : String) (t : String × String) → first_token s ≡ some t → num_chars t.1 < num_chars s
unfolding first_token
first_token_shorter String.[] t h = cc
first_token_shorter (String.◌∷◌ c s) t h =
    subst (λ x. num_chars x.1 < suc (num_chars s)) (some_inj h) (omega (arith, split_shorter c s))

-- a token takes a character at least
pub strtok_shorter :
    (s : String) (t : String × String) → strtok s ≡ some t → num_chars t.1 < num_chars s
unfolding strtok
strtok_shorter s t h = omega (arith, first_token_shorter (skip s) t h, num_chars-skip s)

-- Fuel for one token more than the text has characters is enough on every text and every array: the loop
-- of `rte_hosts` ends, at the end of the text or in a fault.
pub copy_hosts-ends :
    (k : ℕ) (text : String) (hosts : List (Option String)) (n : ℕ)
    → num_chars text < k
    → copy_hosts k text hosts n ≢ out_of_fuel
unfolding copy_hosts
copy_hosts-ends zero text hosts n h = absurd (omega arith)
copy_hosts-ends (suc k) text hosts n h = elim (Option-cases (strtok text)) [
  | inl e ↦ rw (e, copy_hosts) (λ x. cc)
  | inr (t, e) ↦
      rw (e, copy_hosts)
        (elim (Bool-cases (ltb (len t.0) hostname_len)) [
          | inr long ↦ rw (long) (λ x. cc)
          | inl short ↦ rw (short) (elim (Bool-cases (ltb n (length hosts))) [
            | inr outside ↦ rw (outside) (λ x. cc)
            | inl inside ↦ rw (inside) (
                copy_hosts-ends k t.1 (set hosts n (some t.0)) (n + 1)
                  (omega (arith, strtok_shorter text t e)))
          ])
        ])
]

copy_hosts-full :
    (k : ℕ) (host : String) (hosts : List String)
    → IsHostname host
    → copy_hosts (suc k) (joined (host ∷ hosts)) [] 0 ≡ fault
unfolding copy_hosts
copy_hosts-full k host hosts good =
    rw (strtok-joined host hosts good, copy_hosts)
      (rw (lt→ltb (len host) hostname_len good.fits) refl)

-- When the number of nodes is not known, the array that `rte_hosts` allocates has no room: the first
-- host of a list that PMIx gives faults.
pub rte_hosts-unknown :
    (p : Pmix) (r : Rte) (fuel : ℕ) (host : String) (hosts : List String)
    → p.resolve_nodes r.proc.nspace ≡ some (joined (host ∷ hosts))
    → p.get (proc_of r.proc.nspace p.rank_wildcard) num_nodes ≡ none
    → IsHostname host
    → rte_hosts p (suc fuel) r ≡ fault
unfolding rte_hosts
rte_hosts-unknown p r fuel host hosts listed unknown good =
    rw (listed, rte_hosts) (rw (unknown) (rw (copy_hosts-full fuel host hosts good) refl))
