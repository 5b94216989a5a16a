-- ===== src/Comm/Wireup/Connected.antt =====
-- The whole wire-up: which PEs a PE connects to, that every connection has its acceptance, and the
-- pairs that stay unconnected.
use native.Mathlib.Nat.{pow-suc}
use native.Mathlib.Decide.{dec_lt}
use mathlib.Core.Path.{subst}
use open_shmem_csci.Base.{
  ℕ, zero, suc, ◌+◌, ◌*◌, ◌/◌, ◌%◌, ◌^◌, ◌≤◌, ◌<◌, ◌≡◌, ◌⊎◌, ◌↔◌, ◌∙◌, refl, sym, ap, inl, inr,
  ◌++◌, arith,
}
use open_shmem_csci.Comm.Node.{LocalityMap, remote}
use open_shmem_csci.Comm.Wireup.{wire_client, wire_server, wire_levels, comm_remote_wireup}
use open_shmem_csci.Comm.Wireup.Levels.{pow_pos, parity-cases}
use open_shmem_csci.Comm.Wireup.Pairs.{
  IsPair, IsPair-parity, wire_server-Dials, pair-Dials, pair-Accepts, Dials-pair,
}
use open_shmem_csci.Comm.Wireup.Visits.{
  Dials, Accepts, Dials-append_left, Dials-append_right, Dials-split, Accepts-append_left,
  Accepts-append_right, IsVisited, client_loop-IsVisited, client_loop-Dials, server_loop-Accepts,
}

pub pow_mono : (a b : ℕ) → a ≤ b → 2 ^ a ≤ 2 ^ b
pow_mono zero b h = pow_pos b
pow_mono (suc a) zero h = absurd (omega arith)
pow_mono (suc a) (suc b) h = omega (arith, pow-suc 2 a, pow-suc 2 b, pow_mono a b (omega arith))

-- `p` is odd and `q` even; or they have one parity, and above it the number of factors 2 is smaller
-- in `p` than in `q`
abbrev pub Meets : ℕ → ℕ → Type 0
Meets p q = ((p % 2 ≡ 1) × (q % 2 ≡ 0)) ⊎ ((d : ℕ) × IsPair 2 d p q)

module _ (map : ℕ → LocalityMap) (n_pes k p : ℕ) where
  pub wireup-even :
      p % 2 ≡ 0
      → comm_remote_wireup map n_pes (suc k) p
        ≡ wire_server map n_pes p 2 ++ wire_levels map n_pes k p 1
  unfolding comm_remote_wireup
  wireup-even z = rw z

  pub wireup-odd :
      p % 2 ≡ 1
      → comm_remote_wireup map n_pes (suc k) p
        ≡ wire_client map n_pes p 2 ++ wire_levels map n_pes k p 1
  unfolding comm_remote_wireup
  wireup-odd z = rw z

-- the level of a pair is below the number of levels
level-lt :
    (d p q n_pes levels : ℕ) → IsPair 2 d p q → p < n_pes → n_pes ≤ 2 ^ levels → suc d < levels
level-lt d p q n_pes levels h lt enough = elim (dec_lt (suc d) levels) [
  | yes below ↦ below
  | no above ↦
      absurd
        (omega (arith, pow_mono levels (suc d) (omega arith), pow-suc 2 d, h.client, pow_pos d))
]

-- level 0: the odd PEs connect to all the even ones
module _ (map : ℕ → LocalityMap) (n_pes p q : ℕ) where
  client-zero : q % 2 ≡ 0 → q < n_pes → (map q).type ≡ remote → Dials q (wire_client map n_pes p 2)
  unfolding wire_client
  client-zero e h r =
      client_loop-Dials map n_pes n_pes 2 0 q (q / 2) (omega arith) (omega arith) (omega arith) h r

  client-zero-IsVisited : Dials q (wire_client map n_pes p 2) → IsVisited map n_pes 0 2 q
  unfolding wire_client
  client-zero-IsVisited h = client_loop-IsVisited map n_pes n_pes 2 0 q h

  server-zero :
      p % 2 ≡ 1
      → q % 2 ≡ 0
      → p < n_pes
      → (map p).type ≡ remote
      → Accepts p (wire_server map n_pes q 2)
  unfolding wire_server
  server-zero e e' h r =
      server_loop-Accepts map n_pes n_pes 2 (q % 2 + 2 / 2) p (p / 2) (omega arith) (omega arith)
        (omega arith) h r

-- what follows level 0, whatever a PE did there
module _ (map : ℕ → LocalityMap) (n_pes k p q : ℕ) where
  upper-Dials :
      Dials q (wire_levels map n_pes k p 1) → Dials q (comm_remote_wireup map n_pes (suc k) p)
  upper-Dials h = elim (parity-cases p) [
    | inl z ↦
        rw (wireup-even map n_pes k p z) (Dials-append_right q (wire_server map n_pes p 2) _ h)
    | inr z ↦ rw (wireup-odd map n_pes k p z) (Dials-append_right q (wire_client map n_pes p 2) _ h)
  ]

  upper-Accepts :
      Accepts q (wire_levels map n_pes k p 1) → Accepts q (comm_remote_wireup map n_pes (suc k) p)
  upper-Accepts h = elim (parity-cases p) [
    | inl z ↦
        rw (wireup-even map n_pes k p z) (Accepts-append_right q (wire_server map n_pes p 2) _ h)
    | inr z ↦
        rw (wireup-odd map n_pes k p z) (Accepts-append_right q (wire_client map n_pes p 2) _ h)
  ]

  upper-Meets :
      Dials q (wire_levels map n_pes k p 1) → Meets p q × (q < n_pes) × ((map q).type ≡ remote)
  upper-Meets h =
      let m = Dials-pair map n_pes k 1 p q (p / 2) (omega arith) (omega arith) (omega arith) h in
      (inr (m.d, m.pair), m.in_range, m.is_remote)

some_level : (n levels : ℕ) → 1 < n → n ≤ 2 ^ levels → (k : ℕ) × (levels ≡ suc k)
some_level n zero h e = absurd (omega arith)
some_level n (suc k) h e = (k, refl)

Meets-ne : (p q : ℕ) → Meets p q → 0 < p
Meets-ne p q (inl (e, e')) = omega arith
Meets-ne p q (inr (d, h)) = omega (arith, h.client, pow_pos d)

module _ (map : ℕ → LocalityMap) (n_pes levels p q : ℕ) where
  wireup-Dials :
      n_pes ≤ 2 ^ levels
      → p < n_pes
      → Meets p q
      → q < n_pes
      → (map q).type ≡ remote
      → Dials q (comm_remote_wireup map n_pes levels p)
  wireup-Dials enough h m lt r =
      let (k, e) = some_level n_pes levels (omega (arith, Meets-ne p q m)) enough in
      subst (λ n. Dials q (comm_remote_wireup map n_pes n p)) (sym e)
        (elim m [
          | inl (odd, even) ↦ rw (wireup-odd map n_pes k p odd) (
              Dials-append_left q (wire_client map n_pes p 2) _
                (client-zero map n_pes p q even lt r))
          | inr (d, pair) ↦ upper-Dials map n_pes k p q (
              pair-Dials map n_pes k d 1 p q (omega arith) (omega arith)
                (omega (arith, level-lt d p q n_pes levels pair h enough)) pair lt r)
        ])

  Dials-wireup :
      Dials q (comm_remote_wireup map n_pes levels p)
      → Meets p q × (q < n_pes) × ((map q).type ≡ remote)
  Dials-wireup h = go levels h
    where
      go :
          (n : ℕ)
          → Dials q (comm_remote_wireup map n_pes n p)
          → Meets p q × (q < n_pes) × ((map q).type ≡ remote)
      go zero h = absurd (unfold comm_remote_wireup in h)
      go (suc k) h = elim (parity-cases p) [
        | inl z ↦
            elim (Dials-split q (wire_server map n_pes p 2) _
              (rw (wireup-even map n_pes k p z) at h)) [
                | inl l ↦ absurd (wire_server-Dials map n_pes p q 2 l)
                | inr u ↦ upper-Meets map n_pes k p q u
              ]
        | inr z ↦
            elim (Dials-split q (wire_client map n_pes p 2) _
              (rw (wireup-odd map n_pes k p z) at h)) [
                | inl l ↦
                    let v = client-zero-IsVisited map n_pes p q l in
                    (inl (z, omega (arith, v.at)), v.in_range, v.is_remote)
                | inr u ↦ upper-Meets map n_pes k p q u
              ]
      ]

  -- With as many levels as it takes for `n_pes`, a PE below `n_pes` connects to exactly the remote
  -- PEs below `n_pes` that it meets: those that are even if it is odd, and those of its own parity
  -- whose distance to that parity has more factors 2.
  pub wireup-Dials_iff :
      n_pes ≤ 2 ^ levels
      → p < n_pes
      → Dials q (comm_remote_wireup map n_pes levels p)
        ↔ (Meets p q × (q < n_pes) × ((map q).type ≡ remote))
  wireup-Dials_iff enough h = (Dials-wireup, λ m. wireup-Dials enough h m.0 m.1 m.2)

  -- With as many levels as it takes for `n_pes`, every connection that a PE `p` below `n_pes`
  -- makes to `q` has its acceptance at `q`, if `p` is remote for `q`: `map'` is the locality map
  -- of `q`.
  pub wireup-Accepts :
      (map' : ℕ → LocalityMap)
      → n_pes ≤ 2 ^ levels
      → p < n_pes
      → (map' p).type ≡ remote
      → Dials q (comm_remote_wireup map n_pes levels p)
      → Accepts p (comm_remote_wireup map' n_pes levels q)
  wireup-Accepts map' enough h r dial =
      let (m, lt, r') = Dials-wireup dial in
      let (k, e) = some_level n_pes levels (omega (arith, Meets-ne p q m)) enough in
      subst (λ n. Accepts p (comm_remote_wireup map' n_pes n q)) (sym e)
        (elim m [
          | inl (odd, even) ↦ rw (wireup-even map' n_pes k q even) (
              Accepts-append_left p (wire_server map' n_pes q 2) _
                (server-zero map' n_pes p q odd even h r))
          | inr (d, pair) ↦ upper-Accepts map' n_pes k q p (
              pair-Accepts map' n_pes k d 1 p q (omega arith) (omega arith)
                (omega (arith, level-lt d p q n_pes levels pair h enough)) pair
                (IsPair-parity 1 d p q (omega arith) pair) h r)
        ])

Meets-mod : (p q : ℕ) → 2 ≤ p % 4 → p % 4 ≡ q % 4 → ¬ Meets p q
Meets-mod p q two same (inl (odd, even)) = absurd (omega arith)
Meets-mod p q two same (inr (zero, h)) = absurd (omega (arith, h.server))
Meets-mod p q two same (inr (suc d, h)) =
    let t = (h.a * 2 + 1) * 2 ^ d in
    let e : p ≡ p % 2 + t * 4 =
      h.client ∙ ap (λ n. p % 2 + (h.a * 2 + 1) * n * 2) (pow-suc 2 d) ∙ omega arith in
    absurd (omega arith)

-- Two PEs with the same remainder modulo 4, which is 2 or 3, such as 2 and 6, are never connected:
-- neither connects to the other, however many levels there are.
pub wireup-unconnected :
    (map map' : ℕ → LocalityMap) (n_pes levels p q : ℕ)
    → 2 ≤ p % 4
    → p % 4 ≡ q % 4
    → (¬ Dials q (comm_remote_wireup map n_pes levels p))
      × (¬ Dials p (comm_remote_wireup map' n_pes levels q))
wireup-unconnected map map' n_pes levels p q two same = (
  λ h. Meets-mod p q two same (Dials-wireup map n_pes levels p q h).0,
  λ h. Meets-mod q p (omega arith) (sym same) (Dials-wireup map' n_pes levels q p h).0,
)
