-- ===== src/Comm/Wireup/Counts/Pairs.antt =====
-- A PE connects to another exactly as often as the other accepts for it.
use open_shmem_csci.Base.{
  ℕ, zero, suc, ◌+◌, ◌/◌, ◌%◌, ◌<◌, ◌≡◌, ◌≢◌, ◌⊎◌, ◌∙◌, refl, sym, ap, inl, inr, arith,
}
use open_shmem_csci.Comm.Node.{LocalityMap}
use open_shmem_csci.Comm.Wireup.{wire_client, wire_server, wire_levels, comm_remote_wireup}
use open_shmem_csci.Comm.Wireup.Visits.{client_loop-IsVisited}
use open_shmem_csci.Comm.Wireup.Levels.{parity-cases}
use open_shmem_csci.Comm.Wireup.Pairs.{Dials-pair, IsPair-parity}
use open_shmem_csci.Comm.Wireup.Connected.{wireup-even, wireup-odd}
use open_shmem_csci.Comm.Wireup.Counts.{
  dials, accepts, once, dials-append, accepts-append, dials-none, accepts-none, client_loop-once,
  server_loop-once, server_loop-IsVisited,
}
use open_shmem_csci.Comm.Wireup.Counts.Levels.{client-accepts, server-dials}
use open_shmem_csci.Comm.Wireup.Counts.Upper.{accepts-multiple, levels-same}

-- the two sides of one connection, with the locality maps of `p` and `q`
module _ (map map' : ℕ → LocalityMap) (n p q : ℕ) (lt : p < n) (lt' : q < n)
    (same_type : (map q).type ≡ (map' p).type) where
  -- PEs of different parity have nothing to do with each other above level 0
  upper-dials : (k : ℕ) → p % 2 ≢ q % 2 → dials q (wire_levels map n k p 1) ≡ 0
  upper-dials k ne = dials-none q (wire_levels map n k p 1) (λ d.
      let m = Dials-pair map n k 1 p q (p / 2) (omega arith) (omega arith) (omega arith) d in
      ne (sym (IsPair-parity 1 m.d p q (omega arith) m.pair)))

  upper-accepts : (k : ℕ) → p % 2 ≢ q % 2 → accepts p (wire_levels map' n k q 1) ≡ 0
  upper-accepts k ne =
      accepts-multiple map' n k 1 p q (q / 2) (omega arith) (omega arith) (omega arith)
        (λ c h. ne (omega (arith, h)))

  -- level 0
  zero-client : q % 2 ≡ 0 → dials q (wire_client map n p 2) ≡ once (map q).type
  unfolding wire_client
  zero-client e =
      client_loop-once map n n 2 0 q (q / 2) (omega arith) (omega arith) (omega arith) lt'

  zero-client_odd : q % 2 ≡ 1 → dials q (wire_client map n p 2) ≡ 0
  unfolding wire_client
  zero-client_odd e =
      dials-none q (wire_client map n p 2)
        (λ d. let v = client_loop-IsVisited map n n 2 0 q d in omega (arith, v.at, e))

  zero-server : p % 2 ≡ 1 → q % 2 ≡ 0 → accepts p (wire_server map' n q 2) ≡ once (map' p).type
  unfolding wire_server
  zero-server e e' =
      server_loop-once map' n n 2 (q % 2 + 2 / 2) p (p / 2) (omega arith) (omega arith)
        (omega arith) lt

  zero-server_even : p % 2 ≡ 0 → q % 2 ≡ 0 → accepts p (wire_server map' n q 2) ≡ 0
  unfolding wire_server
  zero-server_even e e' = accepts-none p (wire_server map' n q 2) (λ d.
      let v = server_loop-IsVisited map' n n 2 (q % 2 + 2 / 2) p d in omega (arith, v.at, e, e'))

  -- the whole wire-up
  dials-split :
      (k : ℕ)
      → ((p % 2 ≡ 0)
          × (dials q (comm_remote_wireup map n (suc k) p) ≡ dials q (wire_levels map n k p 1)))
        ⊎ ((p % 2 ≡ 1)
            × (dials q (comm_remote_wireup map n (suc k) p)
                ≡ dials q (wire_client map n p 2) + dials q (wire_levels map n k p 1)))
  dials-split k = elim (parity-cases p) [
    | inl even ↦
        let split =
          ap (dials q) (wireup-even map n k p even)
          ∙ dials-append q (wire_server map n p 2) (wire_levels map n k p 1) in
        inl (even, omega (arith, split, server-dials map n p q 2))
    | inr odd ↦ inr (
      odd,
      ap (dials q) (wireup-odd map n k p odd)
          ∙ dials-append q (wire_client map n p 2) (wire_levels map n k p 1),
    )
  ]

  accepts-split :
      (k : ℕ)
      → ((q % 2 ≡ 0)
          × (accepts p (comm_remote_wireup map' n (suc k) q)
              ≡ accepts p (wire_server map' n q 2) + accepts p (wire_levels map' n k q 1)))
        ⊎ ((q % 2 ≡ 1)
            × (accepts p (comm_remote_wireup map' n (suc k) q)
                ≡ accepts p (wire_levels map' n k q 1)))
  accepts-split k = elim (parity-cases q) [
    | inl even ↦ inl (
      even,
      ap (accepts p) (wireup-even map' n k q even)
          ∙ accepts-append p (wire_server map' n q 2) (wire_levels map' n k q 1),
    )
    | inr odd ↦
        let split =
          ap (accepts p) (wireup-odd map' n k q odd)
          ∙ accepts-append p (wire_client map' n q 2) (wire_levels map' n k q 1) in
        inr (odd, omega (arith, split, client-accepts map' n p q 2))
  ]

  -- Two PEs `p` and `q` below `n` that are both remote or both local for each other: `p` connects to
  -- `q` as often as `q` accepts a connection at the counter `p`.
  pub wireup-same :
      (levels : ℕ)
      → dials q (comm_remote_wireup map n levels p) ≡ accepts p (comm_remote_wireup map' n levels q)
  unfolding comm_remote_wireup wire_levels dials accepts
  wireup-same zero = refl
  wireup-same (suc k) =
      let upper = λ (e : p % 2 ≡ q % 2).
        levels-same map map' n p q lt lt' same_type k 1 (p / 2) (q / 2) (omega arith) (omega arith)
          e (omega arith) (omega arith) in
      elim (dials-split k) [
        | inl (even, d) ↦ elim (accepts-split k) [
          | inl (even', a) ↦
              omega (arith, d, a, zero-server_even even even', upper (even ∙ sym even'))
          | inr (odd', a) ↦
              let ne : p % 2 ≢ q % 2 = λ e. omega (arith, e, even, odd') in
              omega (arith, d, a, upper-dials k ne, upper-accepts k ne)
        ]
        | inr (odd, d) ↦ elim (accepts-split k) [
          | inl (even', a) ↦
              let ne : p % 2 ≢ q % 2 = λ e. omega (arith, e, odd, even') in
              omega (
                arith,
                d,
                a,
                zero-client even',
                zero-server odd even',
                ap once same_type,
                upper-dials k ne,
                upper-accepts k ne,
              )
          | inr (odd', a) ↦ omega (arith, d, a, zero-client_odd odd', upper (odd ∙ sym odd'))
        ]
      ]
