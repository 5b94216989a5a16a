-- ===== src/Comm/Wireup/Counts/Levels.antt =====
-- Level by level: a PE `p` connects to `q` as often as `q` accepts for it.
use open_shmem_csci.Base.{
  ℕ, ◌+◌, ◌*◌, ◌/◌, ◌%◌, ◌^◌, ◌≤◌, ◌<◌, ◌≡◌, ◌≢◌, ◌∙◌, refl, inl, inr, arith, ltb, lt→ltb, ◌==◌,
  ◌&&◌, if◌then◌else◌,
}
use open_shmem_csci.Comm.Node.{LocalityMap}
use open_shmem_csci.Comm.Wireup.{wire_client, wire_server}
use open_shmem_csci.Comm.Wireup.Visits.{client_loop-IsVisited}
use open_shmem_csci.Comm.Wireup.Levels.{parity-cases}
use open_shmem_csci.Comm.Wireup.Counts.{
  dials, accepts, once, client_loop-accepts, server_loop-dials, client_loop-once, server_loop-once,
  server_loop-IsVisited, dials-none, accepts-none,
}

module _ (map : ℕ → LocalityMap) (n : ℕ) (level : ℕ) (wide : 2 ≤ 2 ^ level) where
  client_start : (p : ℕ) → (if ltb 2 (2 * 2 ^ level) && (p % 2 == 1) then 1 else 0) ≡ p % 2
  client_start p =
      rw (lt→ltb 2 (2 * 2 ^ level) (omega arith))
        (elim (parity-cases p) [ inl z ↦ rw z refl | inr z ↦ rw z refl ])

  pub client-once :
      (p q b : ℕ)
      → q ≡ p % 2 + b * 2 * 2 ^ level
      → q < n
      → dials q (wire_client map n p (2 * 2 ^ level)) ≡ once (map q).type
  unfolding wire_client
  client-once p q b e h = rw (client_start p) (
      client_loop-once map n n (2 * 2 ^ level) (p % 2) q b (omega arith) (omega arith) (omega arith)
        h)

  pub client-never :
      (p q : ℕ)
      → ((b : ℕ) → q ≢ p % 2 + b * 2 * 2 ^ level)
      → dials q (wire_client map n p (2 * 2 ^ level)) ≡ 0
  unfolding wire_client
  client-never p q never = rw (client_start p) (
      dials-none q _ (λ d.
        let v = client_loop-IsVisited map n n (2 * 2 ^ level) (p % 2) q d in
        never v.step (v.at ∙ omega arith)))

  pub server-once :
      (p q a : ℕ)
      → p ≡ q % 2 + (a * 2 + 1) * 2 ^ level
      → p < n
      → accepts p (wire_server map n q (2 * 2 ^ level)) ≡ once (map p).type
  unfolding wire_server
  server-once p q a e h =
      server_loop-once map n n (2 * 2 ^ level) (q % 2 + 2 * 2 ^ level / 2) p a (omega arith)
        (omega arith) (omega arith) h

  pub server-never :
      (p q : ℕ)
      → ((a : ℕ) → p ≢ q % 2 + (a * 2 + 1) * 2 ^ level)
      → accepts p (wire_server map n q (2 * 2 ^ level)) ≡ 0
  unfolding wire_server
  server-never p q never = accepts-none p _ (λ d.
      let v = server_loop-IsVisited map n n (2 * 2 ^ level) (q % 2 + 2 * 2 ^ level / 2) p d in
      never v.step (v.at ∙ omega arith))

module _ (map : ℕ → LocalityMap) (n : ℕ) where
  pub client-accepts : (p q stride : ℕ) → accepts p (wire_client map n q stride) ≡ 0
  unfolding wire_client
  client-accepts p q stride = client_loop-accepts map n n stride _ p

  pub server-dials : (p q stride : ℕ) → dials q (wire_server map n p stride) ≡ 0
  unfolding wire_server
  server-dials p q stride = server_loop-dials map n n stride _ q
