-- ===== src/Comm/Wireup/Counts/Upper.antt =====
-- Above level 0 a PE connects to another exactly as often as the other accepts for it.
use open_shmem_csci.Base.{
  ℕ, zero, suc, ◌+◌, ◌*◌, ◌/◌, ◌%◌, ◌^◌, ◌≤◌, ◌<◌, ◌≡◌, ◌≢◌, ◌∙◌, refl, ap, inl, inr, [], arith,
}
use open_shmem_csci.Comm.Node.{LocalityMap}
use open_shmem_csci.Comm.Wireup.{wire_client, wire_server, wire_levels}
use open_shmem_csci.Comm.Wireup.Levels.{
  pow_two, parity-cases, wire_levels-server, wire_levels-client,
}
use open_shmem_csci.Comm.Wireup.Pairs.{Dials-pair}
use open_shmem_csci.Comm.Wireup.Counts.{
  dials, accepts, once, dials-append, accepts-append, dials-none,
}
use open_shmem_csci.Comm.Wireup.Counts.Levels.{
  client-once, client-never, server-once, server-never, client-accepts, server-dials,
}

-- `x * 2 ^ level` by the parity of `x`, in steps of the next level
pub up :
    (x r p level : ℕ)
    → x ≡ x / 2 * 2 + r
    → p ≡ p % 2 + x * 2 ^ level
    → p ≡ p % 2 + (x / 2 * 2 + r) * 2 ^ level
up x r p level e at = at ∙ ap (λ t. p % 2 + t * 2 ^ level) e

-- the same in the unit of the next level
pub wider : (b p level : ℕ) → p ≡ p % 2 + b * 2 * 2 ^ level → p ≡ p % 2 + b * 2 ^ (level + 1)
wider b p level e = e ∙ ap (λ t. p % 2 + t) (omega (arith, ap (λ t. b * t) (pow_two level)))

odd-ne-even : (a b u : ℕ) → 0 < u → (a * 2 + 1) * u ≢ b * 2 * u
odd-ne-even zero zero u pos e = omega arith
odd-ne-even zero (suc b) u pos e = omega arith
odd-ne-even (suc a) zero u pos e = omega arith
odd-ne-even (suc a) (suc b) u pos e = odd-ne-even a b u pos (omega arith)

module _ (map : ℕ → LocalityMap) (n : ℕ) where
  accepts-server :
      (k level p q y : ℕ)
      → 0 < level
      → 2 ≤ 2 ^ level
      → q ≡ q % 2 + y * 2 * 2 ^ level
      → accepts p (wire_levels map n (suc k) q level)
        ≡ accepts p (wire_server map n q (2 * 2 ^ level))
          + accepts p (wire_levels map n k q (level + 1))
  accepts-server k level p q y above wide e =
      ap (accepts p) (wire_levels-server map n q level y wide above k e)
      ∙ accepts-append p (wire_server map n q (2 * 2 ^ level)) (wire_levels map n k q (level + 1))

  accepts-client :
      (k level p q y : ℕ)
      → 0 < level
      → 2 ≤ 2 ^ level
      → q ≡ q % 2 + (y * 2 + 1) * 2 ^ level
      → accepts p (wire_levels map n (suc k) q level) ≡ 0
  unfolding accepts
  accepts-client k level p q y above wide e =
      let split =
        ap (accepts p) (wire_levels-client map n q level y wide above k e)
        ∙ accepts-append p (wire_client map n q (2 * 2 ^ level)) [] in
      omega (arith, split, client-accepts map n p q (2 * 2 ^ level))

  dials-server :
      (k level p q x : ℕ)
      → 0 < level
      → 2 ≤ 2 ^ level
      → p ≡ p % 2 + x * 2 * 2 ^ level
      → dials q (wire_levels map n (suc k) p level) ≡ dials q (wire_levels map n k p (level + 1))
  dials-server k level p q x above wide e =
      let split =
        ap (dials q) (wire_levels-server map n p level x wide above k e)
        ∙ dials-append q (wire_server map n p (2 * 2 ^ level))
            (wire_levels map n k p (level + 1)) in
      omega (arith, split, server-dials map n p q (2 * 2 ^ level))

  dials-client :
      (k level p q x : ℕ)
      → 0 < level
      → 2 ≤ 2 ^ level
      → p ≡ p % 2 + (x * 2 + 1) * 2 ^ level
      → dials q (wire_levels map n (suc k) p level) ≡ dials q (wire_client map n p (2 * 2 ^ level))
  unfolding dials
  dials-client k level p q x above wide e =
      let split =
        ap (dials q) (wire_levels-client map n p level x wide above k e)
        ∙ dials-append q (wire_client map n p (2 * 2 ^ level)) [] in
      omega (arith, split)

  -- the counters that a PE accepts at from a level on are multiples of the level's unit
  pub accepts-multiple :
      (k level p q y : ℕ)
      → 0 < level
      → 2 ≤ 2 ^ level
      → q ≡ q % 2 + y * 2 ^ level
      → ((c : ℕ) → p ≢ q % 2 + c * 2 ^ level)
      → accepts p (wire_levels map n k q level) ≡ 0
  unfolding wire_levels accepts
  accepts-multiple zero level p q y above wide at never = refl
  accepts-multiple (suc k) level p q y above wide at never = elim (parity-cases y) [
    | inl even ↦
        let e = up y 0 q level (omega arith) at ∙ omega arith in
        let here = server-never map n level wide p q (λ a h. never (a * 2 + 1) h) in
        let later =
          accepts-multiple k (level + 1) p q (y / 2) (omega arith) (omega (arith, pow_two level))
            (wider (y / 2) q level e)
            (λ c h.
              never (c * 2)
                (h ∙ ap (λ t. q % 2 + t) (omega (arith, ap (λ t. c * t) (pow_two level))))) in
        omega (arith, accepts-server k level p q (y / 2) above wide e, here, later)
    | inr odd ↦ accepts-client k level p q (y / 2) above wide (up y 1 q level (omega arith) at)
  ]

-- the two sides of one connection, with the locality maps of `p` and `q`
module _ (map map' : ℕ → LocalityMap) (n p q : ℕ) (lt : p < n) (lt' : q < n)
    (same_type : (map q).type ≡ (map' p).type) where
  -- from a level above 0 on, for two PEs of one parity
  pub levels-same :
      (k level x y : ℕ)
      → 0 < level
      → 2 ≤ 2 ^ level
      → p % 2 ≡ q % 2
      → p ≡ p % 2 + x * 2 ^ level
      → q ≡ q % 2 + y * 2 ^ level
      → dials q (wire_levels map n k p level) ≡ accepts p (wire_levels map' n k q level)
  unfolding wire_levels dials accepts
  levels-same zero level x y above wide par at at' = refl
  levels-same (suc k) level x y above wide par at at' =
      let u = 2 ^ level in
      let pos : 0 < u = omega arith in
      let next : 2 ≤ 2 ^ (level + 1) = omega (arith, pow_two level) in
      elim (parity-cases x) [
        | inl even ↦
            let e = up x 0 p level (omega arith) at ∙ omega arith in
            let left = dials-server map n k level p q (x / 2) above wide e in
            elim (parity-cases y) [
              | inl even' ↦
                  let e' = up y 0 q level (omega arith) at' ∙ omega arith in
                  let never =
                    server-never map' n level wide p q
                      (λ a h. odd-ne-even a (x / 2) u pos (omega (arith, h, e, par))) in
                  let ih =
                    levels-same k (level + 1) (x / 2) (y / 2) (omega arith) next par
                      (wider (x / 2) p level e) (wider (y / 2) q level e') in
                  omega (
                    arith,
                    left,
                    accepts-server map' n k level p q (y / 2) above wide e',
                    never,
                    ih,
                  )
              | inr odd' ↦
                  let e' = up y 1 q level (omega arith) at' in
                  let none_left = dials-none q (wire_levels map n k p (level + 1)) (λ d.
                    let m =
                      Dials-pair map n k (level + 1) p q (x / 2) (omega arith) next
                        (wider (x / 2) p level e) d in
                    odd-ne-even (y / 2) (m.pair.b * 2 * 2 ^ m.d) u pos (
                      omega (
                        arith,
                        m.pair.server,
                        e',
                        par,
                        ap (λ t. m.pair.b * 2 * 2 ^ m.d * t) (pow_two level),
                      ))) in
                  omega (
                    arith,
                    left,
                    none_left,
                    accepts-client map' n k level p q (y / 2) above wide e',
                  )
            ]
        | inr odd ↦
            let e = up x 1 p level (omega arith) at in
            let left = dials-client map n k level p q (x / 2) above wide e in
            elim (parity-cases y) [
              | inl even' ↦
                  let e' = up y 0 q level (omega arith) at' ∙ omega arith in
                  let out = client-once map n level wide p q (y / 2) (omega (arith, e', par)) lt' in
                  let in_ = server-once map' n level wide p q (x / 2) (omega (arith, e, par)) lt in
                  let later =
                    accepts-multiple map' n k (level + 1) p q (y / 2) (omega arith) next
                      (wider (y / 2) q level e')
                      (λ c h.
                        odd-ne-even (x / 2) c u pos
                          (omega (arith, h, e, par, ap (λ t. c * t) (pow_two level)))) in
                  omega (
                    arith,
                    left,
                    out,
                    ap once same_type,
                    in_,
                    later,
                    accepts-server map' n k level p q (y / 2) above wide e',
                  )
              | inr odd' ↦
                  let e' = up y 1 q level (omega arith) at' in
                  let never =
                    client-never map n level wide p q
                      (λ b h. odd-ne-even (y / 2) b u pos (omega (arith, h, e', par))) in
                  omega
                    (arith, left, never, accepts-client map' n k level p q (y / 2) above wide e')
            ]
      ]
