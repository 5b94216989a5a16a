-- ===== src/Comm/Wireup/Pairs.antt =====
-- Which pairs of PEs the wire-up connects.
use native.Mathlib.Nat.{add-mul-mod_self_right, mod-eq_of_lt, pow-suc}
use open_shmem_csci.Base.{
  ℕ, zero, suc, ◌+◌, ◌*◌, ◌/◌, ◌%◌, ◌^◌, ◌≤◌, ◌<◌, ◌≡◌, ◌∙◌, sym, ap, inl, inr, ◌&&◌, [], arith,
  ltb, lt→ltb, ◌==◌, if◌then◌else◌,
}
use open_shmem_csci.Comm.Node.{LocalityMap, remote}
use open_shmem_csci.Comm.Wireup.{wire_client, wire_server, wire_levels}
use open_shmem_csci.Comm.Wireup.Levels.{
  pow_two, parity-cases, wire_levels-server, wire_levels-client,
}
use open_shmem_csci.Comm.Wireup.Visits.{
  Dials, Accepts, Dials-append_left, Dials-append_right, Dials-split, Accepts-append_left,
  Accepts-append_right, IsVisited, client_loop-IsVisited, server_loop-Dials, client_loop-Dials,
  server_loop-Accepts,
}

-- `p` and `q` have one parity; above it `p` is an odd and `q` an even multiple of `2 ^ d`, in steps
-- of `unit`: at the level of `d`, `p` is a client and `q` serves.
pub record IsPair (unit d p q : ℕ) : Type 0 where
  pub a : ℕ
  pub b : ℕ
  pub client : p ≡ p % 2 + (a * 2 + 1) * 2 ^ d * unit
  pub server : q ≡ p % 2 + b * 2 * 2 ^ d * unit

-- one level up, `unit` is twice as large and `d` one less
IsPair-up : (level d p q : ℕ) → IsPair (2 ^ level) (suc d) p q → IsPair (2 ^ (level + 1)) d p q
IsPair-up level d p q h = record {
  a = h.a;
  b = h.b;
  client = h.client ∙ ap (λ n. p % 2 + n) (double ((h.a * 2 + 1)));
  server = h.server ∙ ap (λ n. p % 2 + n) (double (h.b * 2));
}
  where
    double : (n : ℕ) → n * 2 ^ suc d * 2 ^ level ≡ n * 2 ^ d * 2 ^ (level + 1)
    double n =
        ap (λ t. n * t * 2 ^ level) (pow-suc 2 d)
        ∙ omega arith
        ∙ ap (λ t. n * 2 ^ d * t) (sym (pow_two level))

IsPair-down : (level d p q : ℕ) → IsPair (2 ^ (level + 1)) d p q → IsPair (2 ^ level) (suc d) p q
IsPair-down level d p q h = record {
  a = h.a;
  b = h.b;
  client = h.client ∙ ap (λ n. p % 2 + n) (double ((h.a * 2 + 1)));
  server = h.server ∙ ap (λ n. p % 2 + n) (double (h.b * 2));
}
  where
    double : (n : ℕ) → n * 2 ^ d * 2 ^ (level + 1) ≡ n * 2 ^ suc d * 2 ^ level
    double n =
        ap (λ t. n * 2 ^ d * t) (pow_two level)
        ∙ omega arith
        ∙ ap (λ t. n * t * 2 ^ level) (sym (pow-suc 2 d))

-- both numbers are even multiples of `unit` below the level of the pair
IsPair-even :
    (unit d p q : ℕ) (h : IsPair unit (suc d) p q)
    → (p ≡ p % 2 + (h.a * 2 + 1) * 2 ^ d * 2 * unit) × (q ≡ p % 2 + h.b * 2 * 2 ^ d * 2 * unit)
IsPair-even unit d p q h = (
  h.client ∙ ap (λ t. p % 2 + (h.a * 2 + 1) * t * unit) (pow-suc 2 d) ∙ omega arith,
  h.server ∙ ap (λ t. p % 2 + h.b * 2 * t * unit) (pow-suc 2 d) ∙ omega arith,
)

pub IsPair-parity : (unit d p q : ℕ) → 0 < unit → IsPair (2 * unit) d p q → q % 2 ≡ p % 2
IsPair-parity unit d p q pos h =
    ap (λ n. n % 2) (h.server ∙ omega arith)
    ∙ add-mul-mod_self_right (p % 2) (h.b * 2 * 2 ^ d * unit) 2
    ∙ mod-eq_of_lt (omega arith)

module _ (map : ℕ → LocalityMap) (n_pes : ℕ) where
  -- a server of a level connects to none
  pub wire_server-Dials : (p q stride : ℕ) → ¬ Dials q (wire_server map n_pes p stride)
  unfolding wire_server
  wire_server-Dials p q stride h = server_loop-Dials map n_pes n_pes stride (p % 2 + stride / 2) q h

  module _ (p q level : ℕ) (wide : 2 ≤ 2 ^ level) where
    start_lem : (if ltb 2 (2 * 2 ^ level) && (p % 2 == 1) then 1 else 0) ≡ p % 2
    start_lem =
        rw (lt→ltb 2 (2 * 2 ^ level) (omega arith))
          (elim (parity-cases p) [ inl z ↦ rw z | inr z ↦ rw z ])

    wire_client-Dials :
        (b : ℕ)
        → q ≡ p % 2 + b * 2 * 2 ^ level
        → q < n_pes
        → (map q).type ≡ remote
        → Dials q (wire_client map n_pes p (2 * 2 ^ level))
    unfolding wire_client
    wire_client-Dials b e h r = rw start_lem (
        client_loop-Dials map n_pes n_pes (2 * 2 ^ level) (p % 2) q b (omega arith) (omega arith)
          (omega arith) h r)

    wire_client-IsVisited :
        Dials q (wire_client map n_pes p (2 * 2 ^ level))
        → IsVisited map n_pes (p % 2) (2 * 2 ^ level) q
    unfolding wire_client
    wire_client-IsVisited h =
        client_loop-IsVisited map n_pes n_pes (2 * 2 ^ level) (p % 2) q (rw start_lem at h)

    wire_server-Accepts :
        (a : ℕ)
        → p ≡ q % 2 + (a * 2 + 1) * 2 ^ level
        → p < n_pes
        → (map p).type ≡ remote
        → Accepts p (wire_server map n_pes q (2 * 2 ^ level))
    unfolding wire_server
    wire_server-Accepts a e h r =
        server_loop-Accepts map n_pes n_pes (2 * 2 ^ level) (q % 2 + 2 * 2 ^ level / 2) p a
          (omega arith) (omega arith) (omega arith) h r

  -- From a level of the client's parity on, a pair meets at its level.
  pub pair-Dials :
      (k d level p q : ℕ)
      → 0 < level
      → 2 ≤ 2 ^ level
      → d < k
      → IsPair (2 ^ level) d p q
      → q < n_pes
      → (map q).type ≡ remote
      → Dials q (wire_levels map n_pes k p level)
  pair-Dials zero d level p q above wide enough h lt r = absurd (omega arith)
  pair-Dials (suc k) zero level p q above wide enough h lt r =
      rw (wire_levels-client map n_pes p level h.a wide above k (h.client ∙ omega arith)) (
        Dials-append_left q (wire_client map n_pes p (2 * 2 ^ level)) []
          (wire_client-Dials p q level wide h.b (h.server ∙ omega arith) lt r))
  pair-Dials (suc k) (suc d) level p q above wide enough h lt r =
      rw
        (wire_levels-server map n_pes p level ((h.a * 2 + 1) * 2 ^ d) wide above k
          (IsPair-even (2 ^ level) d p q h).0)
        (Dials-append_right q (wire_server map n_pes p (2 * 2 ^ level)) _ (
          pair-Dials k d (level + 1) p q (omega arith) (omega (arith, pow_two level)) (omega arith)
            (IsPair-up level d p q h) lt r))

  pub pair-Accepts :
      (k d level p q : ℕ)
      → 0 < level
      → 2 ≤ 2 ^ level
      → d < k
      → IsPair (2 ^ level) d p q
      → q % 2 ≡ p % 2
      → p < n_pes
      → (map p).type ≡ remote
      → Accepts p (wire_levels map n_pes k q level)
  pair-Accepts zero d level p q above wide enough h same lt r = absurd (omega arith)
  pair-Accepts (suc k) zero level p q above wide enough h same lt r =
      rw (wire_levels-server map n_pes q level h.b wide above k (h.server ∙ omega arith)) (
        Accepts-append_left p (wire_server map n_pes q (2 * 2 ^ level)) _
          (wire_server-Accepts p q level wide h.a (h.client ∙ omega arith) lt r))
  pair-Accepts (suc k) (suc d) level p q above wide enough h same lt r =
      rw
        (wire_levels-server map n_pes q level (h.b * 2 * 2 ^ d) wide above k
          ((IsPair-even (2 ^ level) d p q h).1 ∙ omega arith))
        (Accepts-append_right p (wire_server map n_pes q (2 * 2 ^ level)) _ (
          pair-Accepts k d (level + 1) p q (omega arith) (omega (arith, pow_two level))
            (omega arith) (IsPair-up level d p q h) same lt r))

  -- what a connection of the upper levels says of its ends
  pub record IsMet (level p q : ℕ) : Type 0 where
    pub d : ℕ
    pub pair : IsPair (2 ^ level) d p q
    pub in_range : q < n_pes
    pub is_remote : (map q).type ≡ remote

  pub Dials-pair :
      (k level p q x : ℕ)
      → 0 < level
      → 2 ≤ 2 ^ level
      → p ≡ p % 2 + x * 2 ^ level
      → Dials q (wire_levels map n_pes k p level)
      → IsMet level p q
  Dials-pair zero level p q x above wide e h = absurd (unfold wire_levels in h)
  Dials-pair (suc k) level p q x above wide e h =
      let y = x / 2 in
      elim (parity-cases x) [
        | inl even ↦
            let eq : p ≡ p % 2 + y * 2 * 2 ^ level =
              e ∙ ap (λ n. p % 2 + n * 2 ^ level) (omega arith) in
            let up : p ≡ p % 2 + y * 2 ^ (level + 1) =
              eq ∙ omega (arith, ap (λ n. y * n) (pow_two level)) in
            elim (Dials-split q (wire_server map n_pes p (2 * 2 ^ level)) _
              (rw (wire_levels-server map n_pes p level y wide above k eq) at h)) [
                | inl l ↦ absurd (wire_server-Dials p q (2 * 2 ^ level) l)
                | inr rest ↦
                    let m =
                      Dials-pair k (level + 1) p q y (omega arith) (omega (arith, pow_two level)) up
                        rest in
                    record {
                      d = suc m.d;
                      pair = IsPair-down level m.d p q m.pair;
                      in_range = m.in_range;
                      is_remote = m.is_remote;
                    }
              ]
        | inr odd ↦
            let eq : p ≡ p % 2 + (y * 2 + 1) * 2 ^ level =
              e ∙ ap (λ n. p % 2 + n * 2 ^ level) (omega arith) in
            elim (Dials-split q (wire_client map n_pes p (2 * 2 ^ level)) []
              (rw (wire_levels-client map n_pes p level y wide above k eq) at h)) [
                | inr none_left ↦ absurd none_left
                | inl l ↦
                    let v = wire_client-IsVisited p q level wide l in
                    record {
                      d = 0;
                      pair = record {
                        a = y;
                        b = v.step;
                        client = eq ∙ omega arith;
                        server = v.at ∙ omega arith;
                      };
                      in_range = v.in_range;
                      is_remote = v.is_remote;
                    }
              ]
      ]
