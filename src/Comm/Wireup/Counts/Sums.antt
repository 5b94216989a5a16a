-- ===== src/Comm/Wireup/Counts/Sums.antt =====
-- All the connections to a PE, and all its acceptances.
use open_shmem_csci.Base.{
  total, total-one, total-same, Bool, ℕ, zero, suc, ◌+◌, ◌<◌, ◌≡◌, ◌∙◌, refl, sym, List, [], ◌∷◌,
  ◌++◌, arith, ◌==◌, if◌then◌else◌, ==_refl, ne→==, true, false, ltb, ltb→lt, Bool-cases, inl, inr,
  ◌&&◌, ◌*◌, ◌%◌, ◌^◌,
}
use open_shmem_csci.Comm.Node.{PeType, local, remote, LocalityMap}
use open_shmem_csci.Comm.Wireup.{
  Action, connect, accept, client_loop, server_loop, wire_client, wire_server, wire_levels,
  comm_remote_wireup,
}
use open_shmem_csci.Comm.Wireup.Counts.{dials, accepts}
use open_shmem_csci.Comm.Wireup.Counts.Levels.{client-accepts}
use open_shmem_csci.Comm.Wireup.Counts.Pairs.{wireup-same}

unfoldable pub num_accepts : List Action → ℕ
num_accepts [] = 0
num_accepts (connect pe i c d ∷ xs) = num_accepts xs
num_accepts (accept i ∷ xs) = suc (num_accepts xs)

-- the counters of the acceptances are below `n`
abbrev pub Below : ℕ → List Action → Type 0
Below n [] = Unit
Below n (connect pe i c d ∷ xs) = Below n xs
Below n (accept i ∷ xs) = (i < n) × Below n xs

Below-append : (n : ℕ) (xs ys : List Action) → Below n xs → Below n ys → Below n (xs ++ ys)
Below-append n [] ys h k = k
Below-append n (connect pe i c d ∷ xs) ys h k = Below-append n xs ys h k
Below-append n (accept i ∷ xs) ys h k = (h.0, Below-append n xs ys h.1 k)

total-zero : (n : ℕ) → total n (λ p. 0) ≡ 0
unfolding total
total-zero zero = refl
total-zero (suc n) = omega (arith, total-zero n)

num_accepts-total :
    (n : ℕ) (xs : List Action) → Below n xs → total n (λ p. accepts p xs) ≡ num_accepts xs
unfolding num_accepts accepts
num_accepts-total n [] h = total-zero n
num_accepts-total n (connect pe i c d ∷ xs) h = num_accepts-total n xs h
num_accepts-total n (accept i ∷ xs) (lt, h) =
    let change =
      total-one n (λ p. accepts p xs) (λ p. (if i == p then 1 else 0) + accepts p xs) i lt
        (λ j ne. rw (ne→== i j (λ e. ne (sym e))) (omega arith)) in
    let here : (if i == i then 1 else 0) + accepts i xs ≡ suc (accepts i xs) =
      rw (==_refl i) (omega arith) in
    omega (arith, change, here, num_accepts-total n xs h)

module _ (map : ℕ → LocalityMap) (n : ℕ) where
  client_loop-Below : (k stride pe : ℕ) → Below n (client_loop map n k stride pe)
  unfolding client_loop
  client_loop-Below zero stride pe = tt
  client_loop-Below (suc k) stride pe =
      let rest = client_loop-Below k stride (pe + stride) in
      elim (Bool-cases (ltb pe n)) [
        | inr out ↦ rw out tt
        | inl inside ↦ rw inside (by_type (map pe).type rest)
      ]
    where
      by_type :
          (t : PeType)
          → Below n (client_loop map n k stride (pe + stride))
          → Below n (elim t [
            | local ↦ client_loop map n k stride (pe + stride)
            | remote ↦
                connect pe (map pe).index (36500 + 2 * pe) (36500 + 2 * pe + 1)
                ∷ client_loop map n k stride (pe + stride)
          ])
      by_type local h = h
      by_type remote h = h

  server_loop-Below : (k stride i : ℕ) → Below n (server_loop map n k stride i)
  unfolding server_loop
  server_loop-Below zero stride i = tt
  server_loop-Below (suc k) stride i =
      let rest = server_loop-Below k stride (i + stride) in
      elim (Bool-cases (ltb i n)) [
        | inr out ↦ rw out tt
        | inl inside ↦ rw inside (by_type (map i).type (ltb→lt i n inside) rest)
      ]
    where
      by_type :
          (t : PeType)
          → i < n
          → Below n (server_loop map n k stride (i + stride))
          → Below n (elim t [
            | local ↦ server_loop map n k stride (i + stride)
            | remote ↦ accept i ∷ server_loop map n k stride (i + stride)
          ])
      by_type local lt h = h
      by_type remote lt h = (lt, h)

  Below-if :
      (c : Bool) (xs ys : List Action) → Below n xs → Below n ys → Below n (if c then xs else ys)
  Below-if true xs ys h k = h
  Below-if false xs ys h k = k

  wire_client-Below : (p stride : ℕ) → Below n (wire_client map n p stride)
  unfolding wire_client
  wire_client-Below p stride = client_loop-Below n stride _

  wire_server-Below : (q stride : ℕ) → Below n (wire_server map n q stride)
  unfolding wire_server
  wire_server-Below q stride = server_loop-Below n stride _

  wire_levels-Below : (k p level : ℕ) → Below n (wire_levels map n k p level)
  unfolding wire_levels
  wire_levels-Below zero p level = tt
  wire_levels-Below (suc k) p level =
      let stride = 2 * 2 ^ level in
      let rest = wire_levels-Below k p (level + 1) in
      let serve = Below-append n (wire_server map n p stride) _ (wire_server-Below p stride) rest in
      Below-if ((p % 2 == 0) && (p % stride == 0)) _ _ serve (
        Below-if (ltb 0 level && (p % 2 == 1) && (p % stride == 1)) _ _ serve (
          Below-append n (wire_client map n p stride) _ (wire_client-Below p stride)
            (Below-if (ltb 0 level) [] _ tt rest)))

  pub wireup-Below : (levels p : ℕ) → Below n (comm_remote_wireup map n levels p)
  unfolding comm_remote_wireup
  wireup-Below levels p = wire_levels-Below levels p 0

  pub client-num_accepts : (p stride : ℕ) → num_accepts (wire_client map n p stride) ≡ 0
  client-num_accepts p stride =
      let none_each =
        total-same n (λ i. 0) (λ i. accepts i (wire_client map n p stride))
          (λ i h. client-accepts map n i p stride) in
      sym (num_accepts-total n _ (wire_client-Below p stride)) ∙ none_each ∙ total-zero n

-- Where PEs are remote for each other both ways, a PE accepts as many connections as all the PEs make
-- to it.
pub wireup-balanced :
    (maps : ℕ → ℕ → LocalityMap) (n levels q : ℕ)
    → ((i j : ℕ) → i < n → j < n → (maps i j).type ≡ (maps j i).type)
    → q < n
    → num_accepts (comm_remote_wireup (maps q) n levels q)
      ≡ total n (λ p. dials q (comm_remote_wireup (maps p) n levels p))
wireup-balanced maps n levels q both_ways h =
    sym (num_accepts-total n _ (wireup-Below (maps q) n levels q))
    ∙ total-same n (λ p. dials q (comm_remote_wireup (maps p) n levels p))
        (λ p. accepts p (comm_remote_wireup (maps q) n levels q))
        (λ p lt. sym (wireup-same (maps p) (maps q) n p q lt h (both_ways p q lt h) levels))
