-- ===== src/Comm/Wireup/Ending/Ordered.antt =====
-- The order of a PE's actions: an odd PE connects to the even ones first; then a PE accepts, and then it
-- connects to PEs of its own parity.
use open_shmem_csci.Base.{
  ℕ, zero, suc, ◌+◌, ◌*◌, ◌/◌, ◌%◌, ◌^◌, ◌≤◌, ◌<◌, ◌≡◌, ◌≢◌, ◌⊎◌, ◌∙◌, refl, sym, ap, inl, inr,
  List, [], ◌∷◌, ◌++◌, arith,
}
use mathlib.Core.Path.{subst}
use mathlib.Core.List.{append-nil}
use native.Mathlib.Nat.{pow-suc}
use open_shmem_csci.Comm.Node.{LocalityMap}
use open_shmem_csci.Comm.Wireup.{
  Action, connect, accept, wire_client, wire_server, wire_levels, comm_remote_wireup,
}
use open_shmem_csci.Comm.Wireup.Visits.{Dials, client_loop-IsVisited}
use open_shmem_csci.Comm.Wireup.Levels.{
  pow_two, pow_pos, parity-cases, wire_levels-server, wire_levels-client,
}
use open_shmem_csci.Comm.Wireup.Pairs.{IsPair, wire_server-Dials, Dials-pair, IsPair-parity}
use open_shmem_csci.Comm.Wireup.Connected.{wireup-even, wireup-odd}
use open_shmem_csci.Comm.Wireup.Counts.{dials, dials-append, dials-none}
use open_shmem_csci.Comm.Wireup.Counts.Upper.{up, wider}
use open_shmem_csci.Comm.Wireup.Counts.Sums.{num_accepts, client-num_accepts}

abbrev pub Ordered : (p : ℕ) → List Action → Type 0
Ordered p [] = Unit
Ordered p (connect q i c d ∷ xs) =
    ((num_accepts xs ≡ 0) ⊎ ((p % 2 ≡ 1) × (q % 2 ≡ 0))) × Ordered p xs
Ordered p (accept i ∷ xs) = ((q : ℕ) → p % 2 ≡ 1 → q % 2 ≡ 0 → dials q xs ≡ 0) × Ordered p xs

Ordered-last : (p : ℕ) (xs : List Action) → num_accepts xs ≡ 0 → Ordered p xs
unfolding num_accepts
Ordered-last p [] e = tt
Ordered-last p (connect q i c d ∷ xs) e = (inl e, Ordered-last p xs e)
Ordered-last p (accept i ∷ xs) e = absurd (omega (arith, e))

Ordered-evens :
    (p : ℕ) (xs rest : List Action)
    → num_accepts xs ≡ 0
    → p % 2 ≡ 1
    → ((q : ℕ) → Dials q xs → q % 2 ≡ 0)
    → Ordered p rest
    → Ordered p (xs ++ rest)
unfolding num_accepts
Ordered-evens p [] rest e odd evens o = o
Ordered-evens p (connect q i c d ∷ xs) rest e odd evens o =
    (inr (odd, evens q (inl refl)), Ordered-evens p xs rest e odd (λ j h. evens j (inr h)) o)
Ordered-evens p (accept i ∷ xs) rest e odd evens o = absurd (omega (arith, e))

Ordered-accepts :
    (p : ℕ) (xs rest : List Action)
    → ((q : ℕ) → Dials q xs → ⊥)
    → ((q : ℕ) → p % 2 ≡ 1 → q % 2 ≡ 0 → dials q rest ≡ 0)
    → Ordered p rest
    → Ordered p (xs ++ rest)
Ordered-accepts p [] rest none later o = o
Ordered-accepts p (connect q i c d ∷ xs) rest none later o = absurd (none q (inl refl))
Ordered-accepts p (accept i ∷ xs) rest none later o = (
  (λ q odd even.
      dials-append q xs rest ∙ omega (arith, dials-none q xs (λ h. none q h), later q odd even)),
  Ordered-accepts p xs rest none later o,
)

pow_half : (level : ℕ) → 0 < level → (u : ℕ) × (0 < u) × (2 ^ level ≡ 2 * u)
pow_half zero h = absurd (omega arith)
pow_half (suc l) h = (2 ^ l, pow_pos l, pow-suc 2 l ∙ omega arith)

module _ (map : ℕ → LocalityMap) (n p : ℕ) where
  -- above level 0 a PE connects to none of the other parity
  other-parity :
      (k level x q : ℕ)
      → 0 < level
      → 2 ≤ 2 ^ level
      → p ≡ p % 2 + x * 2 ^ level
      → p % 2 ≢ q % 2
      → dials q (wire_levels map n k p level) ≡ 0
  other-parity k level x q above wide at ne = dials-none q (wire_levels map n k p level) (λ d.
      let m = Dials-pair map n k level p q x above wide at d in
      let (u, pos, half) = pow_half level above in
      ne (sym (IsPair-parity u m.d p q pos (subst (λ w. IsPair w m.d p q) half m.pair))))

  levels-Ordered :
      (k level x : ℕ)
      → 0 < level
      → 2 ≤ 2 ^ level
      → p ≡ p % 2 + x * 2 ^ level
      → Ordered p (wire_levels map n k p level)
  unfolding wire_levels
  levels-Ordered zero level x above wide at = tt
  levels-Ordered (suc k) level x above wide at = elim (parity-cases x) [
    | inl even ↦
        let e = up x 0 p level (omega arith) at ∙ omega arith in
        let next : 2 ≤ 2 ^ (level + 1) = omega (arith, pow_two level) in
        let at' = wider (x / 2) p level e in
        subst (Ordered p) (sym (wire_levels-server map n p level (x / 2) wide above k e)) (
          Ordered-accepts p (wire_server map n p (2 * 2 ^ level))
            (wire_levels map n k p (level + 1))
            (λ q h. wire_server-Dials map n p q (2 * 2 ^ level) h)
            (λ q odd even'.
              other-parity k (level + 1) (x / 2) q (omega arith) next at'
                (λ e. omega (arith, e, odd, even')))
            (levels-Ordered k (level + 1) (x / 2) (omega arith) next at'))
    | inr odd ↦
        let e = up x 1 p level (omega arith) at in
        subst (Ordered p) (sym (wire_levels-client map n p level (x / 2) wide above k e)) (
          Ordered-last p (wire_client map n p (2 * 2 ^ level) ++ []) (
            ap num_accepts (append-nil (wire_client map n p (2 * 2 ^ level)))
            ∙ client-num_accepts map n p (2 * 2 ^ level)))
  ]

  client_zero-even : (q : ℕ) → Dials q (wire_client map n p 2) → q % 2 ≡ 0
  unfolding wire_client
  client_zero-even q d = let v = client_loop-IsVisited map n n 2 0 q d in omega (arith, v.at)

  pub wireup-Ordered : (levels : ℕ) → Ordered p (comm_remote_wireup map n levels p)
  wireup-Ordered zero = unfold comm_remote_wireup in unfold wire_levels in tt
  wireup-Ordered (suc k) =
      let later = levels-Ordered k 1 (p / 2) (omega arith) (omega arith) (omega arith) in
      elim (parity-cases p) [
        | inl even ↦ subst (Ordered p) (sym (wireup-even map n k p even)) (
            Ordered-accepts p (wire_server map n p 2) (wire_levels map n k p 1)
              (λ q h. wire_server-Dials map n p q 2 h)
              (λ q odd even'. absurd (omega (arith, odd, even))) later)
        | inr odd ↦ subst (Ordered p) (sym (wireup-odd map n k p odd)) (
            Ordered-evens p (wire_client map n p 2) (wire_levels map n k p 1)
              (client-num_accepts map n p 2) odd client_zero-even later)
      ]
