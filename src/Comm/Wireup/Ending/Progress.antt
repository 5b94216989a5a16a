-- ===== src/Comm/Wireup/Ending/Progress.antt =====
-- As long as a PE has something to do, two PEs can meet.
use mathlib.Core.Path.{subst}
use native.Mathlib.Nat.{pow-suc}
use native.Mathlib.Decide.{ℕ_discrete}
use open_shmem_csci.Base.{
  total, ℕ, zero, suc, ◌+◌, ◌*◌, ◌%◌, ◌^◌, ◌≤◌, ◌<◌, ◌≡◌, ◌≢◌, refl, sym, ap, inl, inr, List, [],
  ◌∷◌, arith, ◌==◌, ==_refl, Bool-cases, ==→eq,
}
use open_shmem_csci.Comm.Wireup.{Action, connect, accept}
use open_shmem_csci.Comm.Wireup.Levels.{pow_pos}
use open_shmem_csci.Comm.Wireup.Pairs.{IsPair, IsPair-parity}
use open_shmem_csci.Comm.Wireup.Connected.{Meets}
use open_shmem_csci.Comm.Wireup.Counts.{dials}
use open_shmem_csci.Comm.Wireup.Counts.Sums.{num_accepts}
use open_shmem_csci.Comm.Wireup.Ending.{Meeting, meet}
use open_shmem_csci.Comm.Wireup.Ending.Ordered.{Ordered}

-- the PEs that are connected to are below `n` and meet `p`
abbrev pub Reached : (n p : ℕ) → List Action → Type 0
Reached n p [] = Unit
Reached n p (connect q i c d ∷ xs) = ((q < n) × Meets p q) × Reached n p xs
Reached n p (accept i ∷ xs) = Reached n p xs

pub record IsSound (n : ℕ) (todo : ℕ → List Action) : Type 0 where
  pub balanced : (q : ℕ) → q < n → num_accepts (todo q) ≡ total n (λ p. dials q (todo p))
  pub ordered : (p : ℕ) → p < n → Ordered p (todo p)
  pub reached : (p : ℕ) → p < n → Reached n p (todo p)

total-ge : (n : ℕ) (f : ℕ → ℕ) (i : ℕ) → i < n → f i ≤ total n f
unfolding total
total-ge zero f i h = absurd (omega arith)
total-ge (suc n) f i h = elim (ℕ_discrete i n) [
  | yes e ↦ rw e (omega arith)
  | no ne ↦ omega (arith, total-ge n f i (omega (arith, ne)))
]

total-some : (n : ℕ) (f : ℕ → ℕ) → 0 < total n f → (i : ℕ) × (i < n) × (0 < f i)
unfolding total
total-some zero f h = absurd (omega arith)
total-some (suc n) f h = elim (ℕ_discrete (f n) 0) [
  | no ne ↦ (n, omega arith, omega (arith, ne))
  | yes e ↦ let (i, lt, pos) = total-some n f (omega (arith, e, h)) in (i, omega (arith, lt), pos)
]

Reached-dials :
    (n p q : ℕ) (xs : List Action) → Reached n p xs → 0 < dials q xs → (q < n) × Meets p q
unfolding dials
Reached-dials n p q [] r h = absurd (omega arith)
Reached-dials n p q (accept i ∷ xs) r h = Reached-dials n p q xs r h
Reached-dials n p q (connect pe i c d ∷ xs) r h = elim (Bool-cases (pe == q)) [
  | inl e ↦ subst (λ x. (x < n) × Meets p x) (==→eq pe q e) r.0
  | inr e ↦ Reached-dials n p q xs r.1 (omega (arith, rw e at h))
]

-- an odd number of steps is not an even one of a unit that is larger
exponent-lt : (a b d e : ℕ) → (a * 2 + 1) * 2 ^ d ≡ b * 2 * 2 ^ e → e < d
exponent-lt a b zero zero h = absurd (omega arith)
exponent-lt a b zero (suc e) h =
    absurd (omega (arith, pow-suc 2 e, h, ap (λ t. b * t) (pow-suc 2 e)))
exponent-lt a b (suc d) zero h = omega arith
exponent-lt a b (suc d) (suc e) h =
    let k = exponent-lt a b d e (
      omega
        (arith, h, ap (λ t. (a * 2 + 1) * t) (pow-suc 2 d), ap (λ t. b * 2 * t) (pow-suc 2 e))) in
    omega (arith, k)

pow_gt : (d : ℕ) → d < 2 ^ d
pow_gt zero = omega arith
pow_gt (suc d) = omega (arith, pow-suc 2 d, pow_gt d, pow_pos d)

-- who waits for a client of a level is a client of a level below
below : (q p r d e : ℕ) → IsPair 2 d q p → IsPair 2 e r q → e < d
below q p r d e h k =
    let par : q % 2 ≡ r % 2 = IsPair-parity 1 e r q (omega arith) k in
    exponent-lt h.a k.b d e (omega (arith, h.client, k.server, par))

module _ {n : ℕ} {todo : ℕ → List Action} (v : IsSound n todo) where
  abbrev CanMeet : Type 0
  CanMeet = (t : ℕ → List Action) × Meeting n todo t

  -- a PE that somebody has still to connect to has still to accept
  owed : (p q : ℕ) → p < n → q < n → 0 < dials q (todo p) → 0 < num_accepts (todo q)
  owed p q h h' some_dial =
      omega (arith, v.balanced q h', total-ge n (λ i. dials q (todo i)) p h, some_dial)

  -- a PE `p` at a connection to an even PE
  meets_even :
      (p q i c d : ℕ) (xs ys : List Action)
      → p < n
      → q < n
      → q % 2 ≡ 0
      → todo p ≡ connect q i c d ∷ xs
      → todo q ≡ ys
      → 0 < num_accepts (todo q)
      → CanMeet
  unfolding num_accepts
  meets_even p q i c d xs [] h h' even e e' owes = absurd (omega (arith, ap num_accepts e', owes))
  meets_even p q i c d xs (accept j ∷ ys) h h' even e e' owes =
      (_, meet p q i c d j xs ys h h' e e')
  meets_even p q i c d xs (connect r j c' d' ∷ ys) h h' even e e' owes =
      let o = subst (Ordered q) e' (v.ordered q h') in
      elim o.0 [
        | inl none ↦ absurd (omega (arith, ap num_accepts e', owes, none))
        | inr (odd, even') ↦ absurd (omega (arith, odd, even))
      ]

  connect_dials : (q i c d : ℕ) (xs : List Action) → 0 < dials q (connect q i c d ∷ xs)
  unfolding dials
  connect_dials q i c d xs = rw (==_refl q) (omega arith)

  -- a PE `p` at any connection
  meets_any : (p q i c d : ℕ) (xs : List Action) → p < n → todo p ≡ connect q i c d ∷ xs → CanMeet
  unfolding num_accepts
  meets_any p q i c d xs h e =
      let h' = (subst (Reached n p) e (v.reached p h)).0.0 in
      let dial : 0 < dials q (todo p) =
        subst (λ l. 0 < dials q l) (sym e) (connect_dials q i c d xs) in
      go (todo q) h' refl (owed p q h h' dial)
    where
      go : (ys : List Action) → q < n → todo q ≡ ys → 0 < num_accepts (todo q) → CanMeet
      go [] h' e' owes = absurd (omega (arith, ap num_accepts e', owes))
      go (accept j ∷ ys) h' e' owes = (_, meet p q i c d j xs ys h h' e e')
      go (connect r j c' d' ∷ ys) h' e' owes =
          let o = subst (Ordered q) e' (v.ordered q h') in
          let far = (subst (Reached n q) e' (v.reached q h')).0.0 in
          let dial = subst (λ l. 0 < dials r l) (sym e') (connect_dials r j c' d' ys) in
          elim o.0 [
            | inl none ↦ absurd (omega (arith, ap num_accepts e', owes, none))
            | inr (odd, even) ↦
                meets_even q r j c' d' ys (todo r) h' far even e' refl (owed q r h' far dial)
          ]

  -- a PE that has still to connect to `p` and is at an acceptance is a client of a level above 0
  later_client :
      (p q j : ℕ) (ys : List Action)
      → q < n
      → todo q ≡ accept j ∷ ys
      → 0 < dials p (todo q)
      → (d : ℕ) × IsPair 2 d q p
  unfolding dials
  later_client p q j ys h e dial = elim (Reached-dials n q p (todo q) (v.reached q h) dial).1 [
    | inl (odd, even) ↦
        let o = subst (Ordered q) e (v.ordered q h) in
        absurd (omega (arith, o.0 p odd even, ap (dials p) e, dial))
    | inr pair ↦ pair
  ]

  -- some PE has still to connect to a PE that has still to accept
  caller :
      (p i : ℕ) (xs : List Action)
      → p < n
      → todo p ≡ accept i ∷ xs
      → (q : ℕ) × (q < n) × (0 < dials p (todo q))
  unfolding num_accepts
  caller p i xs h e =
      total-some n (λ j. dials p (todo j)) (omega (arith, v.balanced p h, ap num_accepts e))

  -- the head of a PE that has still to connect: a connection, or an acceptance
  at_head :
      (p q : ℕ)
      → q < n
      → 0 < dials p (todo q)
      → (l : List Action) → todo q ≡ l
      → ((j : ℕ) (ys : List Action) → todo q ≡ accept j ∷ ys → CanMeet)
      → CanMeet
  unfolding dials
  at_head p q h dial [] e wait = absurd (omega (arith, ap (dials p) e, dial))
  at_head p q h dial (connect r j c d ∷ ys) e wait = meets_any q r j c d ys h e
  at_head p q h dial (accept j ∷ ys) e wait = wait j ys e

  -- A PE that accepts waits for one that connects, or for one that accepts first and that comes to
  -- be a client at a level below.
  meets_below :
      (fuel p i : ℕ) (xs : List Action)
      → p < n
      → todo p ≡ accept i ∷ xs
      → ((q d : ℕ) → q < n → IsPair 2 d q p → d < fuel)
      → CanMeet
  meets_below zero p i xs h e bound =
      let (q, h', dial) = caller p i xs h e in
      at_head p q h' dial (todo q) refl (λ j ys e'.
        let (d, pair) = later_client p q j ys h' e' dial in
        absurd (omega (arith, bound q d h' pair)))
  meets_below (suc fuel) p i xs h e bound =
      let (q, h', dial) = caller p i xs h e in
      at_head p q h' dial (todo q) refl (λ j ys e'.
        let (d, pair) = later_client p q j ys h' e' dial in
        let small = bound q d h' pair in
        meets_below fuel q j ys h' e'
          (λ r f far pair'. omega (arith, small, below q p r d f pair pair')))

  pub todo-CanMeet : (p : ℕ) (l : List Action) → p < n → todo p ≡ l → l ≢ [] → CanMeet
  todo-CanMeet p [] h e ne = absurd (ne refl)
  todo-CanMeet p (connect q i c d ∷ xs) h e ne = meets_any p q i c d xs h e
  todo-CanMeet p (accept i ∷ xs) h e ne =
      meets_below n p i xs h e
        (λ q d lt pair. let big = pow_gt d in omega (arith, pair.client, big, lt))
