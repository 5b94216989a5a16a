-- ===== src/Comm/Wireup/Ending/Total.antt =====
-- The wire-up of all the PEs ends.
use mathlib.Core.Path.{subst}
use native.Mathlib.Decide.{ℕ_discrete}
use open_shmem_csci.Base.{
  assign, assign_at, assign_off, total, total-one, ℕ, zero, suc, ◌+◌, ◌^◌, ◌≤◌, ◌<◌, ◌≡◌, ◌≢◌, ◌⊎◌,
  ◌∙◌, refl, sym, ap, inl, inr, List, [], ◌∷◌, arith, ◌==◌, if◌then◌else◌, ==_refl, ne→==,
}
use open_shmem_csci.Comm.Node.{LocalityMap}
use open_shmem_csci.Comm.Wireup.{Action, connect, accept, comm_remote_wireup}
use open_shmem_csci.Comm.Wireup.Visits.{Dials}
use open_shmem_csci.Comm.Wireup.Connected.{Meets, wireup-Dials_iff}
use open_shmem_csci.Comm.Wireup.Counts.{dials}
use open_shmem_csci.Comm.Wireup.Counts.Sums.{num_accepts, wireup-balanced}
use open_shmem_csci.Comm.Wireup.Ending.{Meeting, meet, Ending, ended, goes_on}
use open_shmem_csci.Comm.Wireup.Ending.Ordered.{Ordered, wireup-Ordered}
use open_shmem_csci.Comm.Wireup.Ending.Progress.{Reached, IsSound, todo-CanMeet}

-- a meeting takes the heads of two PEs off
module _ (n : ℕ) (todo : ℕ → List Action) (p q index cmd_port data_port i : ℕ) (xs ys : List Action)
    (h : p < n) (h' : q < n) (e : todo p ≡ connect q index cmd_port data_port ∷ xs)
    (e' : todo q ≡ accept i ∷ ys) where
  abbrev after : ℕ → List Action
  after = assign (assign todo p xs) q ys

  apart : p ≢ q
  apart same = connect-accept (sym e ∙ ap todo same ∙ e')
    where
      connect-accept : connect q index cmd_port data_port ∷ xs ≡ accept i ∷ ys → ⊥
      connect-accept k = cc

  at_client : after p ≡ xs
  at_client = assign_off (assign todo p xs) q ys p apart ∙ assign_at todo p xs

  at_server : after q ≡ ys
  at_server = assign_at (assign todo p xs) q ys

  elsewhere : (j : ℕ) → j ≢ p → j ≢ q → after j ≡ todo j
  elsewhere j ne ne' = assign_off (assign todo p xs) q ys j ne' ∙ assign_off todo p xs j ne

  -- a property of lists that the two tails keep
  kept : (P : ℕ → List Action → Type 0) → P p xs → P q ys → (j : ℕ) → P j (todo j) → P j (after j)
  kept P c s j o = elim (ℕ_discrete j q) [
    | yes k ↦ subst (λ x. P x (after x)) (sym k) (subst (P q) (sym at_server) s)
    | no ne' ↦ elim (ℕ_discrete j p) [
      | yes k ↦ subst (λ x. P x (after x)) (sym k) (subst (P p) (sym at_client) c)
      | no ne ↦ subst (P j) (sym (elsewhere j ne ne')) o
    ]
  ]

  -- a sum of which only the client's part changes
  client_part :
      (f : List Action → ℕ)
      → f ys ≡ f (todo q)
      → total n (λ j. f (after j)) + f (todo p) ≡ total n (λ j. f (todo j)) + f xs
  client_part f same =
      let change =
        total-one n (λ j. f (todo j)) (λ j. f (after j)) p h
          (λ j ne. elim (ℕ_discrete j q) [
            | yes k ↦ ap (λ x. f (after x)) k ∙ ap f at_server ∙ same ∙ ap (λ x. f (todo x)) (sym k)
            | no ne' ↦ ap f (elsewhere j ne ne')
          ]) in
      omega (arith, change, ap f at_client)

  after-balanced :
      IsSound n todo → (r : ℕ) → r < n → num_accepts (after r) ≡ total n (λ j. dials r (after j))
  unfolding num_accepts dials
  after-balanced v r lt =
      let old = v.balanced r lt in
      let change = client_part (dials r) (sym (ap (dials r) e')) in
      let before = ap (dials r) e in
      elim (ℕ_discrete r q) [
        | yes k ↦
            let one : ◌≡◌ {A = ℕ} (if q == r then 1 else 0) 1 = rw k (rw (==_refl q) refl) in
            let mine : num_accepts (after r) + 1 ≡ num_accepts (todo r) =
              rw k (omega (arith, ap num_accepts at_server, ap num_accepts e')) in
            omega (arith, old, change, before, one, mine)
        | no ne ↦
            let none : ◌≡◌ {A = ℕ} (if q == r then 1 else 0) 0 =
              rw (ne→== q r (λ k. ne (sym k))) refl in
            let mine : num_accepts (after r) ≡ num_accepts (todo r) = elim (ℕ_discrete r p) [
              | yes k ↦
                  ap (λ x. num_accepts (after x)) k
                  ∙ ap num_accepts at_client
                  ∙ sym (ap num_accepts e)
                  ∙ ap (λ x. num_accepts (todo x)) (sym k)
              | no ne' ↦ ap num_accepts (elsewhere r ne' ne)
            ] in
            omega (arith, old, change, before, none, mine)
      ]

  after-IsSound : IsSound n todo → IsSound n after
  after-IsSound v =
      let o = subst (Ordered p) e (v.ordered p h) in
      let o' = subst (Ordered q) e' (v.ordered q h') in
      let r = subst (Reached n p) e (v.reached p h) in
      let r' = subst (Reached n q) e' (v.reached q h') in
      record {
        balanced = after-balanced v;
        ordered = λ j lt. kept Ordered o.1 o'.1 j (v.ordered j lt);
        reached = λ j lt. kept (Reached n) r.1 r' j (v.reached j lt);
      }

Meeting-IsSound :
    {n : ℕ} {todo t : ℕ → List Action} → IsSound n todo → Meeting n todo t → IsSound n t
Meeting-IsSound {n} {todo} v (meet p q index c d i xs ys h h' e e') =
    after-IsSound n todo p q index c d i xs ys h h' e e' v

-- the number of connections that are left
abbrev connects : List Action → ℕ
connects [] = 0
connects (connect q i c d ∷ xs) = suc (connects xs)
connects (accept i ∷ xs) = connects xs

Meeting-decreases :
    {n : ℕ} {todo t : ℕ → List Action}
    → Meeting n todo t
    → total n (λ j. connects (t j)) < total n (λ j. connects (todo j))
Meeting-decreases {n} {todo} (meet p q index c d i xs ys h h' e e') =
    let change =
      client_part n todo p q index c d i xs ys h h' e e' connects (sym (ap connects e')) in
    omega (arith, change, ap connects e)

-- the first PE below `n` with something to do
find_busy :
    (n : ℕ) (todo : ℕ → List Action)
    → ((p : ℕ) × (p < n) × (todo p ≢ [])) ⊎ ((p : ℕ) → p < n → todo p ≡ [])
find_busy zero todo = inr (λ p h. absurd (omega arith))
find_busy (suc n) todo = elim (find_busy n todo) [
  | inl (p, h, ne) ↦ inl (p, omega arith, ne)
  | inr none ↦ elim (empty-cases (todo n)) [
    | inr ne ↦ inl (n, omega arith, ne)
    | inl e ↦ inr (λ p h. elim (ℕ_discrete p n) [
      | yes k ↦ ap todo k ∙ e
      | no below ↦ none p (omega (arith, below))
    ])
  ]
]
  where
    empty-cases : (l : List Action) → (l ≡ []) ⊎ (l ≢ [])
    empty-cases [] = inl refl
    empty-cases (x ∷ l) = inr (λ e. cc)

ends-within :
    (steps n : ℕ) (todo : ℕ → List Action)
    → IsSound n todo
    → total n (λ j. connects (todo j)) < steps
    → Ending n todo
ends-within zero n todo v few = absurd (omega arith)
ends-within (suc steps) n todo v few = elim (find_busy n todo) [
  | inr done ↦ ended done
  | inl (p, h, ne) ↦
      goes_on (todo-CanMeet v p (todo p) h refl ne) (λ t m.
        ends-within steps n t (Meeting-IsSound v m) (omega (arith, Meeting-decreases m, few)))
]

Dials-Reached :
    (n p : ℕ) (xs : List Action) → ((q : ℕ) → Dials q xs → (q < n) × Meets p q) → Reached n p xs
Dials-Reached n p [] all = tt
Dials-Reached n p (connect q i c d ∷ xs) all =
    (all q (inl refl), Dials-Reached n p xs (λ r k. all r (inr k)))
Dials-Reached n p (accept i ∷ xs) all = Dials-Reached n p xs all

-- Where any two of the `n` PEs are remote for each other or local for each other, and the levels are
-- enough for `n`: the wire-up of all the PEs ends, whomever a PE that accepts a connection gets. Until
-- every PE is done, a PE that is at a connection and the one that it connects to, at an acceptance, can
-- meet, and however they meet, it does not go on for ever.
pub wireup-ends :
    (maps : ℕ → ℕ → LocalityMap) (n levels : ℕ)
    → ((i j : ℕ) → i < n → j < n → (maps i j).type ≡ (maps j i).type)
    → n ≤ 2 ^ levels
    → Ending n (λ p. comm_remote_wireup (maps p) n levels p)
wireup-ends maps n levels both_ways enough =
    let v : IsSound n (λ p. comm_remote_wireup (maps p) n levels p) = record {
      balanced = λ q h. wireup-balanced maps n levels q both_ways h;
      ordered = λ p h. wireup-Ordered (maps p) n p levels;
      reached = λ p h.
          Dials-Reached n p (comm_remote_wireup (maps p) n levels p)
            (λ q k. let m = (wireup-Dials_iff (maps p) n levels p q enough h).0 k in (m.1, m.0));
    } in
    ends-within (suc (total n (λ p. connects (comm_remote_wireup (maps p) n levels p)))) n _ v
      (omega arith)
