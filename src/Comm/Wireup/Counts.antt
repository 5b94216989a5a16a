-- ===== src/Comm/Wireup/Counts.antt =====
-- How often a PE connects to another and how often it accepts: the two sides of the wire-up agree.
pub mod Levels
pub mod Sums
pub mod Upper
pub mod Pairs
use open_shmem_csci.Base.{
  ℕ, zero, suc, ◌+◌, ◌*◌, ◌≤◌, ◌<◌, ◌≡◌, ◌≢◌, ◌⊎◌, ◌∙◌, refl, sym, ap, inl, inr, Bool, true, false,
  List, [], ◌∷◌, ◌++◌, arith, ltb, ◌==◌, if◌then◌else◌, ==_refl, ne→==, lt→ltb, ltb→lt, Bool-cases,
}
use mathlib.Core.Path.{subst}
use open_shmem_csci.Comm.Wireup.Visits.{Dials, Accepts, IsVisited, later}
use open_shmem_csci.Comm.Node.{PeType, local, remote, LocalityMap}
use open_shmem_csci.Comm.Wireup.{Action, connect, accept, client_loop, server_loop}

-- the connections to `q` among the actions
unfoldable pub dials : ℕ → List Action → ℕ
dials q [] = 0
dials q (connect pe index cmd_port data_port ∷ xs) = (if pe == q then 1 else 0) + dials q xs
dials q (accept i ∷ xs) = dials q xs

-- the acceptances at the counter `p`
unfoldable pub accepts : ℕ → List Action → ℕ
accepts p [] = 0
accepts p (connect pe index cmd_port data_port ∷ xs) = accepts p xs
accepts p (accept i ∷ xs) = (if i == p then 1 else 0) + accepts p xs

-- a remote PE counts once
abbrev pub once : PeType → ℕ
once local = 0
once remote = 1

pub dials-append : (q : ℕ) (xs ys : List Action) → dials q (xs ++ ys) ≡ dials q xs + dials q ys
unfolding dials
dials-append q [] ys = omega arith
dials-append q (connect pe i c d ∷ xs) ys = omega (arith, dials-append q xs ys)
dials-append q (accept i ∷ xs) ys = dials-append q xs ys

pub accepts-append :
    (p : ℕ) (xs ys : List Action) → accepts p (xs ++ ys) ≡ accepts p xs + accepts p ys
unfolding accepts
accepts-append p [] ys = omega arith
accepts-append p (connect pe i c d ∷ xs) ys = accepts-append p xs ys
accepts-append p (accept i ∷ xs) ys = omega (arith, accepts-append p xs ys)

module _ (map : ℕ → LocalityMap) (n_pes : ℕ) where
  -- behind its own number a loop does not come back to it
  pub client_loop-below :
      (k stride pe q : ℕ) → q < pe → dials q (client_loop map n_pes k stride pe) ≡ 0
  unfolding client_loop dials
  client_loop-below zero stride pe q h = refl
  client_loop-below (suc k) stride pe q h =
      ground (arith, client_loop-below k stride (pe + stride) q (omega arith))

  pub server_loop-below :
      (k stride i p : ℕ) → p < i → accepts p (server_loop map n_pes k stride i) ≡ 0
  unfolding server_loop accepts
  server_loop-below zero stride i p h = refl
  server_loop-below (suc k) stride i p h =
      ground (arith, server_loop-below k stride (i + stride) p (omega arith))

  pub client_loop-accepts : (k stride pe p : ℕ) → accepts p (client_loop map n_pes k stride pe) ≡ 0
  unfolding client_loop accepts
  client_loop-accepts zero stride pe p = refl
  client_loop-accepts (suc k) stride pe p =
      ground (arith, client_loop-accepts k stride (pe + stride) p)

  pub server_loop-dials : (k stride i q : ℕ) → dials q (server_loop map n_pes k stride i) ≡ 0
  unfolding server_loop dials
  server_loop-dials zero stride i q = refl
  server_loop-dials (suc k) stride i q = ground (arith, server_loop-dials k stride (i + stride) q)

  type-cases : (t : PeType) → (t ≡ local) ⊎ (t ≡ remote)
  type-cases local = inl refl
  type-cases remote = inr refl

  -- a loop visits a remote PE of its stride once, and a local one never
  pub client_loop-once :
      (k stride pe q j : ℕ)
      → n_pes ≤ pe + k
      → 0 < stride
      → q ≡ pe + j * stride
      → q < n_pes
      → dials q (client_loop map n_pes k stride pe) ≡ once (map q).type
  unfolding client_loop dials
  client_loop-once zero stride pe q j enough pos at h = absurd (omega arith)
  client_loop-once (suc k) stride pe q zero enough pos at h =
      let e : q ≡ pe = omega arith in
      let same : (map pe).type ≡ (map q).type = ap (λ x. (map x).type) (sym e) in
      let rest = client_loop-below k stride (pe + stride) q (omega arith) in
      elim (type-cases (map q).type) [
        | inl t ↦ rw (lt→ltb pe n_pes (omega arith), same ∙ t, t) rest
        | inr t ↦
            rw (lt→ltb pe n_pes (omega arith), same ∙ t, t)
              (rw (ap (λ x. pe == x) e ∙ ==_refl pe) (omega (arith, rest)))
      ]
  client_loop-once (suc k) stride pe q (suc j) enough pos at h =
      let rest = client_loop-once k stride (pe + stride) q j (omega arith) pos (omega arith) h in
      let ne = ne→== pe q (λ e. omega (arith, e)) in
      elim (type-cases (map pe).type) [
        | inl t ↦ rw (lt→ltb pe n_pes (omega arith), t) rest
        | inr t ↦ rw (lt→ltb pe n_pes (omega arith), t) (rw ne (omega (arith, rest)))
      ]

  pub server_loop-once :
      (k stride i p j : ℕ)
      → n_pes ≤ i + k
      → 0 < stride
      → p ≡ i + j * stride
      → p < n_pes
      → accepts p (server_loop map n_pes k stride i) ≡ once (map p).type
  unfolding server_loop accepts
  server_loop-once zero stride i p j enough pos at h = absurd (omega arith)
  server_loop-once (suc k) stride i p zero enough pos at h =
      let e : p ≡ i = omega arith in
      let same : (map i).type ≡ (map p).type = ap (λ x. (map x).type) (sym e) in
      let rest = server_loop-below k stride (i + stride) p (omega arith) in
      elim (type-cases (map p).type) [
        | inl t ↦ rw (lt→ltb i n_pes (omega arith), same ∙ t, t) rest
        | inr t ↦
            rw (lt→ltb i n_pes (omega arith), same ∙ t, t)
              (rw (ap (λ x. i == x) e ∙ ==_refl i) (omega (arith, rest)))
      ]
  server_loop-once (suc k) stride i p (suc j) enough pos at h =
      let rest = server_loop-once k stride (i + stride) p j (omega arith) pos (omega arith) h in
      let ne = ne→== i p (λ e. omega (arith, e)) in
      elim (type-cases (map i).type) [
        | inl t ↦ rw (lt→ltb i n_pes (omega arith), t) rest
        | inr t ↦ rw (lt→ltb i n_pes (omega arith), t) (rw ne (omega (arith, rest)))
      ]

  -- what the server's loop accepts it visits
  pub server_loop-IsVisited :
      (k stride i p : ℕ)
      → Accepts p (server_loop map n_pes k stride i)
      → IsVisited map n_pes i stride p
  unfolding server_loop
  server_loop-IsVisited zero stride i p h = absurd h
  server_loop-IsVisited (suc k) stride i p h = elim (Bool-cases (ltb i n_pes)) [
    | inr out ↦ absurd (rw out at h)
    | inl inside ↦ elim (type-cases (map i).type) [
      | inl e ↦
          later map n_pes (server_loop-IsVisited k stride (i + stride) p (rw (inside, e) at h))
      | inr e ↦
          let found : (i ≡ p) ⊎ Accepts p (server_loop map n_pes k stride (i + stride)) =
            rw (inside, e) at h in
          elim found [
            | inl same ↦ subst (IsVisited map n_pes i stride) same (record {
              step = 0;
              at = omega arith;
              in_range = ltb→lt i n_pes inside;
              is_remote = e;
            })
            | inr rest ↦ later map n_pes (server_loop-IsVisited k stride (i + stride) p rest)
          ]
    ]
  ]

-- what is not among the actions has the count 0
pub dials-none : (q : ℕ) (xs : List Action) → ¬ Dials q xs → dials q xs ≡ 0
unfolding dials
dials-none q [] h = refl
dials-none q (connect pe i c d ∷ xs) h =
    rw (ne→== pe q (λ e. h (inl e))) (omega (arith, dials-none q xs (λ k. h (inr k))))
dials-none q (accept i ∷ xs) h = dials-none q xs h

pub accepts-none : (p : ℕ) (xs : List Action) → ¬ Accepts p xs → accepts p xs ≡ 0
unfolding accepts
accepts-none p [] h = refl
accepts-none p (connect pe i c d ∷ xs) h = accepts-none p xs h
accepts-none p (accept i ∷ xs) h =
    rw (ne→== i p (λ e. h (inl e))) (omega (arith, accepts-none p xs (λ k. h (inr k))))
