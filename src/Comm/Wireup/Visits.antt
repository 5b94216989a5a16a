-- ===== src/Comm/Wireup/Visits.antt =====
-- Which PEs the two strided loops visit.
use open_shmem_csci.Base.{
  ℕ, zero, suc, ◌+◌, ◌*◌, ◌≤◌, ◌<◌, ◌≡◌, ◌⊎◌, ◌∙◌, refl, sym, ap, inl, inr, List, [], ◌∷◌, ◌++◌,
  arith, ltb, ltb→lt, lt→ltb, Bool-cases,
}
use mathlib.Core.Path.{subst}
use open_shmem_csci.Comm.Node.{PeType, local, remote, LocalityMap}
use open_shmem_csci.Comm.Wireup.{Action, connect, accept, client_loop, server_loop}

-- the actions have a connection to `q`
abbrev pub Dials : ℕ → List Action → Type 0
Dials q [] = ⊥
Dials q (connect pe index cmd_port data_port ∷ xs) = (pe ≡ q) ⊎ Dials q xs
Dials q (accept i ∷ xs) = Dials q xs

-- the actions accept a connection at the counter `q`
abbrev pub Accepts : ℕ → List Action → Type 0
Accepts q [] = ⊥
Accepts q (connect pe index cmd_port data_port ∷ xs) = Accepts q xs
Accepts q (accept i ∷ xs) = (i ≡ q) ⊎ Accepts q xs

pub Dials-append_left : (q : ℕ) (xs ys : List Action) → Dials q xs → Dials q (xs ++ ys)
Dials-append_left q [] ys h = absurd h
Dials-append_left q (connect pe j c d ∷ xs) ys (inl e) = inl e
Dials-append_left q (connect pe j c d ∷ xs) ys (inr h) = inr (Dials-append_left q xs ys h)
Dials-append_left q (accept i ∷ xs) ys h = Dials-append_left q xs ys h

pub Dials-append_right : (q : ℕ) (xs ys : List Action) → Dials q ys → Dials q (xs ++ ys)
Dials-append_right q [] ys h = h
Dials-append_right q (connect pe j c d ∷ xs) ys h = inr (Dials-append_right q xs ys h)
Dials-append_right q (accept i ∷ xs) ys h = Dials-append_right q xs ys h

pub Dials-split : (q : ℕ) (xs ys : List Action) → Dials q (xs ++ ys) → Dials q xs ⊎ Dials q ys
Dials-split q [] ys h = inr h
Dials-split q (connect pe j c d ∷ xs) ys (inl e) = inl (inl e)
Dials-split q (connect pe j c d ∷ xs) ys (inr h) = elim (Dials-split q xs ys h) [
  | inl l ↦ inl (inr l)
  | inr r ↦ inr r
]
Dials-split q (accept i ∷ xs) ys h = Dials-split q xs ys h

pub Accepts-append_left : (q : ℕ) (xs ys : List Action) → Accepts q xs → Accepts q (xs ++ ys)
Accepts-append_left q [] ys h = absurd h
Accepts-append_left q (connect pe j c d ∷ xs) ys h = Accepts-append_left q xs ys h
Accepts-append_left q (accept i ∷ xs) ys (inl e) = inl e
Accepts-append_left q (accept i ∷ xs) ys (inr h) = inr (Accepts-append_left q xs ys h)

pub Accepts-append_right : (q : ℕ) (xs ys : List Action) → Accepts q ys → Accepts q (xs ++ ys)
Accepts-append_right q [] ys h = h
Accepts-append_right q (connect pe j c d ∷ xs) ys h = Accepts-append_right q xs ys h
Accepts-append_right q (accept i ∷ xs) ys h = inr (Accepts-append_right q xs ys h)

module _ (map : ℕ → LocalityMap) (n_pes : ℕ) where
  -- `q` is a remote PE that a loop from `start` with `stride` visits
  pub record IsVisited (start stride q : ℕ) : Type 0 where
    pub step : ℕ
    pub at : q ≡ start + step * stride
    pub in_range : q < n_pes
    pub is_remote : (map q).type ≡ remote

  pub later : {start stride q : ℕ} → IsVisited (start + stride) stride q → IsVisited start stride q
  later {start} {stride} {q} v = record {
    step = suc v.step;
    at = omega (arith, v.at);
    in_range = v.in_range;
    is_remote = v.is_remote;
  }

  now :
      (start stride : ℕ) → start < n_pes → (map start).type ≡ remote → IsVisited start stride start
  now start stride h r = record { step = 0; at = omega arith; in_range = h; is_remote = r }

  type-cases : (t : PeType) → (t ≡ local) ⊎ (t ≡ remote)
  type-cases local = inl refl
  type-cases remote = inr refl

  pub client_loop-IsVisited :
      (k stride pe q : ℕ) → Dials q (client_loop map n_pes k stride pe) → IsVisited pe stride q
  unfolding client_loop
  client_loop-IsVisited zero stride pe q h = absurd h
  client_loop-IsVisited (suc k) stride pe q h = elim (Bool-cases (ltb pe n_pes)) [
    | inr out ↦ absurd (rw out at h)
    | inl inside ↦ elim (type-cases (map pe).type) [
      | inl e ↦ later (client_loop-IsVisited k stride (pe + stride) q (rw (inside, e) at h))
      | inr e ↦
          let found : (pe ≡ q) ⊎ Dials q (client_loop map n_pes k stride (pe + stride)) =
            rw (inside, e) at h in
          elim found [
            | inl same ↦ subst (IsVisited pe stride) same (now pe stride (ltb→lt pe n_pes inside) e)
            | inr rest ↦ later (client_loop-IsVisited k stride (pe + stride) q rest)
          ]
    ]
  ]

  pub server_loop-Dials : (k stride i q : ℕ) → ¬ Dials q (server_loop map n_pes k stride i)
  unfolding server_loop
  server_loop-Dials zero stride i q h = h
  server_loop-Dials (suc k) stride i q h = elim (Bool-cases (ltb i n_pes)) [
    | inr out ↦ absurd (rw out at h)
    | inl inside ↦ elim (type-cases (map i).type) [
      | inl e ↦ server_loop-Dials k stride (i + stride) q (rw (inside, e) at h)
      | inr e ↦ server_loop-Dials k stride (i + stride) q (rw (inside, e) at h)
    ]
  ]

  pub client_loop-Accepts : (k stride i q : ℕ) → ¬ Accepts q (client_loop map n_pes k stride i)
  unfolding client_loop
  client_loop-Accepts zero stride i q h = h
  client_loop-Accepts (suc k) stride i q h = elim (Bool-cases (ltb i n_pes)) [
    | inr out ↦ absurd (rw out at h)
    | inl inside ↦ elim (type-cases (map i).type) [
      | inl e ↦ client_loop-Accepts k stride (i + stride) q (rw (inside, e) at h)
      | inr e ↦ client_loop-Accepts k stride (i + stride) q (rw (inside, e) at h)
    ]
  ]

  -- Every remote PE of the stride is dialled, and accepted.
  pub client_loop-Dials :
      (k stride pe q : ℕ) (j : ℕ)
      → n_pes ≤ pe + k
      → 0 < stride
      → q ≡ pe + j * stride
      → q < n_pes
      → (map q).type ≡ remote
      → Dials q (client_loop map n_pes k stride pe)
  unfolding client_loop
  client_loop-Dials zero stride pe q j enough pos at h r = absurd (omega arith)
  client_loop-Dials (suc k) stride pe q zero enough pos at h r =
      let e : q ≡ pe = omega arith in
      rw (lt→ltb pe n_pes (omega arith), ap (λ x. (map x).type) (sym e) ∙ r) (inl (sym e))
  client_loop-Dials (suc k) stride pe q (suc j) enough pos at h r =
      let rest = client_loop-Dials k stride (pe + stride) q j (omega arith) pos (omega arith) h r in
      rw (lt→ltb pe n_pes (omega arith))
        (elim (type-cases (map pe).type) [ inl e ↦ rw e rest | inr e ↦ rw e (inr rest) ])

  pub server_loop-Accepts :
      (k stride i q : ℕ) (j : ℕ)
      → n_pes ≤ i + k
      → 0 < stride
      → q ≡ i + j * stride
      → q < n_pes
      → (map q).type ≡ remote
      → Accepts q (server_loop map n_pes k stride i)
  unfolding server_loop
  server_loop-Accepts zero stride i q j enough pos at h r = absurd (omega arith)
  server_loop-Accepts (suc k) stride i q zero enough pos at h r =
      let e : q ≡ i = omega arith in
      rw (lt→ltb i n_pes (omega arith), ap (λ x. (map x).type) (sym e) ∙ r) (inl (sym e))
  server_loop-Accepts (suc k) stride i q (suc j) enough pos at h r =
      let rest =
        server_loop-Accepts k stride (i + stride) q j (omega arith) pos (omega arith) h r in
      rw (lt→ltb i n_pes (omega arith))
        (elim (type-cases (map i).type) [ inl e ↦ rw e rest | inr e ↦ rw e (inr rest) ])
