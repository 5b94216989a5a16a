-- ===== src/Memory/Heap/Symmetric.antt =====
-- Two heaps that were used alike: the next-fit rule looks at sizes and at distances alone.
pub mod Outcome
pub mod Twin
pub mod Calls
pub mod Runs
use mathlib.Core.Path.{subst}
use mathlib.Core.List.{append_assoc}
use open_shmem_csci.Base.{
  ℕ, ◌+◌, ◌-◌, ◌≤◌, ◌<◌, ◌≡◌, ◌≢◌, ◌∙◌, ◌⊎◌, refl, sym, ap, inl, inr, true, false, Option, none,
  some, List, [], ◌∷◌, ◌++◌, ltb, Bool-cases, arith,
}
use open_shmem_csci.Memory.Heap.Cells.{Cell, cell_end, start, first_fit, Avoids, Distinct}
use open_shmem_csci.Memory.Heap.Search.{next_fit}

-- `c` lies as far behind `b` as `d` does behind `b'`, and is of the same size
abbrev pub Same : (b b' : ℕ) → Cell → Cell → Type 0
Same b b' c d = (c.ptr + b' ≡ d.ptr + b) × (c.size ≡ d.size)

abbrev pub Sames : (b b' : ℕ) → List Cell → List Cell → Type 0
Sames b b' [] [] = Unit
Sames b b' [] (d ∷ ds) = ⊥
Sames b b' (c ∷ cs) [] = ⊥
Sames b b' (c ∷ cs) (d ∷ ds) = Same b b' c d × Sames b b' cs ds

-- cells of the two chains at the same place, with the addresses `i` and `i'`
pub record IsMatched (b b' : ℕ) (cs ds : List Cell) (i i' : ℕ) : Type 0 where
  pub before : List Cell
  pub chosen : Cell
  pub behind : List Cell
  pub before' : List Cell
  pub chosen' : Cell
  pub behind' : List Cell
  pub split : cs ≡ before ++ chosen ∷ behind
  pub split' : ds ≡ before' ++ chosen' ∷ behind'
  pub at : chosen.id ≡ i
  pub at' : chosen'.id ≡ i'
  pub in_front : Sames b b' before before'
  pub here : Same b b' chosen chosen'
  pub after : Sames b b' behind behind'

-- a search finds nothing in both chains, or cells at the same place
abbrev pub Agree : (b b' : ℕ) (cs ds : List Cell) → Option ℕ → Option ℕ → Type 0
Agree b b' cs ds none none = Unit
Agree b b' cs ds none (some i') = ⊥
Agree b b' cs ds (some i) none = ⊥
Agree b b' cs ds (some i) (some i') = IsMatched b b' cs ds i i'

module _ (b b' : ℕ) where
  pub Sames-append :
      (xs xs' ys ys' : List Cell)
      → Sames b b' xs xs'
      → Sames b b' ys ys'
      → Sames b b' (xs ++ ys) (xs' ++ ys')
  Sames-append [] [] ys ys' h k = k
  Sames-append [] (x' ∷ xs') ys ys' h k = absurd h
  Sames-append (x ∷ xs) [] ys ys' h k = absurd h
  Sames-append (x ∷ xs) (x' ∷ xs') ys ys' h k = (h.0, Sames-append xs xs' ys ys' h.1 k)

  start-same :
      (lim lim' : ℕ) (cs ds : List Cell)
      → lim + b' ≡ lim' + b
      → Sames b b' cs ds
      → start lim cs + b' ≡ start lim' ds + b
  start-same lim lim' [] [] e h = e
  start-same lim lim' [] (d ∷ ds) e h = absurd h
  start-same lim lim' (c ∷ cs) [] e h = absurd h
  start-same lim lim' (c ∷ cs) (d ∷ ds) e h = h.0.0

  -- a pair of chains with more in front, or with more behind
  Agree-front :
      (xs xs' cs ds : List Cell) (o o' : Option ℕ)
      → Sames b b' xs xs'
      → Agree b b' cs ds o o'
      → Agree b b' (xs ++ cs) (xs' ++ ds) o o'
  Agree-front xs xs' cs ds none none h a = tt
  Agree-front xs xs' cs ds none (some i') h a = absurd a
  Agree-front xs xs' cs ds (some i) none h a = absurd a
  Agree-front xs xs' cs ds (some i) (some i') h a = record {
    before = xs ++ a.before;
    chosen = a.chosen;
    behind = a.behind;
    before' = xs' ++ a.before';
    chosen' = a.chosen';
    behind' = a.behind';
    split = ap (λ l. xs ++ l) a.split ∙ sym (append_assoc xs a.before (a.chosen ∷ a.behind));
    split' = ap (λ l. xs' ++ l) a.split' ∙ sym (append_assoc xs' a.before' (a.chosen' ∷ a.behind'));
    at = a.at;
    at' = a.at';
    in_front = Sames-append xs xs' a.before a.before' h a.in_front;
    here = a.here;
    after = a.after;
  }

  Agree-behind :
      (cs ds ys ys' : List Cell) (o o' : Option ℕ)
      → Sames b b' ys ys'
      → Agree b b' cs ds o o'
      → Agree b b' (cs ++ ys) (ds ++ ys') o o'
  Agree-behind cs ds ys ys' none none h a = tt
  Agree-behind cs ds ys ys' none (some i') h a = absurd a
  Agree-behind cs ds ys ys' (some i) none h a = absurd a
  Agree-behind cs ds ys ys' (some i) (some i') h a = record {
    before = a.before;
    chosen = a.chosen;
    behind = a.behind ++ ys;
    before' = a.before';
    chosen' = a.chosen';
    behind' = a.behind' ++ ys';
    split = ap (λ l. l ++ ys) a.split ∙ append_assoc a.before (a.chosen ∷ a.behind) ys;
    split' = ap (λ l. l ++ ys') a.split' ∙ append_assoc a.before' (a.chosen' ∷ a.behind') ys';
    at = a.at;
    at' = a.at';
    in_front = a.in_front;
    here = a.here;
    after = Sames-append a.behind a.behind' ys ys' a.after h;
  }

  first_fit-Agree :
      (bytes lim lim' : ℕ) (cs ds : List Cell)
      → lim + b' ≡ lim' + b
      → Sames b b' cs ds
      → Agree b b' cs ds (first_fit bytes lim cs) (first_fit bytes lim' ds)
  unfolding first_fit
  first_fit-Agree bytes lim lim' [] [] e h = tt
  first_fit-Agree bytes lim lim' [] (d ∷ ds) e h = absurd h
  first_fit-Agree bytes lim lim' (c ∷ cs) [] e h = absurd h
  first_fit-Agree bytes lim lim' (c ∷ cs) (d ∷ ds) e (s, h) =
      let gap : start lim cs - cell_end c ≡ start lim' ds - cell_end d =
        omega (arith, start-same lim lim' cs ds e h, s.0, s.1) in
      elim (Bool-cases (ltb (start lim cs - cell_end c) bytes)) [
        | inl tight ↦
            rw (tight, sym (ap (λ g. ltb g bytes) gap) ∙ tight)
              (Agree-front (c ∷ []) (d ∷ []) cs ds _ _ (s, tt)
                (first_fit-Agree bytes lim lim' cs ds e h))
        | inr enough ↦
            rw (enough, sym (ap (λ g. ltb g bytes) gap) ∙ enough)
              (record {
                before = [];
                chosen = c;
                behind = cs;
                before' = [];
                chosen' = d;
                behind' = ds;
                split = refl;
                split' = refl;
                at = refl;
                at' = refl;
                in_front = tt;
                here = s;
                after = h;
              })
      ]

  pub next_fit-Agree :
      (bytes lim lim' : ℕ) (before before' : List Cell) (h h' : Cell) (behind behind' : List Cell)
      → lim + b' ≡ lim' + b
      → Sames b b' before before'
      → Same b b' h h'
      → Sames b b' behind behind'
      → Agree b b'
          (before ++ h ∷ behind)
          (before' ++ h' ∷ behind')
          (next_fit bytes lim before h behind)
          (next_fit bytes lim' before' h' behind')
  unfolding next_fit
  next_fit-Agree bytes lim lim' before before' h h' behind behind' e in_front here after =
      go (first_fit bytes lim (h ∷ behind)) (first_fit bytes lim' (h' ∷ behind'))
        (first_fit-Agree bytes lim lim' (h ∷ behind) (h' ∷ behind') e (here, after))
    where
      go :
          (o o' : Option ℕ)
          → Agree b b' (h ∷ behind) (h' ∷ behind') o o'
          → Agree b b'
              (before ++ h ∷ behind)
              (before' ++ h' ∷ behind')
              (elim o [ some i ↦ some i | none ↦ first_fit bytes h.ptr before ])
              (elim o' [ some i ↦ some i | none ↦ first_fit bytes h'.ptr before' ])
      go none none a =
          Agree-behind before before' (h ∷ behind) (h' ∷ behind') _ _ (here, after)
            (first_fit-Agree bytes h.ptr h'.ptr before before' here.0 in_front)
      go none (some i') a = absurd a
      go (some i) none a = absurd a
      go (some i) (some i') a =
          Agree-front before before' (h ∷ behind) (h' ∷ behind') (some i) (some i') in_front a
