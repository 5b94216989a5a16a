-- ===== src/Memory/Heap/Malloc/Fit.antt =====
-- What the next-fit rule chooses: a block of the chain with enough room behind it, or none if no
-- block has.
use open_shmem_csci.Base.{
  ℕ, ◌-◌, ◌≤◌, ◌<◌, ◌≡◌, ◌∙◌, refl, sym, ap, inl, inr, none, some, List, [], ◌∷◌, ◌++◌, ltb, ltb→lt,
  ltb→le, Bool-cases, Option-cases, some_inj,
}
use mathlib.Core.List.{append_assoc}
use open_shmem_csci.Memory.Heap.Cells.{Cell, cell_end, start, first_fit, start-append}
use open_shmem_csci.Memory.Heap.Search.{next_fit}

-- the block `i` of the chain has `bytes` free behind it
pub record IsRoom (bytes lim : ℕ) (cs : List Cell) (i : ℕ) : Type 0 where
  pub before : List Cell
  pub chosen : Cell
  pub behind : List Cell
  pub split : cs ≡ before ++ chosen ∷ behind
  pub at : chosen.id ≡ i
  pub room : bytes ≤ start lim behind - cell_end chosen

-- no block of the chain has `bytes` free behind it
abbrev pub IsTight : ℕ → ℕ → List Cell → Type 0
IsTight bytes lim [] = Unit
IsTight bytes lim (c ∷ cs) = (start lim cs - cell_end c < bytes) × IsTight bytes lim cs

module _ (bytes : ℕ) where
  first_fit-IsRoom :
      (lim i : ℕ) (cs : List Cell) → first_fit bytes lim cs ≡ some i → IsRoom bytes lim cs i
  unfolding first_fit
  first_fit-IsRoom lim i [] e = absurd (cc)
  first_fit-IsRoom lim i (c ∷ cs) e = elim (Bool-cases (ltb (start lim cs - cell_end c) bytes)) [
    | inl tight ↦
        let r = first_fit-IsRoom lim i cs (rw tight at e) in
        record {
          before = c ∷ r.before;
          chosen = r.chosen;
          behind = r.behind;
          split = ap (λ t. c ∷ t) r.split;
          at = r.at;
          room = r.room;
        }
    | inr enough ↦ record {
      before = [];
      chosen = c;
      behind = cs;
      split = refl;
      at = some_inj (rw enough at e);
      room = ltb→le (start lim cs - cell_end c) bytes enough;
    }
  ]

  first_fit-IsTight :
      (lim : ℕ) (cs : List Cell) → first_fit bytes lim cs ≡ none → IsTight bytes lim cs
  unfolding first_fit
  first_fit-IsTight lim [] e = tt
  first_fit-IsTight lim (c ∷ cs) e = elim (Bool-cases (ltb (start lim cs - cell_end c) bytes)) [
    | inl tight ↦
        (ltb→lt (start lim cs - cell_end c) bytes tight, first_fit-IsTight lim cs (rw tight at e))
    | inr enough ↦ absurd (cc (rw enough at e))
  ]

  IsTight-append :
      (lim : ℕ) (xs ys : List Cell)
      → IsTight bytes (start lim ys) xs
      → IsTight bytes lim ys
      → IsTight bytes lim (xs ++ ys)
  IsTight-append lim [] ys h k = k
  IsTight-append lim (x ∷ []) ys h k = (h.0, k)
  IsTight-append lim (x ∷ x' ∷ xs) ys h k = (h.0, IsTight-append lim (x' ∷ xs) ys h.1 k)

  module _ (lim : ℕ) (before : List Cell) (h : Cell) (behind : List Cell) where
    pub next_fit-IsTight :
        next_fit bytes lim before h behind ≡ none → IsTight bytes lim (before ++ h ∷ behind)
    unfolding next_fit
    next_fit-IsTight e = elim (Option-cases (first_fit bytes lim (h ∷ behind))) [
      | inl ahead ↦
          IsTight-append lim before (h ∷ behind)
            (first_fit-IsTight h.ptr before (rw (ahead, next_fit) at e))
            (first_fit-IsTight lim (h ∷ behind) ahead)
      | inr (i, found) ↦ absurd (cc (rw (found, next_fit) at e))
    ]

    pub next_fit-IsRoom :
        (i : ℕ)
        → next_fit bytes lim before h behind ≡ some i
        → IsRoom bytes lim (before ++ h ∷ behind) i
    unfolding next_fit
    next_fit-IsRoom i e = elim (Option-cases (first_fit bytes lim (h ∷ behind))) [
      | inl ahead ↦
          let r = first_fit-IsRoom h.ptr i before (rw (ahead, next_fit) at e) in
          record {
            before = r.before;
            chosen = r.chosen;
            behind = r.behind ++ h ∷ behind;
            split =
                ap (λ t. t ++ h ∷ behind) r.split
                ∙ append_assoc r.before (r.chosen ∷ r.behind) (h ∷ behind);
            at = r.at;
            room = rw start-append r.room;
          }
      | inr (j, found) ↦
          let r = first_fit-IsRoom lim j (h ∷ behind) found in
          record {
            before = before ++ r.before;
            chosen = r.chosen;
            behind = r.behind;
            split =
                ap (λ t. before ++ t) r.split
                ∙ sym (append_assoc before r.before (r.chosen ∷ r.behind));
            at = r.at ∙ some_inj (rw (found, next_fit) at e);
            room = r.room;
          }
    ]
