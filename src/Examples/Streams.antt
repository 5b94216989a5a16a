-- ===== src/Examples/Streams.antt =====
-- Sockets whose unread bytes are lists, which behave as is relied on.
use open_shmem_csci.Base.{
  ℕ, zero, suc, ◌<◌, ◌≡◌, ◌∙◌, refl, sym, ap, inl, inr, Option, none, some, List, [], ◌∷◌, ◌++◌,
  ◌==◌, ==_refl, ne→==, ==→eq, Bool-cases, if◌then◌else◌, length, arith,
}
use open_shmem_csci.Comm.Stream.{IsStream}

-- the unread bytes of each socket
abbrev pub Wires : Type 0
Wires = ℕ → List ℕ

-- at most `size` bytes of what is there, and what is left
unfoldable pub read_some : (size : ℕ) → List ℕ → List ℕ × List ℕ
read_some zero bs = ([], bs)
read_some (suc n) [] = ([], [])
read_some (suc n) (b ∷ bs) = let r = read_some n bs in (b ∷ r.0, r.1)

-- nothing to read is -1, unless nothing is asked for
unfoldable pub answer : (size : ℕ) → List ℕ → Option (List ℕ)
unfolding read_some
answer zero bs = some []
answer (suc n) [] = none
answer (suc n) (b ∷ bs) = some (read_some (suc n) (b ∷ bs)).0

abbrev pub wires_read : Wires → (socket size : ℕ) → Option (List ℕ) × Wires
wires_read w i size = (answer size (w i), λ j. if j == i then (read_some size (w i)).1 else w j)

abbrev pub unread : Wires → ℕ → List ℕ
unread w i = w i

read_some-all : (bs rest : List ℕ) → read_some (length bs) (bs ++ rest) ≡ (bs, rest)
unfolding read_some
read_some-all [] rest = refl
read_some-all (b ∷ bs) rest = ap (λ (r : List ℕ × List ℕ). (b ∷ r.0, r.1)) (read_some-all bs rest)

answer-all : (bs rest : List ℕ) → answer (length bs) (bs ++ rest) ≡ some bs
unfolding answer
answer-all [] rest = refl
answer-all (b ∷ bs) rest = ap (λ (r : List ℕ × List ℕ). some (b ∷ r.0)) (read_some-all bs rest)

answer-nil : (size : ℕ) → 0 < size → (answer size [] ≡ none) × ((read_some size []).1 ≡ [])
unfolding answer read_some
answer-nil zero h = absurd (omega arith)
answer-nil (suc n) h = (refl, refl)

pub wires-IsStream : IsStream wires_read unread
wires-IsStream = record {
  reads = λ w i bs rest e.
      let all = ap (read_some (length bs)) e ∙ read_some-all bs rest in
      (
        (wires_read w i (length bs)).1,
        ap (λ o. (o, (wires_read w i (length bs)).1))
            (ap (answer (length bs)) e ∙ answer-all bs rest),
        rw (==_refl i) (ap (λ r. r.1) all),
        λ j d. rw (ne→== j i d) refl,
      );
  idle = λ w i size e some_size.
      let nothing = answer-nil size some_size in
      (
        (wires_read w i size).1,
        ap (λ o. (o, (wires_read w i size).1)) (ap (answer size) e ∙ nothing.0),
        λ j. elim (Bool-cases (j == i)) [
          | inl same ↦
              rw (same) (
                ap (λ bs. (read_some size bs).1) e
                ∙ nothing.1
                ∙ sym e
                ∙ ap w (sym (==→eq j i same)))
          | inr other ↦ rw (other) refl
        ],
      );
}
