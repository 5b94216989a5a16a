-- ===== src/Comm/Barrier/Completion.antt =====
-- Once every PE has called the barrier, every schedule of the PEs and of the network brings every
-- PE back from it.
use open_shmem_csci.Base.{
  ℕ, zero, suc, ◌<◌, ◌≡◌, ◌≢◌, ◌⊎◌, refl, inl, inr, Bool, true, false, ◌∙◌, arith, Bool-cases,
}
use native.Mathlib.Decide.{ℕ_discrete, dec_lt}
use open_shmem_csci.Comm.Barrier.{
  RootPhase, outside, collecting, releasing, System, Step, Reach, next,
}
use open_shmem_csci.Comm.Barrier.Safety.{Reach-Invariant}
use open_shmem_csci.Comm.Barrier.Progress.{CanMove, barrier-root_moves, barrier-pe_moves}
use open_shmem_csci.Comm.Barrier.Measure.{measure, quiet-decreases}

-- every PE has returned `k` times, or a step is possible and each step that is no call leads there
pub data Returning (n k : ℕ) : System → Type 0 where
  returned : {s : System} → ((i : ℕ) → i < n → s.left i ≡ k) → Returning n k s
  moves :
      {s : System}
      → CanMove n s
      → ((t : System) → Step n s t → ((j : ℕ) → t.arrived j ≡ s.arrived j) → Returning n k t)
      → Returning n k s

-- a PE below `n` other than 0 that is inside, if there is one
find_inside :
    (inside : ℕ → Bool) (n : ℕ)
    → ((i : ℕ) × (0 < i) × (i < n) × (inside i ≡ true))
      ⊎ ((i : ℕ) → 0 < i → i < n → inside i ≡ false)
find_inside inside zero = inr (λ i p h. absurd (omega arith))
find_inside inside (suc n) = elim (find_inside inside n) [
  | inl (i, p, h, e) ↦ inl (i, p, omega arith, e)
  | inr none ↦ elim (dec_lt 0 n) [
    | no first ↦ inr (λ i p h. absurd (omega arith))
    | yes pos ↦ elim (Bool-cases (inside n)) [
      | inl e ↦ inl (n, pos, omega arith, e)
      | inr e ↦ inr (λ i p h. elim (ℕ_discrete i n) [
        | yes last ↦ rw last e
        | no ne ↦ none i p (omega (arith, ne))
      ])
    ]
  ]
]

pub root-cases : (root : RootPhase) → (root ≡ outside) ⊎ (root ≢ outside)
root-cases outside = inl refl
root-cases (collecting i) = inr (λ e. cc)
root-cases (releasing i) = inr (λ e. cc)

module _ {n k : ℕ} where
  -- one that is inside, while every PE has called `k` times, lets somebody move
  stuck-returned :
      (s : System)
      → Reach n s
      → ((i : ℕ) → i < n → s.arrived i ≡ k)
      → s.root ≡ outside
      → ((i : ℕ) → 0 < i → i < n → s.inside i ≡ false)
      → (i : ℕ) → i < n
      → s.left i ≡ k
  stuck-returned s r called out none i h =
      let v = Reach-Invariant r in
      elim (dec_lt 0 i) [
        | yes pos ↦ ground (arith, (v.balanced i pos h).calls, none i pos h, called i h)
        | no first ↦ ground (arith, v.root_calls, called i h, out)
      ]

  progress :
      (s : System)
      → Reach n s
      → ((i : ℕ) → i < n → s.arrived i ≡ k)
      → 0 < n
      → CanMove n s ⊎ ((i : ℕ) → i < n → s.left i ≡ k)
  progress s r called some_pe = elim (root-cases s.root) [
    | inr ne ↦
        inl (barrier-root_moves n s r ne (λ i p h. ground (arith, called i h, called 0 some_pe)))
    | inl out ↦ elim (find_inside s.inside n) [
      | inr none ↦ inr (stuck-returned s r called out none)
      | inl (i, p, h, e) ↦
          let v = Reach-Invariant r in
          inl (
            barrier-pe_moves n s i r p h e
              (ground (arith, v.root_calls, out, called i h, called 0 some_pe)))
    ]
  ]

  Returning-within :
      (fuel : ℕ) (s : System)
      → Reach n s
      → ((i : ℕ) → i < n → s.arrived i ≡ k)
      → 0 < n
      → measure n s < fuel
      → Returning n k s
  Returning-within zero s r called some_pe small = absurd (omega arith)
  Returning-within (suc fuel) s r called some_pe small = elim (progress s r called some_pe) [
    | inr done ↦ returned done
    | inl move ↦ moves move (λ t step quiet.
        Returning-within fuel t (next r step) (λ i h. quiet i ∙ called i h) some_pe
          (omega (arith, quiet-decreases step quiet)))
  ]

-- In every state that the PEs can reach: if every one of the `n` PEs has called the barrier `k`
-- times, then every PE comes to have returned `k` times, whatever order the PEs' steps and the
-- deliveries of the puts take as long as no PE calls again: until then there is always such a step,
-- and no sequence of them goes on without end.
pub barrier-returns :
    (n k : ℕ) (s : System)
    → 0 < n
    → Reach n s
    → ((i : ℕ) → i < n → s.arrived i ≡ k)
    → Returning n k s
barrier-returns n k s some_pe r called =
    Returning-within (suc (measure n s)) s r called some_pe (omega arith)
