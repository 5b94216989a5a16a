-- ===== src/Base/Families.antt =====
-- Families by the number of a PE: a change at one number, and sums over the first numbers.
use Prim.Native.Nat.{ℕ, zero, suc, ◌+◌, ◌<◌}
use mathlib.Core.Path.{◌≡◌, refl, sym}
use mathlib.Core.Logic.{◌≢◌}
use native.Mathlib.Decide.{ℕ_discrete}
use native.Mathlib.Omega.{arith}
use open_shmem_csci.Base.Bools.{◌==◌, if◌then◌else◌, ==_refl, ne→==}

abbrev pub assign {ℓ} : {A : Type ℓ} → (ℕ → A) → ℕ → A → ℕ → A
assign f i a j = if j == i then a else f j

pub assign_at : {A : Type 0} (f : ℕ → A) (i : ℕ) (a : A) → assign f i a i ≡ a
assign_at f i a = rw (==_refl i) refl

pub assign_off : {A : Type 0} (f : ℕ → A) (i : ℕ) (a : A) (j : ℕ) → j ≢ i → assign f i a j ≡ f j
assign_off f i a j ne = rw (ne→== j i ne) refl

unfoldable pub total : ℕ → (ℕ → ℕ) → ℕ
total zero f = 0
total (suc n) f = total n f + f n

pub total-same : (n : ℕ) (f g : ℕ → ℕ) → ((j : ℕ) → j < n → g j ≡ f j) → total n g ≡ total n f
unfolding total
total-same zero f g same = refl
total-same (suc n) f g same =
    let ih = total-same n f g (λ j h. same j (omega arith)) in
    omega (arith, ih, same n (omega arith))

-- Two families that differ at `i` only have sums that differ as the values there do.
pub total-one :
    (n : ℕ) (f g : ℕ → ℕ) (i : ℕ)
    → i < n
    → ((j : ℕ) → j ≢ i → g j ≡ f j)
    → total n g + f i ≡ total n f + g i
unfolding total
total-one zero f g i h same = absurd (omega arith)
total-one (suc n) f g i h same = elim (ℕ_discrete i n) [
  | yes last ↦
      let e = total-same n f g (λ j below. same j (λ q. omega (arith, last, q))) in
      rw last (omega (arith, e))
  | no ne ↦
      let below : i < n = omega (arith, ne) in
      omega (arith, total-one n f g i below same, same n (λ q. ne (sym q)))
]
