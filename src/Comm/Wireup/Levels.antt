-- ===== src/Comm/Wireup/Levels.antt =====
-- What a PE does at one level above 0. Write its number as its parity plus `x * 2 ^ level`: it serves
-- where `x` is even and is a client, for the last time, where `x` is odd.
use native.Mathlib.Nat.{add-mul-mod_self_right, mod-eq_of_lt, pow-suc}
use open_shmem_csci.Base.{
  ℕ, zero, suc, ◌+◌, ◌*◌, ◌%◌, ◌^◌, ◌≤◌, ◌<◌, ◌≡◌, ◌⊎◌, ◌∙◌, ap, inl, inr, [], ◌++◌, arith, lt→ltb,
  ne→==,
}
use native.Mathlib.Numerals.{add-one}
use open_shmem_csci.Comm.Node.{LocalityMap}
use open_shmem_csci.Comm.Wireup.{wire_client, wire_server, wire_levels}

pub pow_pos : (k : ℕ) → 0 < 2 ^ k
pow_pos zero = omega arith
pow_pos (suc k) = omega (arith, pow_pos k, pow-suc 2 k)

pub pow_two : (k : ℕ) → 2 ^ (k + 1) ≡ 2 * 2 ^ k
pow_two k = omega (arith, pow-suc 2 k, ap (λ n. 2 ^ n) (add-one k))

pub parity-cases : (n : ℕ) → (n % 2 ≡ 0) ⊎ (n % 2 ≡ 1)
parity-cases n = omega arith

module _ (parity half : ℕ) (small : parity < 2) (wide : 2 ≤ half) where
  mod_even : (y : ℕ) → (parity + y * 2 * half) % (2 * half) ≡ parity
  mod_even y =
      ap (λ n. (parity + n) % (2 * half)) (omega arith)
      ∙ add-mul-mod_self_right parity y (2 * half)
      ∙ mod-eq_of_lt (omega arith)

  mod_odd : (y : ℕ) → (parity + (y * 2 + 1) * half) % (2 * half) ≡ parity + half
  mod_odd y =
      ap (λ n. n % (2 * half)) (omega arith)
      ∙ add-mul-mod_self_right (parity + half) y (2 * half)
      ∙ mod-eq_of_lt (omega arith)

module _ (map : ℕ → LocalityMap) (n_pes my_pe : ℕ) (level : ℕ) (y : ℕ) where
  module _ (wide : 2 ≤ 2 ^ level) (above : 0 < level) (k : ℕ) where
    pub wire_levels-server :
        my_pe ≡ my_pe % 2 + y * 2 * 2 ^ level
        → wire_levels map n_pes (suc k) my_pe level
          ≡ wire_server map n_pes my_pe (2 * 2 ^ level) ++ wire_levels map n_pes k my_pe (level + 1)
    unfolding wire_levels
    wire_levels-server e =
        let m : my_pe % (2 * 2 ^ level) ≡ my_pe % 2 =
          ap (λ n. n % (2 * 2 ^ level)) e ∙ mod_even (my_pe % 2) (2 ^ level) (omega arith) wide y in
        elim (parity-cases my_pe) [ inl z ↦ rw (m, z) | inr z ↦ rw (m, z, lt→ltb 0 level above) ]

    pub wire_levels-client :
        my_pe ≡ my_pe % 2 + (y * 2 + 1) * 2 ^ level
        → wire_levels map n_pes (suc k) my_pe level
          ≡ wire_client map n_pes my_pe (2 * 2 ^ level) ++ []
    unfolding wire_levels
    wire_levels-client e =
        let m : my_pe % (2 * 2 ^ level) ≡ my_pe % 2 + 2 ^ level =
          ap (λ n. n % (2 * 2 ^ level)) e ∙ mod_odd (my_pe % 2) (2 ^ level) (omega arith) wide y in
        elim (parity-cases my_pe) [
          | inl z ↦ rw (m, z, ne→== (0 + 2 ^ level) 0 (omega arith), lt→ltb 0 level above)
          | inr z ↦ rw (m, z, ne→== (1 + 2 ^ level) 1 (omega arith), lt→ltb 0 level above)
        ]
