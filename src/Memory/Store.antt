-- ===== src/Memory/Store.antt =====
-- The C heap as far as the block list needs it: the `struct block_t` objects by their addresses.
use open_shmem_csci.Base.{ℕ, ◌≡◌, ◌≢◌, Option, some, arith, ◌==◌, if◌then◌else◌}
use open_shmem_csci.Base.Run.{Run, fault, of_option}

pub record Block : Type 0 where
  pub ptr : ℕ
  pub size : ℕ
  pub next : ℕ

abbrev pub null : ℕ
null = 0

-- the live blocks
abbrev pub Store : Type 0
Store = ℕ → Option Block

abbrev pub block : ℕ → ℕ → ℕ → Block
block p n q = record { ptr = p; size = n; next = q }

unfoldable pub update : Store → ℕ → Option Block → Store
update s p b q = if q == p then b else s q

-- `*p`: a null pointer or a pointer to no live block faults
unfoldable pub load : Store → ℕ → Run Block
load s p = if p == null then fault else of_option (s p)

module _ (s : Store) where
  pub update_self : (p : ℕ) (b : Option Block) → update s p b p ≡ b
  unfolding update
  update_self p b = ground arith

  pub update_ne : (p q : ℕ) (b : Option Block) → q ≢ p → update s p b q ≡ s q
  unfolding update
  update_ne p q b h = ground arith

  pub load_lem : (p : ℕ) {b : Block} → p ≢ null → s p ≡ some b → load s p ≡ Run.ok b
  unfolding load
  load_lem p h e = ground arith
