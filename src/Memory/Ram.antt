-- ===== src/Memory/Ram.antt =====
-- A process's own memory, byte by byte: what `memcpy` and `read` copy from and to. A byte that nothing
-- has written yet holds whatever the memory held.
use open_shmem_csci.Base.{
  ℕ, zero, suc, ◌+◌, ◌<◌, ◌≡◌, ◌∙◌, refl, ap, List, [], ◌∷◌, ◌==◌, ==_refl, ne→==, if◌then◌else◌,
  arith, length, false,
}

-- the `n` bytes at an address, and bytes written there
unfoldable pub bytes_at : (ram : ℕ → ℕ) (addr n : ℕ) → List ℕ
bytes_at ram addr zero = []
bytes_at ram addr (suc n) = ram addr ∷ bytes_at ram (addr + 1) n

unfoldable pub write_ram : (ram : ℕ → ℕ) (addr : ℕ) → List ℕ → ℕ → ℕ
write_ram ram addr [] = ram
write_ram ram addr (b ∷ bs) = write_ram (λ p. if p == addr then b else ram p) (addr + 1) bs

pub write_ram-below :
    (bs : List ℕ) (ram : ℕ → ℕ) (addr k : ℕ) → k < addr → write_ram ram addr bs k ≡ ram k
unfolding write_ram
write_ram-below [] ram addr k h = refl
write_ram-below (b ∷ bs) ram addr k h =
    let e : (k == addr) ≡ false = ne→== k addr (omega arith) in
    write_ram-below bs (λ p. if p == addr then b else ram p) (addr + 1) k (omega arith)
    ∙ rw (e) refl

pub bytes_at-write_ram :
    (bs : List ℕ) (ram : ℕ → ℕ) (addr : ℕ) → bytes_at (write_ram ram addr bs) addr (length bs) ≡ bs
unfolding bytes_at write_ram
bytes_at-write_ram [] ram addr = refl
bytes_at-write_ram (b ∷ bs) ram addr =
    let ram' : ℕ → ℕ = λ p. if p == addr then b else ram p in
    let head : write_ram ram' (addr + 1) bs addr ≡ b =
      write_ram-below bs ram' (addr + 1) addr (omega arith) ∙ rw (==_refl addr) refl in
    rw (head) (rw (bytes_at-write_ram bs ram' (addr + 1)) refl)

pub length-bytes_at : (ram : ℕ → ℕ) (addr n : ℕ) → length (bytes_at ram addr n) ≡ n
unfolding bytes_at
length-bytes_at ram addr zero = refl
length-bytes_at ram addr (suc n) = ap suc (length-bytes_at ram (addr + 1) n)
