-- ===== src/Comm/Stream.antt =====
-- What the library relies on in `network_receive`, a `read` from a connected socket: bytes come in the
-- order in which they were sent, a read takes as many as it asks for if they are there, and a socket
-- with nothing to read, which does not block, gives -1.
pub mod Message
pub mod Round
use open_shmem_csci.Base.{ℕ, ◌<◌, ◌≡◌, ◌≢◌, Option, none, some, List, [], ◌∷◌, ◌++◌, length}

-- `pending w i` are the bytes that have arrived at the socket `i` and are not read.
pub record IsStream {W : Type 0} (receive : W → (socket size : ℕ) → Option (List ℕ) × W)
    (pending : W → ℕ → List ℕ) : Type 0 where
  pub reads :
      (w : W) (i : ℕ) (bs rest : List ℕ)
      → pending w i ≡ bs ++ rest
      → (w' : W) × (receive w i (length bs) ≡ (some bs, w'))
        × (pending w' i ≡ rest)
        × ((j : ℕ) → j ≢ i → pending w' j ≡ pending w j)
  pub idle :
      (w : W) (i size : ℕ)
      → pending w i ≡ []
      → 0 < size
      → (w' : W) × (receive w i size ≡ (none, w')) × ((j : ℕ) → pending w' j ≡ pending w j)
