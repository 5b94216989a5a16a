-- ===== src/Comm/Wireup/Ending.antt =====
-- The wire-up of all the PEs of a job at once. Each PE goes through its list of actions; the PE at the
-- head of a connection to `q` and `q` at the head of an acceptance make both. The calls of the two
-- within are those of Handshake; a server does not choose from whom it accepts.
pub mod Ordered
pub mod Progress
pub mod Total
use open_shmem_csci.Base.{assign, ℕ, ◌<◌, ◌≡◌, List, [], ◌∷◌}
use open_shmem_csci.Comm.Wireup.{Action, connect, accept}

-- `todo` is what each PE has still to do
pub data Meeting (n : ℕ) : (ℕ → List Action) → (ℕ → List Action) → Type 0 where
  meet :
      {todo : ℕ → List Action} (p q index cmd_port data_port i : ℕ) (xs ys : List Action)
      → p < n
      → q < n
      → todo p ≡ connect q index cmd_port data_port ∷ xs
      → todo q ≡ accept i ∷ ys
      → Meeting n todo (assign (assign todo p xs) q ys)

-- all PEs are done, or two can meet and every meeting leads there
pub data Ending (n : ℕ) : (ℕ → List Action) → Type 0 where
  ended : {todo : ℕ → List Action} → ((p : ℕ) → p < n → todo p ≡ []) → Ending n todo
  goes_on :
      {todo : ℕ → List Action}
      → (t : ℕ → List Action) × Meeting n todo t
      → ((t : ℕ → List Action) → Meeting n todo t → Ending n t)
      → Ending n todo
