-- ===== src/Comm/Wireup/Handshake/Sound.antt =====
-- What holds in every state of a server and its clients.
use open_shmem_csci.Base.{ℕ, ◌≡◌, ◌≢◌, ◌⊎◌, Bool, true, false, none, some, List, [], ◌∷◌, All}
use open_shmem_csci.Comm.Wireup.Handshake.{
  Client, apart, waiting, greeted, told, connected, Server, idle, accepted, asking, named,
  Handshake,
}

-- whether the server is in the round of the client `i`
abbrev pub Serves : Server → ℕ → Type 0
Serves idle i = ⊥
Serves (accepted peer) i = peer ≡ i
Serves (asking peer) i = peer ≡ i
Serves (named peer pe) i = peer ≡ i

-- a client that the server is not busy with has nothing on its way, and once connected its sockets are
-- in place
pub record Rests (index : ℕ → ℕ) (s : Handshake) (i : ℕ) : Type 0 where
  pub silent : s.greeting i ≡ false
  pub nameless : s.name i ≡ none
  pub not_greeted : s.client i ≢ greeted
  pub not_told : s.client i ≢ told
  pub placed :
      s.client i ≡ connected
      → (s.sockets_cmd (index i) ≡ some i) × (s.sockets_data (index i) ≡ some i)

-- how far the client is that the server is busy with
abbrev pub Asked : Handshake → ℕ → Client → Type 0
Asked s i apart = ⊥
Asked s i waiting = (s.greeting i ≡ true) × (s.name i ≡ none) × (s.data_queue ≡ [])
Asked s i greeted = (s.greeting i ≡ false) × (s.name i ≡ none) × (s.data_queue ≡ [])
Asked s i told = (s.greeting i ≡ false) × (s.name i ≡ some i) × (s.data_queue ≡ [])
Asked s i connected = (s.greeting i ≡ false) × (s.name i ≡ some i) × (s.data_queue ≡ i ∷ [])

abbrev pub Named : Handshake → ℕ → Client → Type 0
Named s i apart = ⊥
Named s i waiting = ⊥
Named s i greeted = ⊥
Named s i told = s.data_queue ≡ []
Named s i connected = s.data_queue ≡ i ∷ []

abbrev pub Busy : (index : ℕ → ℕ) → Handshake → Server → Type 0
Busy index s idle = s.data_queue ≡ []
Busy index s (accepted i) =
    (s.client i ≡ waiting) × (s.greeting i ≡ false) × (s.name i ≡ none) × (s.data_queue ≡ [])
Busy index s (asking i) = Asked s i (s.client i)
Busy index s (named i pe) =
    (pe ≡ i)
    × (s.greeting i ≡ false)
    × (s.name i ≡ none)
    × (s.sockets_cmd (index i) ≡ some i)
    × Named s i (s.client i)

-- the clients of the command queue wait, and none is there twice
abbrev pub Queued : Handshake → List ℕ → Type 0
Queued s [] = Unit
Queued s (i ∷ is) =
    (s.client i ≡ waiting) × (Serves s.server i → ⊥) × All (λ j. j ≢ i) is × Queued s is

abbrev pub In : ℕ → List ℕ → Type 0
In i [] = ⊥
In i (j ∷ l) = (i ≡ j) ⊎ In i l

pub record IsSound (index : ℕ → ℕ) (remote : ℕ → Bool) (s : Handshake) : Type 0 where
  pub dials : (i : ℕ) → s.client i ≢ apart → remote i ≡ true
  pub listed : (i : ℕ) → s.client i ≡ waiting → (Serves s.server i → ⊥) → In i s.cmd_queue
  pub rests : (i : ℕ) → (Serves s.server i → ⊥) → Rests index s i
  pub busy : Busy index s s.server
  pub queued : Queued s s.cmd_queue
