-- ===== src/Comm/Wireup/Handshake/Kept.antt =====
-- What a step that changes little keeps.
use mathlib.Core.Path.{subst}
use open_shmem_csci.Base.{
  ℕ, ◌≡◌, ◌≢◌, ◌⊎◌, ◌∙◌, refl, sym, ap, inl, inr, List, [], ◌∷◌, ◌++◌, All, All-append, arith,
}
use open_shmem_csci.Comm.Wireup.Handshake.{
  Client, apart, waiting, greeted, told, connected, Server, idle, accepted, asking, named,
  Handshake,
}
use open_shmem_csci.Comm.Wireup.Handshake.Sound.{Serves, Rests, Asked, Named, Busy, Queued, In}
use open_shmem_csci.Comm.Wireup.Handshake.States.{connected-apart}

-- A state that has what `s` has at `i` keeps what holds there.
pub Rests-same :
    (index : ℕ → ℕ) (s t : Handshake) (i : ℕ)
    → t.greeting i ≡ s.greeting i
    → t.name i ≡ s.name i
    → t.client i ≡ s.client i
    → (s.client i ≡ connected → t.sockets_cmd (index i) ≡ s.sockets_cmd (index i))
    → (s.client i ≡ connected → t.sockets_data (index i) ≡ s.sockets_data (index i))
    → Rests index s i
    → Rests index t i
Rests-same index s t i g m c k d r = record {
  silent = g ∙ r.silent;
  nameless = m ∙ r.nameless;
  not_greeted = λ e. r.not_greeted (sym c ∙ e);
  not_told = λ e. r.not_told (sym c ∙ e);
  placed = λ e. let h = r.placed (sym c ∙ e) in (k (sym c ∙ e) ∙ h.0, d (sym c ∙ e) ∙ h.1);
}

pub Asked-same :
    (s t : Handshake) (i : ℕ) (c : Client)
    → t.greeting i ≡ s.greeting i
    → t.name i ≡ s.name i
    → t.data_queue ≡ s.data_queue
    → Asked s i c
    → Asked t i c
Asked-same s t i apart g m q b = b
Asked-same s t i waiting g m q b = (g ∙ b.0, m ∙ b.1, q ∙ b.2)
Asked-same s t i greeted g m q b = (g ∙ b.0, m ∙ b.1, q ∙ b.2)
Asked-same s t i told g m q b = (g ∙ b.0, m ∙ b.1, q ∙ b.2)
Asked-same s t i connected g m q b = (g ∙ b.0, m ∙ b.1, q ∙ b.2)

pub Named-same :
    (s t : Handshake) (i : ℕ) (c : Client) → t.data_queue ≡ s.data_queue → Named s i c → Named t i c
Named-same s t i apart q b = b
Named-same s t i waiting q b = b
Named-same s t i greeted q b = b
Named-same s t i told q b = q ∙ b
Named-same s t i connected q b = q ∙ b

pub Busy-same :
    (index : ℕ → ℕ) (s t : Handshake) (server : Server)
    → ((i : ℕ)
        → Serves server i
        → (t.greeting i ≡ s.greeting i)
          × (t.name i ≡ s.name i)
          × (t.client i ≡ s.client i)
          × (t.sockets_cmd (index i) ≡ s.sockets_cmd (index i)))
    → t.data_queue ≡ s.data_queue
    → Busy index s server
    → Busy index t server
Busy-same index s t idle same q b = q ∙ b
Busy-same index s t (accepted i) same q b =
    let e = same i refl in (e.2 ∙ b.0, e.0 ∙ b.1, e.1 ∙ b.2, q ∙ b.3)
Busy-same index s t (asking i) same q b =
    let e = same i refl in subst (Asked t i) (sym e.2) (Asked-same s t i (s.client i) e.0 e.1 q b)
Busy-same index s t (named i pe) same q b =
    let e = same i refl in
    (
      b.0,
      e.0 ∙ b.1,
      e.1 ∙ b.2,
      e.3 ∙ b.3,
      subst (Named t i) (sym e.2) (Named-same s t i (s.client i) q b.4),
    )

-- the clients in the queue go on waiting there
pub Queued-same :
    (s t : Handshake) (l : List ℕ)
    → ((i : ℕ)
        → s.client i ≡ waiting
        → (Serves s.server i → ⊥)
        → (t.client i ≡ waiting) × (Serves t.server i → ⊥))
    → Queued s l
    → Queued t l
Queued-same s t [] kept q = tt
Queued-same s t (i ∷ l) kept (w, free, apart_all, q) =
    let k = kept i w free in (k.0, k.1, apart_all, Queued-same s t l kept q)

pub Queued-append :
    (t : Handshake) (i : ℕ) (l : List ℕ)
    → t.client i ≡ waiting
    → (Serves t.server i → ⊥)
    → All (λ j. j ≢ i) l
    → Queued t l
    → Queued t (l ++ i ∷ [])
Queued-append t i [] w free new q = (w, free, tt, tt)
Queued-append t i (j ∷ l) w free (ne, new) (w', free', diff, q) = (
  w',
  free',
  All-append (λ k. k ≢ j) l (i ∷ []) diff ((λ e. ne (sym e)), tt),
  Queued-append t i l w free new q,
)

-- a client that is apart is not in the queue
pub Queued-apart :
    (s : Handshake) (i : ℕ) (l : List ℕ) → s.client i ≡ apart → Queued s l → All (λ j. j ≢ i) l
Queued-apart s i [] e q = tt
Queued-apart s i (j ∷ l) e q =
    ((λ same. waiting-apart (sym q.0 ∙ ap s.client same ∙ e)), Queued-apart s i l e q.3)
  where
    waiting-apart : waiting ≡ apart → ⊥
    waiting-apart h = cc

pub served-client :
    (index : ℕ → ℕ) (s : Handshake) (server : Server) (i : ℕ)
    → s.client i ≡ apart
    → Busy index s server
    → Serves server i
    → ⊥
served-client index s idle i e b k = k
served-client index s (accepted p) i e b k = ground (arith, b, k, e)
served-client index s (asking p) i e b k = subst (Asked s p) (ap s.client k ∙ e) b
served-client index s (named p pe) i e b k = subst (Named s p) (ap s.client k ∙ e) b.4

pub connected-dials : (s : Handshake) (i : ℕ) → s.client i ≡ connected → s.client i ≢ apart
connected-dials s i e k = connected-apart (sym e ∙ k)

pub In-append : (i j : ℕ) (l : List ℕ) → (i ≡ j) ⊎ In i l → In i (l ++ j ∷ [])
In-append i j [] (inl e) = inl e
In-append i j [] (inr h) = inl (absurd h)
In-append i j (k ∷ l) (inl e) = inr (In-append i j l (inl e))
In-append i j (k ∷ l) (inr (inl e)) = inl e
In-append i j (k ∷ l) (inr (inr h)) = inr (In-append i j l (inr h))
