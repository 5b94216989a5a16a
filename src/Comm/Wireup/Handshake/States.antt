-- ===== src/Comm/Wireup/Handshake/States.antt =====
-- What the state of a client tells about the server, and the other way round.
use mathlib.Core.Path.{subst}
use open_shmem_csci.Base.{
  ℕ, ◌≡◌, ◌≢◌, ◌⊎◌, ◌∙◌, sym, ap, inl, inr, true, false, none, some, List, [], ◌∷◌, arith,
}
use native.Mathlib.Decide.{ℕ_discrete}
use open_shmem_csci.Comm.Wireup.Handshake.{
  Client, apart, waiting, greeted, told, connected, Server, idle, accepted, asking, named,
  Handshake,
}
use open_shmem_csci.Comm.Wireup.Handshake.Sound.{Serves, Asked, Named, Busy}

pub Serves-cases : (server : Server) (i : ℕ) → Serves server i ⊎ (Serves server i → ⊥)
Serves-cases idle i = inr (λ h. h)
Serves-cases (accepted p) i = elim (ℕ_discrete p i) [ yes e ↦ inl e | no ne ↦ inr ne ]
Serves-cases (asking p) i = elim (ℕ_discrete p i) [ yes e ↦ inl e | no ne ↦ inr ne ]
Serves-cases (named p pe) i = elim (ℕ_discrete p i) [ yes e ↦ inl e | no ne ↦ inr ne ]

pub waiting-apart : waiting ≢ apart
waiting-apart e = cc

pub greeted-apart : greeted ≢ apart
greeted-apart e = cc

pub told-apart : told ≢ apart
told-apart e = cc

pub waiting-greeted : waiting ≢ greeted
waiting-greeted e = cc

pub waiting-told : waiting ≢ told
waiting-told e = cc

pub waiting-connected : waiting ≢ connected
waiting-connected e = cc

pub false-true : false ≢ true
false-true e = cc

pub connected-apart : connected ≢ apart
connected-apart e = cc

pub connected-greeted : connected ≢ greeted
connected-greeted e = cc

pub connected-told : connected ≢ told
connected-told e = cc

pub none-some : {n : ℕ} → none ≢ some n
none-some e = cc

pub some-inj : {m n : ℕ} → some m ≡ some n → m ≡ n
some-inj e = cc

pub nil-cons : {n : ℕ} {l : List ℕ} → [] ≢ n ∷ l
nil-cons e = cc

-- what a client's state tells about the server
module _ (index : ℕ → ℕ) (s : Handshake) where
  pub greeting-asking :
      (server : Server) (i : ℕ)
      → Busy index s server
      → Serves server i
      → s.greeting i ≡ true
      → (server ≡ asking i) × Asked s i (s.client i)
  greeting-asking idle i b k e = absurd k
  greeting-asking (accepted p) i b k e = ground (arith, b, k, e)
  greeting-asking (asking p) i b k e = (ap asking k, subst (λ x. Asked s x (s.client x)) k b)
  greeting-asking (named p pe) i b k e = ground (arith, b, k, e)

  pub greeted-asking :
      (server : Server) (i : ℕ)
      → Busy index s server
      → Serves server i
      → s.client i ≡ greeted
      → (server ≡ asking i) × Asked s i (s.client i)
  greeted-asking idle i b k e = absurd k
  greeted-asking (accepted p) i b k e = ground (arith, b, k, e)
  greeted-asking (asking p) i b k e = (ap asking k, subst (λ x. Asked s x (s.client x)) k b)
  greeted-asking (named p pe) i b k e = absurd (subst (Named s p) (ap s.client k ∙ e) b.4)

  pub told-served :
      (server : Server) (i : ℕ)
      → Busy index s server
      → Serves server i
      → s.client i ≡ told
      → ((server ≡ asking i) × Asked s i told) ⊎ ((server ≡ named i i) × Busy index s (named i i))
  told-served idle i b k e = absurd k
  told-served (accepted p) i b k e = ground (arith, b, k, e)
  told-served (asking p) i b k e =
      inl (ap asking k, subst (Asked s i) e (subst (λ x. Asked s x (s.client x)) k b))
  told-served (named p pe) i b k e =
      let same : named p pe ≡ named i i = ap (named p) (b.0 ∙ k) ∙ ap (λ x. named x i) k in
      inr (same, subst (Busy index s) same b)

  pub Asked-dials : (i : ℕ) (c : Client) → s.client i ≡ c → Asked s i c → s.client i ≢ apart
  Asked-dials i apart e a k = a
  Asked-dials i waiting e a k = waiting-apart (sym e ∙ k)
  Asked-dials i greeted e a k = greeted-apart (sym e ∙ k)
  Asked-dials i told e a k = told-apart (sym e ∙ k)
  Asked-dials i connected e a k = connected-apart (sym e ∙ k)

  pub Asked-inv :
      (i pe : ℕ) (c : Client)
      → Asked s i c
      → s.name i ≡ some pe
      → (pe ≡ i) × (s.greeting i ≡ false) × Named s i c
  Asked-inv i pe apart a e = absurd a
  Asked-inv i pe waiting a e = absurd (none-some (sym a.1 ∙ e))
  Asked-inv i pe greeted a e = absurd (none-some (sym a.1 ∙ e))
  Asked-inv i pe told a e = (some-inj (sym e ∙ a.1), a.0, a.2)
  Asked-inv i pe connected a e = (some-inj (sym e ∙ a.1), a.0, a.2)

  pub Named-inv :
      (i other : ℕ) (rest : List ℕ) (c : Client)
      → s.client i ≡ c
      → Named s i c
      → s.data_queue ≡ other ∷ rest
      → (s.client i ≡ connected) × (other ≡ i) × (rest ≡ [])
  Named-inv i other rest apart e n q = absurd n
  Named-inv i other rest waiting e n q = absurd n
  Named-inv i other rest greeted e n q = absurd n
  Named-inv i other rest told e n q = absurd (nil-cons (sym n ∙ q))
  Named-inv i other rest connected e n q = (e, ground (arith, n, q), ground (arith, n, q))
