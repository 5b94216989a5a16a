-- ===== src/Comm/Wireup/Handshake/Progress.antt =====
-- A server and its clients do not wait for each other in a circle.
use mathlib.Core.Path.{subst}
use open_shmem_csci.Base.{
  assign, assign_off, ℕ, ◌≡◌, ◌≢◌, ◌⊎◌, ◌∙◌, refl, sym, ap, inl, inr, Bool, true, List, [], ◌∷◌,
}
use native.Mathlib.Decide.{ℕ_discrete}
use open_shmem_csci.Comm.Wireup.Handshake.{
  Client, apart, waiting, greeted, told, connected, Server, idle, accepted, asking, named,
  Handshake, receive_byte, send_name, connect_data, accept_cmd, send_byte, receive_name,
  accept_data, Call, on_receive_byte, on_send_name, on_connect_data, on_accept_cmd, on_send_byte,
  on_receive_name, on_accept_data, Calls,
}
use open_shmem_csci.Comm.Wireup.Handshake.Sound.{Serves, Asked, Named, Busy, In, IsSound}
use open_shmem_csci.Comm.Wireup.Handshake.States.{waiting-apart, greeted-apart, told-apart}
use open_shmem_csci.Comm.Wireup.Handshake.Paired.{Calls-IsSound}

client-cases :
    (c : Client) → c ≢ apart → c ≢ connected → (c ≡ waiting) ⊎ ((c ≡ greeted) ⊎ (c ≡ told))
client-cases apart a b = absurd (a refl)
client-cases waiting a b = inl refl
client-cases greeted a b = inr (inl refl)
client-cases told a b = inr (inr refl)
client-cases connected a b = absurd (b refl)

In-cons : (i : ℕ) (l : List ℕ) → In i l → (j : ℕ) × (r : List ℕ) × (l ≡ j ∷ r)
In-cons i [] h = absurd h
In-cons i (j ∷ l) h = (j, l, refl)

-- a call that returns and is no first connection of a client
abbrev pub CanReturn : (index : ℕ → ℕ) (remote : ℕ → Bool) → Handshake → Type 0
CanReturn index remote s =
    (t : Handshake) × Call index remote s t × ((j : ℕ) → s.client j ≡ apart → t.client j ≡ apart)

assign-kept :
    (f : ℕ → Client) (i : ℕ) (c : Client)
    → f i ≢ apart
    → (j : ℕ) → f j ≡ apart
    → assign f i c j ≡ apart
assign-kept f i c ne j e = elim (ℕ_discrete j i) [
  | yes same ↦ absurd (ne (ap f (sym same) ∙ e))
  | no off ↦ assign_off f i c j off ∙ e
]

module _ {index : ℕ → ℕ} {remote : ℕ → Bool} (s : Handshake) where
  Asked-returns :
      (i : ℕ) (c : Client)
      → s.server ≡ asking i
      → s.client i ≡ c
      → Asked s i c
      → CanReturn index remote s
  unfolding receive_byte send_name receive_name
  Asked-returns i apart e k a = absurd a
  Asked-returns i waiting e k a = (
    receive_byte i s,
    on_receive_byte i k a.0,
    assign-kept s.client i greeted (λ h. waiting-apart (sym k ∙ h)),
  )
  Asked-returns i greeted e k a = (
    send_name i s,
    on_send_name i k,
    assign-kept s.client i told (λ h. greeted-apart (sym k ∙ h)),
  )
  Asked-returns i told e k a = (receive_name i i (index i) s, on_receive_name i i e a.1, λ j h. h)
  Asked-returns i connected e k a =
      (receive_name i i (index i) s, on_receive_name i i e a.1, λ j h. h)

  Named-returns :
      (i pe : ℕ) (c : Client)
      → s.server ≡ named i pe
      → s.client i ≡ c
      → Named s i c
      → CanReturn index remote s
  unfolding connect_data accept_data
  Named-returns i pe apart e k a = absurd a
  Named-returns i pe waiting e k a = absurd a
  Named-returns i pe greeted e k a = absurd a
  Named-returns i pe told e k a = (
    connect_data i s,
    on_connect_data i k,
    assign-kept s.client i connected (λ h. told-apart (sym k ∙ h)),
  )
  Named-returns i pe connected e k a =
      (accept_data i (index pe) [] s, on_accept_data i pe i [] e a, λ j h. h)

  Busy-returns :
      (server : Server)
      → s.server ≡ server
      → Busy index s server
      → server ≢ idle
      → CanReturn index remote s
  unfolding send_byte
  Busy-returns idle e b ne = absurd (ne refl)
  Busy-returns (accepted i) e b ne = (send_byte i s, on_send_byte i e, λ j h. h)
  Busy-returns (asking i) e b ne = Asked-returns i (s.client i) e refl b
  Busy-returns (named i pe) e b ne = Named-returns i pe (s.client i) e refl b.4

  idle-returns :
      (i : ℕ)
      → IsSound index remote s
      → s.server ≡ idle
      → s.client i ≢ apart
      → s.client i ≢ connected
      → CanReturn index remote s
  unfolding accept_cmd
  idle-returns i v e begun unfinished =
      let free = λ (h : Serves s.server i). subst (λ x. Serves x i) e h in
      let r = v.rests i free in
      elim (client-cases (s.client i) begun unfinished) [
        | inr (inl k) ↦ absurd (r.not_greeted k)
        | inr (inr k) ↦ absurd (r.not_told k)
        | inl w ↦
            let (peer, rest, q) = In-cons i s.cmd_queue (v.listed i w free) in
            (accept_cmd peer rest s, on_accept_cmd peer rest e q, λ j h. h)
      ]

idle-cases : (server : Server) → (server ≡ idle) ⊎ (server ≢ idle)
idle-cases idle = inl refl
idle-cases (accepted i) = inr (λ e. cc)
idle-cases (asking i) = inr (λ e. cc)
idle-cases (named i pe) = inr (λ e. cc)

-- In every state that a server and its clients reach, where different PEs of other nodes have
-- different indices: as long as a client `i` has begun to connect and has not made its second
-- connection, or the server is in a round, some call can return that is no first connection of a
-- client.
pub wire_server-returns :
    (index : ℕ → ℕ) (remote : ℕ → Bool) (s : Handshake) (i : ℕ)
    → ((j k : ℕ) → remote j ≡ true → remote k ≡ true → index j ≡ index k → j ≡ k)
    → Calls index remote s
    → ((s.client i ≢ apart) × (s.client i ≢ connected)) ⊎ (s.server ≢ idle)
    → CanReturn index remote s
wire_server-returns index remote s i inj c unfinished =
    let v = Calls-IsSound inj c in
    elim (idle-cases s.server) [
      | inr ne ↦ Busy-returns s s.server refl v.busy ne
      | inl e ↦ elim unfinished [
        | inl (begun, open_end) ↦ idle-returns s i v e begun open_end
        | inr ne ↦ absurd (ne e)
      ]
    ]
