-- ===== src/Comm/Wireup/Handshake/Paired.antt =====
-- The two connections that a server accepts in a round come from one client and are stored under it.
use mathlib.Core.Path.{subst}
use open_shmem_csci.Base.{ℕ, ◌≡◌, ◌≢◌, refl, Bool, true, some}
use open_shmem_csci.Comm.Wireup.Handshake.{
  apart, waiting, connected, idle, Handshake, begin, on_connect_cmd, on_receive_byte, on_send_name,
  on_connect_data, on_accept_cmd, on_send_byte, on_receive_name, on_accept_data, Calls, here, next,
}
use open_shmem_csci.Comm.Wireup.Handshake.Sound.{Serves, IsSound}
use open_shmem_csci.Comm.Wireup.Handshake.Clients.{
  connect_cmd-IsSound, receive_byte-IsSound, send_name-IsSound, connect_data-IsSound,
}
use open_shmem_csci.Comm.Wireup.Handshake.Servers.{
  accept_cmd-IsSound, send_byte-IsSound, receive_name-IsSound, accept_data-IsSound,
}

apart-waiting : apart ≢ waiting
apart-waiting e = cc

begin-IsSound : (index : ℕ → ℕ) (remote : ℕ → Bool) → IsSound index remote begin
unfolding begin
begin-IsSound index remote = record {
  dials = λ i ne. absurd (ne refl);
  listed = λ i e. absurd (apart-waiting e);
  rests = λ i h. record {
    silent = refl;
    nameless = refl;
    not_greeted = λ e. cc;
    not_told = λ e. cc;
    placed = λ e. absurd (cc);
  };
  busy = refl;
  queued = tt;
}

pub Calls-IsSound :
    {index : ℕ → ℕ} {remote : ℕ → Bool} {s : Handshake}
    → ((i j : ℕ) → remote i ≡ true → remote j ≡ true → index i ≡ index j → i ≡ j)
    → Calls index remote s
    → IsSound index remote s
Calls-IsSound {index} {remote} inj here = begin-IsSound index remote
Calls-IsSound inj (next c (on_connect_cmd i away e)) =
    connect_cmd-IsSound inj (Calls-IsSound inj c) i away e
Calls-IsSound inj (next c (on_receive_byte i e g)) =
    receive_byte-IsSound inj (Calls-IsSound inj c) i e g
Calls-IsSound inj (next c (on_send_name i e)) = send_name-IsSound inj (Calls-IsSound inj c) i e
Calls-IsSound inj (next c (on_connect_data i e)) =
    connect_data-IsSound inj (Calls-IsSound inj c) i e
Calls-IsSound inj (next c (on_accept_cmd p rest e q)) =
    accept_cmd-IsSound inj (Calls-IsSound inj c) p rest e q
Calls-IsSound inj (next c (on_send_byte p e)) = send_byte-IsSound inj (Calls-IsSound inj c) p e
Calls-IsSound inj (next c (on_receive_name p pe e m)) =
    receive_name-IsSound inj (Calls-IsSound inj c) p pe e m
Calls-IsSound inj (next c (on_accept_data p pe other rest e q)) =
    accept_data-IsSound inj (Calls-IsSound inj c) p pe other rest e q

-- In every state that a server and its clients reach, whatever order their calls return in, where different
-- PEs of other nodes have different indices: when a client has made its two connections and the server is
-- between two rounds, the element of each of the server's two arrays of sockets at that client's own
-- index holds a connection to that client.
pub wire_server-paired :
    (index : ℕ → ℕ) (remote : ℕ → Bool) (s : Handshake) (pe : ℕ)
    → ((i j : ℕ) → remote i ≡ true → remote j ≡ true → index i ≡ index j → i ≡ j)
    → Calls index remote s
    → s.server ≡ idle
    → s.client pe ≡ connected
    → (s.sockets_cmd (index pe) ≡ some pe) × (s.sockets_data (index pe) ≡ some pe)
wire_server-paired index remote s pe inj c e done =
    ((Calls-IsSound inj c).rests pe (λ h. subst (λ x. Serves x pe) e h)).placed done
