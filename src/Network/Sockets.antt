-- ===== src/Network/Sockets.antt =====
-- What a server socket went through when `network_create_server` returns it, and the flags of
-- `network_set_blocking`.
use mathlib.Core.Path.{subst}
use open_shmem_csci.Base.{
  ℕ, ◌/◌, ◌%◌, ◌≡◌, refl, Bool, true, false, none, some, ◌==◌, if◌then◌else◌, arith, Bool-cases,
  ==→eq, ==→ne, inl, inr, some_inj,
}
use open_shmem_csci.Network.{
  Socket, Kernel, af_inet, o_nonblock, is_zero, new_flags, network_init_socket,
  network_create_socket, open_server, network_create_server, network_set_blocking,
}

-- every call that the server needs has succeeded, on its address
pub record IsListening (k : Kernel) (port n_listen : ℕ) (sock : Socket) : Type 0 where
  pub descriptor : sock.fd ≡ k.socket
  pub port_set : sock.addr.port ≡ k.htons port
  pub any_host : sock.addr.s_addr ≡ 0
  pub bound : k.bind_fails sock.fd sock.addr ≡ false
  pub listening : k.listen_fails sock.fd n_listen ≡ false

open_server-IsListening :
    (k : Kernel) (port n_listen : ℕ) (sock server : Socket)
    → sock.fd ≡ k.socket
    → sock.addr.s_addr ≡ 0
    → open_server k port n_listen sock ≡ some server
    → IsListening k port n_listen server
unfolding open_server
open_server-IsListening k port n_listen sock server fd any e =
    elim (Bool-cases (k.setsockopt_fails sock.fd)) [
      | inl b ↦ absurd (cc (rw (b) at e))
      | inr b ↦
          let bound : Socket = record sock { addr = record sock.addr { port = k.htons port } } in
          elim (Bool-cases (k.bind_fails sock.fd bound.addr)) [
            | inl c ↦ absurd (cc (rw (b, c) at e))
            | inr c ↦ elim (Bool-cases (k.listen_fails sock.fd n_listen)) [
              | inl d ↦ absurd (cc (rw (b, c, d) at e))
              | inr d ↦
                  let same : bound ≡ server = some_inj (rw (b, c, d) at e) in
                  subst (IsListening k port n_listen) same (record {
                    descriptor = fd;
                    port_set = refl;
                    any_host = any;
                    bound = c;
                    listening = d;
                  })
            ]
          ]
    ]

-- A server that `network_create_server` returns has the descriptor that `socket` returned and the
-- port that was asked for on any address, and `bind` and `listen` succeeded on it.
pub network_create_server-IsListening :
    (k : Kernel) (port n_listen : ℕ) (server : Socket)
    → network_create_server k port n_listen ≡ some server
    → IsListening k port n_listen server
unfolding network_create_server network_create_socket network_init_socket
network_create_server-IsListening k port n_listen server e = elim (Bool-cases (is_zero k.socket)) [
  | inl z ↦ absurd (cc (rw (z, network_create_server) at e))
  | inr z ↦
      open_server-IsListening k port n_listen (network_init_socket k).1 server refl refl
        (rw (z, network_create_server) at e)
]

-- Where `socket` returns -1, `network_init_socket` reports success, with the descriptor -1.
pub network_init_socket-unreported :
    (k : Kernel)
    → k.socket ≡ none
    → network_init_socket k
      ≡ (true, record { fd = none; addr = record { family = af_inet; s_addr = 0; port = 0 } })
unfolding network_init_socket is_zero
network_init_socket-unreported k e = rw (e) refl

flags_lem :
    (n : ℕ) (blocking : Bool)
    → (new_flags n blocking / o_nonblock % 2 ≡ (if blocking then 0 else 1))
      × (new_flags n blocking % o_nonblock ≡ n % o_nonblock)
      × (new_flags n blocking / 4096 ≡ n / 4096)
unfolding new_flags
flags_lem n true = elim (Bool-cases (n / o_nonblock % 2 == 1)) [
  | inl e ↦
      let is = ==→eq (n / o_nonblock % 2) 1 e in
      rw (e) (omega (arith, is), omega (arith, is), omega (arith, is))
  | inr e ↦ let is = ==→ne (n / o_nonblock % 2) 1 e in rw (e) (omega (arith, is), refl, refl)
]
flags_lem n false = elim (Bool-cases (n / o_nonblock % 2 == 1)) [
  | inl e ↦ rw (e) (==→eq (n / o_nonblock % 2) 1 e, refl, refl)
  | inr e ↦
      let is = ==→ne (n / o_nonblock % 2) 1 e in
      rw (e) (omega (arith, is), omega (arith, is), omega (arith, is))
]

-- The flags that `network_set_blocking` gives to the kernel have the bit of `O_NONBLOCK` clear if the
-- socket is to block and set otherwise, and all other bits as the kernel gave them.
pub network_set_blocking-flags :
    (k : Kernel) (sock : Socket) (blocking : Bool)
    → ((network_set_blocking k sock blocking).1 / o_nonblock % 2 ≡ (if blocking then 0 else 1))
      × ((network_set_blocking k sock blocking).1 % o_nonblock ≡ k.get_flags sock.fd % o_nonblock)
      × ((network_set_blocking k sock blocking).1 / 4096 ≡ k.get_flags sock.fd / 4096)
unfolding network_set_blocking
network_set_blocking-flags k sock blocking = flags_lem (k.get_flags sock.fd) blocking
