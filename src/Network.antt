-- ===== src/Network.antt =====
-- network/network.c: sockets. The system calls are a record of functions; where one returns a
-- descriptor or -1, `none` stands for -1, and a test of another result is the Boolean that the code
-- asks for. `htons` is one of them.
pub mod Sockets
pub mod Netutil
use open_shmem_csci.Base.{
  ℕ, ◌+◌, ◌-◌, ◌/◌, ◌%◌, Bool, true, false, Option, none, some, ◌==◌, if◌then◌else◌,
}

pub record Address : Type 0 where
  pub family : ℕ
  pub s_addr : ℕ
  pub port : ℕ

-- `fd` is -1 after a call that failed
pub record Socket : Type 0 where
  pub fd : Option ℕ
  pub addr : Address

pub record Kernel : Type 0 where
  pub socket : Option ℕ
  pub setsockopt_fails : Option ℕ → Bool
  pub bind_fails : Option ℕ → Address → Bool
  pub listen_fails : Option ℕ → ℕ → Bool
  pub accept : Option ℕ → Option ℕ × Address
  pub connect_fails : Option ℕ → Address → Bool
  pub get_flags : Option ℕ → ℕ
  pub set_flags_fails : Option ℕ → ℕ → Bool
  pub htons : ℕ → ℕ

abbrev pub af_inet : ℕ
af_inet = 2

-- `fd == 0`
unfoldable pub is_zero : Option ℕ → Bool
is_zero none = false
is_zero (some n) = n == 0

-- the result, 1 or 0, and the socket
unfoldable pub network_init_socket : Kernel → Bool × Socket
unfolding is_zero
network_init_socket k =
    let sock : Socket = record {
      fd = k.socket;
      addr = record { family = af_inet; s_addr = 0; port = 0 };
    } in
    (if is_zero k.socket then false else true, sock)

unfoldable pub network_create_socket : Kernel → Option Socket
unfolding network_init_socket
network_create_socket k = let r = network_init_socket k in if r.0 then some r.1 else none

-- what follows `network_create_socket` in `network_create_server`
unfoldable pub open_server : Kernel → (port n_listen : ℕ) → Socket → Option Socket
open_server k port n_listen sock =
    let bound : Socket = record sock { addr = record sock.addr { port = k.htons port } } in
    if k.setsockopt_fails sock.fd
    then none
    else if k.bind_fails bound.fd bound.addr
    then none
    else if k.listen_fails bound.fd n_listen
    then none
    else some bound

unfoldable pub network_create_server : Kernel → (port n_listen : ℕ) → Option Socket
unfolding network_create_socket open_server
network_create_server k port n_listen = elim (network_create_socket k) [
  | none ↦ none
  | some sock ↦ open_server k port n_listen sock
]

-- The result, 1 or 0, the socket, and whether the code has called `free` on the socket.
unfoldable pub network_accept_2 : Kernel → (server sock : Socket) → Bool × Socket × Bool
network_accept_2 k server sock =
    let r = k.accept server.fd in
    elim r.0 [
      | none ↦ (false, record sock { fd = none }, true)
      | some fd ↦ (true, record { fd = some fd; addr = r.1 }, false)
    ]

-- `raw` is what the memory of the new socket held
unfoldable pub network_accept : Kernel → (server raw : Socket) → Option Socket
unfolding network_accept_2
network_accept k server raw =
    let r = network_accept_2 k server raw in if r.0 then some r.1 else none

unfoldable pub network_connect : Kernel → Socket → (host port : ℕ) → Bool × Socket
network_connect k sock host port =
    let there : Socket = record sock {
      addr = record sock.addr { s_addr = host; port = k.htons port };
    } in
    (if k.connect_fails there.fd there.addr then false else true, there)

abbrev pub o_nonblock : ℕ
o_nonblock = 2048

-- the bit of `O_NONBLOCK`, cleared or set
unfoldable pub new_flags : (flags : ℕ) (blocking : Bool) → ℕ
new_flags flags true = if flags / o_nonblock % 2 == 1 then flags - o_nonblock else flags
new_flags flags false = if flags / o_nonblock % 2 == 1 then flags else flags + o_nonblock

-- the result, 1 or 0, and the flags that were given to the kernel
unfoldable pub network_set_blocking : Kernel → Socket → (blocking : Bool) → Bool × ℕ
unfolding new_flags
network_set_blocking k sock blocking =
    let flags = new_flags (k.get_flags sock.fd) blocking in
    (if k.set_flags_fails sock.fd flags then false else true, flags)
