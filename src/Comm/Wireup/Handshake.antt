-- ===== src/Comm/Wireup/Handshake.antt =====
-- How a server of comm/comm_remote.c and its clients come to a pair of connections: the bodies of the
-- loops of `__comm_remote_wire_client` and `__comm_remote_wire_server`, call by call. A server accepts
-- from the two queues of its ports without knowing from whom. A socket is written as the PE at its
-- other end.
pub mod Sound
pub mod States
pub mod Kept
pub mod Clients
pub mod Servers
pub mod Paired
pub mod Progress
use open_shmem_csci.Base.{
  assign, ℕ, ◌≡◌, Bool, true, false, Option, none, some, List, [], ◌∷◌, ◌++◌, ◌==◌, if◌then◌else◌,
}

-- A client: before its connection to the command port, in the receive of a byte, before it sends its
-- number, before its connection to the data port, and after it.
pub data Client : Type 0 where
  apart waiting greeted told connected : Client

-- The server: before `network_accept_2`, before it sends the byte, in the receive of a number, and
-- in the second `network_accept_2`, with the number `pe` received and the element of the sockets set.
pub data Server : Type 0 where
  idle : Server
  accepted : (peer : ℕ) → Server
  asking : (peer : ℕ) → Server
  named : (peer pe : ℕ) → Server

-- `greeting` and `name` are what is on its way to and from a client.
pub record Handshake : Type 0 where
  pub server : Server
  pub client : ℕ → Client
  pub cmd_queue : List ℕ
  pub data_queue : List ℕ
  pub greeting : ℕ → Bool
  pub name : ℕ → Option ℕ
  pub sockets_cmd : ℕ → Option ℕ
  pub sockets_data : ℕ → Option ℕ

unfoldable pub begin : Handshake
begin = record {
  server = idle;
  client = λ i. apart;
  cmd_queue = [];
  data_queue = [];
  greeting = λ i. false;
  name = λ i. none;
  sockets_cmd = λ i. none;
  sockets_data = λ i. none;
}

-- the client `i`: `network_connect`, `network_receive`, `network_send` and `network_connect`
unfoldable pub connect_cmd : ℕ → Handshake → Handshake
connect_cmd i s = record s { client = assign s.client i waiting; cmd_queue = s.cmd_queue ++ i ∷ [] }

unfoldable pub receive_byte : ℕ → Handshake → Handshake
receive_byte i s = record s {
  client = assign s.client i greeted;
  greeting = assign s.greeting i false;
}

unfoldable pub send_name : ℕ → Handshake → Handshake
send_name i s = record s { client = assign s.client i told; name = assign s.name i (some i) }

unfoldable pub connect_data : ℕ → Handshake → Handshake
connect_data i s = record s {
  client = assign s.client i connected;
  data_queue = s.data_queue ++ i ∷ [];
}

-- the server: `network_accept_2`, `network_send`, `network_receive` with the `memcpy`, and the other
-- `network_accept_2`
unfoldable pub accept_cmd : ℕ → List ℕ → Handshake → Handshake
accept_cmd peer rest s = record s { server = accepted peer; cmd_queue = rest }

unfoldable pub send_byte : ℕ → Handshake → Handshake
send_byte peer s = record s { server = asking peer; greeting = assign s.greeting peer true }

-- `index` is the index of the received PE in the locality map
unfoldable pub receive_name : (peer pe index : ℕ) → Handshake → Handshake
receive_name peer pe index s = record s {
  server = named peer pe;
  name = assign s.name peer none;
  sockets_cmd = assign s.sockets_cmd index (some peer);
}

unfoldable pub accept_data : (other index : ℕ) → List ℕ → Handshake → Handshake
accept_data other index rest s = record s {
  server = idle;
  data_queue = rest;
  sockets_data = assign s.sockets_data index (some other);
}

-- A call that returns. `index` and `remote` are the index of a PE in the locality map and whether it
-- is of another node: only such a PE is a client of the server.
pub data Call (index : ℕ → ℕ) (remote : ℕ → Bool) : Handshake → Handshake → Type 0 where
  on_connect_cmd :
      {s : Handshake} (i : ℕ)
      → remote i ≡ true
      → s.client i ≡ apart
      → Call index remote s (connect_cmd i s)
  on_receive_byte :
      {s : Handshake} (i : ℕ)
      → s.client i ≡ waiting
      → s.greeting i ≡ true
      → Call index remote s (receive_byte i s)
  on_send_name :
      {s : Handshake} (i : ℕ) → s.client i ≡ greeted → Call index remote s (send_name i s)
  on_connect_data :
      {s : Handshake} (i : ℕ) → s.client i ≡ told → Call index remote s (connect_data i s)
  on_accept_cmd :
      {s : Handshake} (peer : ℕ) (rest : List ℕ)
      → s.server ≡ idle
      → s.cmd_queue ≡ peer ∷ rest
      → Call index remote s (accept_cmd peer rest s)
  on_send_byte :
      {s : Handshake} (peer : ℕ) → s.server ≡ accepted peer → Call index remote s (send_byte peer s)
  on_receive_name :
      {s : Handshake} (peer pe : ℕ)
      → s.server ≡ asking peer
      → s.name peer ≡ some pe
      → Call index remote s (receive_name peer pe (index pe) s)
  on_accept_data :
      {s : Handshake} (peer pe other : ℕ) (rest : List ℕ)
      → s.server ≡ named peer pe
      → s.data_queue ≡ other ∷ rest
      → Call index remote s (accept_data other (index pe) rest s)

pub data Calls (index : ℕ → ℕ) (remote : ℕ → Bool) : Handshake → Type 0 where
  here : Calls index remote begin
  next : {s t : Handshake} → Calls index remote s → Call index remote s t → Calls index remote t
