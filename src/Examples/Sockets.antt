-- ===== src/Examples/Sockets.antt =====
-- A kernel where every call succeeds, and one where `socket` fails.
use open_shmem_csci.Base.{ℕ, ◌+◌, ◌*◌, ◌/◌, ◌%◌, ◌≡◌, refl, false, Option, some}
use open_shmem_csci.Network.{Socket, Kernel, network_create_server}

abbrev kernel : Option ℕ → Kernel
kernel fd = record {
  socket = fd;
  setsockopt_fails = λ f. false;
  bind_fails = λ f a. false;
  listen_fails = λ f n. false;
  accept = λ f. (some 7, record { family = 2; s_addr = 1; port = 2 });
  connect_fails = λ f a. false;
  get_flags = λ f. 2050;
  set_flags_fails = λ f n. false;
  htons = λ p. p % 256 * 256 + p / 256;
}

abbrev server : Socket
server = record { fd = some 3; addr = record { family = 2; s_addr = 0; port = 37006 } }

created : network_create_server (kernel (some 3)) 36496 5 ≡ some server
unfolding network_create_server
created = refl
