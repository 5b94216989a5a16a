-- ===== src/Examples/Handshakes.antt =====
-- PE 3 connects to a server; the command queue has PE 5 behind it.
use open_shmem_csci.Base.{ℕ, ◌+◌, ◌≡◌, ◌≢◌, refl, inl, Bool, true, some, [], ◌∷◌, arith}
use open_shmem_csci.Comm.Wireup.Handshake.{
  Handshake, begin, apart, connected, connect_cmd, receive_byte, send_name, connect_data,
  accept_cmd, send_byte, receive_name, accept_data, on_connect_cmd, on_receive_byte, on_send_name,
  on_connect_data, on_accept_cmd, on_send_byte, on_receive_name, on_accept_data, Calls, here, next,
}
use open_shmem_csci.Comm.Wireup.Handshake.Paired.{wire_server-paired}
use open_shmem_csci.Comm.Wireup.Handshake.Progress.{CanReturn, wire_server-returns}

program : Unit {0}
unfolding begin connect_cmd receive_byte send_name connect_data accept_cmd send_byte receive_name
    accept_data
program = tt

abbrev index : ℕ → ℕ
index pe = pe + 10

abbrev everyone : ℕ → Bool
everyone pe = true

abbrev queued : Handshake
queued = connect_cmd 5 (connect_cmd 3 begin)

abbrev told_server : Handshake
told_server =
    receive_name 3 3 13 (send_name 3 (receive_byte 3 (send_byte 3 (accept_cmd 3 (5 ∷ []) queued))))

abbrev served : Handshake
served = accept_data 3 13 [] (connect_data 3 told_server)

queued-Calls : Calls index everyone queued
unfolding program
queued-Calls = next (next here (on_connect_cmd 3 refl refl)) (on_connect_cmd 5 refl refl)

told_server-Calls : Calls index everyone told_server
unfolding program
told_server-Calls =
    let a = next queued-Calls (on_accept_cmd 3 (5 ∷ []) refl refl) in
    let b = next a (on_send_byte 3 refl) in
    let c = next b (on_receive_byte 3 refl refl) in
    let d = next c (on_send_name 3 refl) in next d (on_receive_name 3 3 refl refl)

served-Calls : Calls index everyone served
unfolding program
served-Calls =
    next (next told_server-Calls (on_connect_data 3 refl)) (on_accept_data 3 3 3 [] refl refl)

index-inj : (i j : ℕ) → everyone i ≡ true → everyone j ≡ true → index i ≡ index j → i ≡ j
index-inj i j a b e = omega arith

wire_server-paired_example : (served.sockets_cmd 13 ≡ some 3) × (served.sockets_data 13 ≡ some 3)
unfolding program
wire_server-paired_example =
    wire_server-paired index everyone served 3 index-inj served-Calls refl refl

five-begun : (served.client 5 ≢ apart) × (served.client 5 ≢ connected)
unfolding program
five-begun = ((λ e. cc), (λ e. cc))

wire_server-returns_example : CanReturn index everyone served
wire_server-returns_example =
    wire_server-returns index everyone served 5 index-inj served-Calls (inl five-begun)
