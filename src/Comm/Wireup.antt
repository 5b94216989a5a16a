-- ===== src/Comm/Wireup.antt =====
-- The wire-up of comm/comm_remote.c: in which order a PE connects to others and accepts connections.
-- A PE's part is the list of its actions. `map` gives the entries of the locality map, which `Reads` takes from the node; `levels` is
-- `ceil(log2(__n_pes))`, which the C library computes.
pub mod Visits
pub mod Levels
pub mod Pairs
pub mod Connected
pub mod Handshake
pub mod Counts
pub mod Ending
pub mod Reads
use open_shmem_csci.Base.{
  ℕ, zero, suc, ◌+◌, ◌*◌, ◌/◌, ◌%◌, ◌^◌, Bool, ◌&&◌, List, [], ◌∷◌, ◌++◌, ltb, ◌==◌, if◌then◌else◌,
}
use open_shmem_csci.Comm.Node.{PeType, local, remote, LocalityMap}

abbrev pub port_base : ℕ
port_base = 36500

-- One connection that a PE makes, to the two server ports of `pe` and with the sockets at `index`;
-- or one that it accepts. The code learns only then from whom, and the loop's counter tells the
-- number of connections alone.
pub data Action : Type 0 where
  connect : (pe index cmd_port data_port : ℕ) → Action
  accept : (i : ℕ) → Action

module _ (map : ℕ → LocalityMap) (n_pes : ℕ) where
  -- the loop of `__comm_remote_wire_client`; the stride is positive, so `n_pes` rounds are enough
  unfoldable pub client_loop : ℕ → (stride pe : ℕ) → List Action
  client_loop zero stride pe = []
  client_loop (suc k) stride pe =
      let rest = client_loop k stride (pe + stride) in
      let dial = connect pe (map pe).index (port_base + 2 * pe) (port_base + 2 * pe + 1) ∷ rest in
      if ltb pe n_pes then (elim (map pe).type [ local ↦ rest | remote ↦ dial ]) else []

  unfoldable pub wire_client : (my_pe stride : ℕ) → List Action
  unfolding client_loop
  wire_client my_pe stride =
      client_loop n_pes stride (if ltb 2 stride && (my_pe % 2 == 1) then 1 else 0)

  -- the loop of `__comm_remote_wire_server`
  unfoldable pub server_loop : ℕ → (stride i : ℕ) → List Action
  server_loop zero stride i = []
  server_loop (suc k) stride i =
      let rest = server_loop k stride (i + stride) in
      if ltb i n_pes then (elim (map i).type [ local ↦ rest | remote ↦ accept i ∷ rest ]) else []

  unfoldable pub wire_server : (my_pe stride : ℕ) → List Action
  unfolding server_loop
  wire_server my_pe stride = server_loop n_pes stride (my_pe % 2 + stride / 2)

  -- The loop over the levels of `comm_remote_wireup`, from `level` on with `k` levels left. A client
  -- of a level above 0 is complete.
  unfoldable pub wire_levels : ℕ → (my_pe level : ℕ) → List Action
  unfolding wire_client wire_server
  wire_levels zero my_pe level = []
  wire_levels (suc k) my_pe level =
      let stride = 2 * 2 ^ level in
      let rest = wire_levels k my_pe (level + 1) in
      if (my_pe % 2 == 0) && (my_pe % stride == 0)
      then wire_server my_pe stride ++ rest
      else if ltb 0 level && (my_pe % 2 == 1) && (my_pe % stride == 1)
      then wire_server my_pe stride ++ rest
      else wire_client my_pe stride ++ (if ltb 0 level then [] else rest)

  unfoldable pub comm_remote_wireup : (levels my_pe : ℕ) → List Action
  unfolding wire_levels
  comm_remote_wireup levels my_pe = wire_levels levels my_pe 0
