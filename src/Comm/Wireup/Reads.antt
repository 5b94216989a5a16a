-- ===== src/Comm/Wireup/Reads.antt =====
-- The wire-up of comm/comm_remote.c over the locality map of the node: `comm_node_map` is called for
-- each PE that a loop comes to, and an entry that was never written faults. The loops and the levels are
-- those of `Comm.Wireup`. The lookup of a client by the number that it sends is not among these reads.
use open_shmem_csci.Base.{
  ℕ, zero, suc, ◌+◌, ◌*◌, ◌/◌, ◌%◌, ◌^◌, ◌<◌, ◌≡◌, refl, inl, inr, Bool-cases, ltb→lt, ltb, ◌==◌,
  ◌&&◌, if◌then◌else◌, List, [], ◌∷◌, ◌++◌,
}
use open_shmem_csci.Base.Run.{Run, ok, ◌>>=◌, bind-ok}
use open_shmem_csci.Comm.Node.{Node, local, remote, LocalityMap, comm_node_map}
use open_shmem_csci.Comm.Wireup.{
  port_base, Action, connect, accept, client_loop, wire_client, server_loop, wire_server,
  wire_levels, comm_remote_wireup,
}

module _ (node : Node) (n_pes : ℕ) where
  unfoldable pub client_loop_run : ℕ → (stride pe : ℕ) → Run (List Action)
  client_loop_run zero stride pe = ok []
  client_loop_run (suc k) stride pe =
      if ltb pe n_pes
      then (comm_node_map node pe >>= λ m. client_loop_run k stride (pe + stride) >>= λ rest.
          let dial = connect pe m.index (port_base + 2 * pe) (port_base + 2 * pe + 1) ∷ rest in
          ok (elim m.type [ local ↦ rest | remote ↦ dial ]))
      else ok []

  unfoldable pub wire_client_run : (my_pe stride : ℕ) → Run (List Action)
  unfolding client_loop_run
  wire_client_run my_pe stride =
      client_loop_run n_pes stride (if ltb 2 stride && (my_pe % 2 == 1) then 1 else 0)

  unfoldable pub server_loop_run : ℕ → (stride i : ℕ) → Run (List Action)
  server_loop_run zero stride i = ok []
  server_loop_run (suc k) stride i =
      if ltb i n_pes
      then (comm_node_map node i >>= λ m. server_loop_run k stride (i + stride) >>= λ rest.
          ok (elim m.type [ local ↦ rest | remote ↦ accept i ∷ rest ]))
      else ok []

  unfoldable pub wire_server_run : (my_pe stride : ℕ) → Run (List Action)
  unfolding server_loop_run
  wire_server_run my_pe stride = server_loop_run n_pes stride (my_pe % 2 + stride / 2)

  unfoldable pub wire_levels_run : ℕ → (my_pe level : ℕ) → Run (List Action)
  unfolding wire_client_run wire_server_run
  wire_levels_run zero my_pe level = ok []
  wire_levels_run (suc k) my_pe level =
      let stride = 2 * 2 ^ level in
      let later = wire_levels_run k my_pe (level + 1) in
      if (my_pe % 2 == 0) && (my_pe % stride == 0)
      then (wire_server_run my_pe stride >>= λ xs. later >>= λ ys. ok (xs ++ ys))
      else if ltb 0 level && (my_pe % 2 == 1) && (my_pe % stride == 1)
      then (wire_server_run my_pe stride >>= λ xs. later >>= λ ys. ok (xs ++ ys))
      else (wire_client_run my_pe stride >>= λ xs.
          (if ltb 0 level then ok [] else later) >>= λ ys. ok (xs ++ ys))

  unfoldable pub comm_remote_wireup_run : (levels my_pe : ℕ) → Run (List Action)
  unfolding wire_levels_run
  comm_remote_wireup_run levels my_pe = wire_levels_run levels my_pe 0

  -- every entry below `n_pes` is written, and `map` has them all
  abbrev pub IsComplete : (ℕ → LocalityMap) → Type 0
  IsComplete map = (pe : ℕ) → pe < n_pes → comm_node_map node pe ≡ ok (map pe)

  module _ (map : ℕ → LocalityMap) (is : IsComplete map) where
    client_loop_run-ok :
        (k stride pe : ℕ) → client_loop_run k stride pe ≡ ok (client_loop map n_pes k stride pe)
    unfolding client_loop_run client_loop
    client_loop_run-ok zero stride pe = refl
    client_loop_run-ok (suc k) stride pe = elim (Bool-cases (ltb pe n_pes)) [
      | inl below ↦ rw (below) (
          bind-ok _ (is pe (ltb→lt pe n_pes below))
            (bind-ok _ (client_loop_run-ok k stride (pe + stride)) refl))
      | inr past ↦ rw (past) refl
    ]

    server_loop_run-ok :
        (k stride i : ℕ) → server_loop_run k stride i ≡ ok (server_loop map n_pes k stride i)
    unfolding server_loop_run server_loop
    server_loop_run-ok zero stride i = refl
    server_loop_run-ok (suc k) stride i = elim (Bool-cases (ltb i n_pes)) [
      | inl below ↦ rw (below) (
          bind-ok _ (is i (ltb→lt i n_pes below))
            (bind-ok _ (server_loop_run-ok k stride (i + stride)) refl))
      | inr past ↦ rw (past) refl
    ]

    wire_client_run-ok :
        (my_pe stride : ℕ) → wire_client_run my_pe stride ≡ ok (wire_client map n_pes my_pe stride)
    unfolding wire_client_run wire_client
    wire_client_run-ok my_pe stride = client_loop_run-ok n_pes stride _

    wire_server_run-ok :
        (my_pe stride : ℕ) → wire_server_run my_pe stride ≡ ok (wire_server map n_pes my_pe stride)
    unfolding wire_server_run wire_server
    wire_server_run-ok my_pe stride = server_loop_run-ok n_pes stride _

    -- a part of the levels and what comes after it
    append-ok :
        {before after : Run (List Action)} {xs ys : List Action}
        → before ≡ ok xs
        → after ≡ ok ys
        → (before >>= λ left. after >>= λ right. ok (left ++ right)) ≡ ok (xs ++ ys)
    append-ok e f = bind-ok _ e (bind-ok _ f refl)

    wire_levels_run-ok :
        (k my_pe level : ℕ)
        → wire_levels_run k my_pe level ≡ ok (wire_levels map n_pes k my_pe level)
    unfolding wire_levels_run wire_levels
    wire_levels_run-ok zero my_pe level = refl
    wire_levels_run-ok (suc k) my_pe level =
        let stride = 2 * 2 ^ level in
        let later = wire_levels_run-ok k my_pe (level + 1) in
        let serve = append-ok (wire_server_run-ok my_pe stride) later in
        elim (Bool-cases ((my_pe % 2 == 0) && (my_pe % stride == 0))) [
          | inl even ↦ rw (even) serve
          | inr ne ↦ elim (Bool-cases (ltb 0 level && (my_pe % 2 == 1) && (my_pe % stride == 1))) [
            | inl odd ↦ rw (ne, odd) serve
            | inr client ↦ elim (Bool-cases (ltb 0 level)) [
              | inl above ↦
                  rw (ne, client, above) (append-ok (wire_client_run-ok my_pe stride) refl)
              | inr first ↦
                  rw (ne, client, first) (append-ok (wire_client_run-ok my_pe stride) later)
            ]
          ]
        ]

    -- Over a locality map with all the entries the wire-up does not fault, and it makes the connections
    -- and acceptances that `comm_remote_wireup` gives for the entries.
    pub comm_remote_wireup_run-ok :
        (levels my_pe : ℕ)
        → comm_remote_wireup_run levels my_pe ≡ ok (comm_remote_wireup map n_pes levels my_pe)
    unfolding comm_remote_wireup_run comm_remote_wireup
    comm_remote_wireup_run-ok levels my_pe = wire_levels_run-ok levels my_pe 0
