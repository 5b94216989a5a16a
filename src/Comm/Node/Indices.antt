-- ===== src/Comm/Node/Indices.antt =====
-- Where every PE ends up: its entry tells the node, and its number is its place in its host's list,
-- or its place among all the remote PEs.
use Prim.Native.String.{String, len}
use open_shmem_csci.Base.{
  ℕ, ◌+◌, ◌≤◌, ◌<◌, lt→ltb, All, ◌≡◌, ◌∙◌, refl, Option, none, some, List, [], ◌∷◌, ◌++◌, arith,
  All-get_elem?, length, length-set, length-append, length-replicate, get_elem?, set,
}
use open_shmem_csci.Base.Run.{ok, ◌>>=◌, Returns}
use open_shmem_csci.Rte.{hostname_len}
use open_shmem_csci.Comm.Node.{
  HostMap, Node, copy_name, comm_node_init, host_type, entry_index, map_hosts,
  comm_node_map_locality, comm_node_map,
}
use open_shmem_csci.Comm.Node.Writes.{
  write_at_lem, InRange, NotIn, written, length-written, map_pes_lem, written_keep,
}
use open_shmem_csci.Comm.Node.Hosts.{
  Hosts, all_pes, remote_of, remote_pes, OnceEach, OnceEach-split, All-split, index_after_lem,
  entry, entry_eq, written_get,
}

-- the names fit into the arrays for them
abbrev pub Fits : Hosts → Type 0
Fits hosts = All (λ h. len h.0 < hostname_len) hosts

copy_name_lem : (host : String) → len host < hostname_len → copy_name host ≡ ok host
unfolding copy_name
copy_name_lem host fits = rw (lt→ltb (len host) hostname_len fits) refl

module _ (resolve : String → ℕ) (hostname : String) where
  abbrev stepped : (i index : ℕ) → String → List ℕ → Node → Node
  stepped i index host pes node = record {
    nodes = set node.nodes i (some (record { hostname = host; addr = resolve host }));
    locality_map = written (host_type hostname host) i 0 index pes node.locality_map;
  }

  -- the arrays have room for the hosts from `i` on and their PEs
  abbrev pub Room : ℕ → Hosts → Node → Type 0
  Room i hosts node =
      (i + length hosts ≤ length node.nodes)
      × InRange (length node.locality_map) (all_pes hosts)
      × Fits hosts

  map_hosts-cons :
      (i index : ℕ) (host : String) (pes : List ℕ) (hosts : Hosts) (node : Node)
      → Room i ((host, pes) ∷ hosts) node
      → map_hosts resolve hostname i index ((host, pes) ∷ hosts) node
        ≡ map_hosts resolve hostname
            (i + 1)
            (index + length (remote_of (host_type hostname host) pes))
            hosts
            (stepped i index host pes node)
  unfolding map_hosts
  map_hosts-cons i index host pes hosts node room = rw (
    copy_name_lem host room.2.0,
    ◌>>=◌,
    write_at_lem node.nodes i _ (omega (arith, room.0)),
    ◌>>=◌,
    map_pes_lem (host_type hostname host) i 0 index pes node.locality_map
        (All-split _ pes (all_pes hosts) room.1).0,
    index_after_lem (host_type hostname host) index pes,
  )

  Room-stepped :
      (i index : ℕ) (host : String) (pes : List ℕ) (hosts : Hosts) (node : Node)
      → Room i ((host, pes) ∷ hosts) node
      → Room (i + 1) hosts (stepped i index host pes node)
  Room-stepped i index host pes hosts node room = (
    omega (
      arith,
      room.0,
      length-set node.nodes i (some (record { hostname = host; addr = resolve host })),
    ),
    rw length-written (All-split _ pes (all_pes hosts) room.1).1,
    room.2.1,
  )

  -- With room for them the loops write every host, and keep the entries of all other PEs.
  map_hosts-keep :
      (i index : ℕ) (hosts : Hosts) (node : Node)
      → Room i hosts node
      → Returns (map_hosts resolve hostname i index hosts node) λ n.
        (pe : ℕ)
        → NotIn pe (all_pes hosts)
        → get_elem? n.locality_map pe ≡ get_elem? node.locality_map pe
  unfolding map_hosts
  map_hosts-keep i index [] node room = (node, refl, λ pe h. refl)
  map_hosts-keep i index ((host, pes) ∷ hosts) node room =
      let (n, run, keep) =
        map_hosts-keep (i + 1) (index + length (remote_of (host_type hostname host) pes)) hosts
          (stepped i index host pes node) (Room-stepped i index host pes hosts node room) in
      (
        n,
        map_hosts-cons i index host pes hosts node room ∙ run,
        λ pe h.
            let (a, b) = All-split _ pes (all_pes hosts) h in
            keep pe b ∙ written_keep (host_type hostname host) i 0 index pes node.locality_map pe a,
      )

  -- the entry of the PE at place `k` of the list of the host behind `xs`
  map_hosts-entry :
      (k pe i index : ℕ) (xs : Hosts) (host : String) (pes : List ℕ) (ys : Hosts) (node : Node)
      → get_elem? pes k ≡ some pe
      → Room i (xs ++ (host, pes) ∷ ys) node
      → OnceEach (all_pes (xs ++ (host, pes) ∷ ys))
      → Returns (map_hosts resolve hostname i index (xs ++ (host, pes) ∷ ys) node) λ n.
        get_elem? n.locality_map pe
        ≡ some (
            some (record {
              type = host_type hostname host;
              index =
                  entry_index
                    (host_type hostname host)
                    k
                    (index + length (remote_pes hostname xs) + k);
              host = i + length xs;
            }))
  map_hosts-entry k pe i index [] host pes ys node e room once =
      let (a, b, c) = OnceEach-split pes (all_pes ys) once in
      let (n, run, keep) =
        map_hosts-keep (i + 1) (index + length (remote_of (host_type hostname host) pes)) ys
          (stepped i index host pes node) (Room-stepped i index host pes ys node room) in
      (
        n,
        map_hosts-cons i index host pes ys node room ∙ run,
        keep pe (All-get_elem? (λ x. NotIn x (all_pes ys)) pes k c e)
            ∙ written_get (host_type hostname host) i 0 index pes node.locality_map k e
                (All-split _ pes (all_pes ys) room.1).0 a
            ∙ entry_eq (host_type hostname host) (omega arith) (omega arith) (omega arith),
      )
  map_hosts-entry k pe i index ((host', pes') ∷ xs) host pes ys node e room once =
      let rest = xs ++ (host, pes) ∷ ys in
      let m = length (remote_of (host_type hostname host') pes') in
      let (n, run, got) =
        map_hosts-entry k pe (i + 1) (index + m) xs host pes ys (stepped i index host' pes' node) e
          (Room-stepped i index host' pes' rest node room)
          (OnceEach-split pes' (all_pes rest) once).1 in
      (
        n,
        map_hosts-cons i index host' pes' rest node room ∙ run,
        got
            ∙ entry_eq (host_type hostname host) refl
                (omega (
                  arith,
                  length-append (remote_of (host_type hostname host') pes')
                      (remote_pes hostname xs),
                ))
                (omega arith),
      )

  pub comm_node_map-locality :
      (n_pes n_nodes k pe : ℕ) (xs : Hosts) (host : String) (pes : List ℕ) (ys : Hosts)
      → get_elem? pes k ≡ some pe
      → length (xs ++ (host, pes) ∷ ys) ≤ n_nodes
      → InRange n_pes (all_pes (xs ++ (host, pes) ∷ ys))
      → OnceEach (all_pes (xs ++ (host, pes) ∷ ys))
      → Fits (xs ++ (host, pes) ∷ ys)
      → comm_node_map_locality resolve hostname
            (xs ++ (host, pes) ∷ ys)
            (comm_node_init n_pes n_nodes)
          >>= (λ n. comm_node_map n pe)
        ≡ ok (record {
          type = host_type hostname host;
          index = entry_index (host_type hostname host) k (length (remote_pes hostname xs) + k);
          host = length xs;
        })
  unfolding comm_node_map_locality comm_node_map comm_node_init
  comm_node_map-locality n_pes n_nodes k pe xs host pes ys e nodes range once fits =
      let (n, run, got) =
        map_hosts-entry k pe 0 0 xs host pes ys (comm_node_init n_pes n_nodes) e
          (
            omega (arith, length-replicate {0} {A = Option HostMap} n_nodes none),
            rw length-replicate range,
            fits,
          )
          once in
      let got' : get_elem? n.locality_map pe
          ≡ entry (host_type hostname host) k (length (remote_pes hostname xs) + k) (length xs) =
        got ∙ entry_eq (host_type hostname host) refl (omega arith) (omega arith) in
      rw (run, ◌>>=◌, got')
