-- ===== src/Network/Netutil.antt =====
-- network/netutil.c: the address of a host. `gethostbyname` is a parameter, `none` for NULL, and otherwise
-- the list of addresses that it gives.
use Prim.Native.String.{String}
use open_shmem_csci.Base.{ℕ, Option, none, some, List, [], ◌∷◌}

-- the loop over the addresses returns in its first round
unfoldable pub first_address : List ℕ → ℕ
first_address [] = 0
first_address (addr ∷ addrs) = addr

unfoldable pub netutil_resolve_host : (gethostbyname : String → Option (List ℕ)) → String → ℕ
unfolding first_address
netutil_resolve_host gethostbyname hostname = elim (gethostbyname hostname) [
  | none ↦ 0
  | some addrs ↦ first_address addrs
]
