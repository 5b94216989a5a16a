-- ===== src/Comm/Packet/RoundTrip.antt =====
-- A header that was sent is read back.
use native.Mathlib.Nat.{pow-suc}
use open_shmem_csci.Base.{
  ℕ, zero, suc, ◌+◌, ◌/◌, ◌^◌, ◌<◌, ◌≡◌, refl, ap, some, List, [], ◌++◌, arith, length,
}
use open_shmem_csci.Comm.Packet.{Packet, to_bytes, read_bytes, packet_size, packed, read_header}

read_bytes-to_bytes :
    (k n : ℕ) (rest : List ℕ) → n < 256 ^ k → read_bytes k (to_bytes k n ++ rest) ≡ some (n, rest)
unfolding read_bytes to_bytes
read_bytes-to_bytes zero n rest h = let e : n ≡ 0 = omega arith in rw e
read_bytes-to_bytes (suc k) n rest h =
    let small : n / 256 < 256 ^ k = omega (arith, pow-suc 256 k) in
    rw (read_bytes-to_bytes k (n / 256) rest small) (ap (λ m. some (m, rest)) (omega arith))

length-to_bytes : (k n : ℕ) → length (to_bytes k n) ≡ k
unfolding to_bytes
length-to_bytes zero n = refl
length-to_bytes (suc k) n = ap suc (length-to_bytes k (n / 256))

-- the fields fit their C types
pub record IsPacket (p : Packet) : Type 0 where
  pub handler_small : p.handler < 2 ^ 8
  pub origin_small : p.origin < 2 ^ 32
  pub request_index_small : p.request_index < 2 ^ 64
  pub size_small : p.size < 2 ^ 64
  pub heap_offset_small : p.heap_offset < 2 ^ 64

pub length-packed :
    (p : Packet) (rest : List ℕ) → length (packed p rest) ≡ packet_size + length rest
unfolding packed to_bytes
length-packed p rest = omega arith

-- The 29 bytes of a packet whose fields fit their types are read back as its fields, and what
-- follows them is left.
pub read_header-packed :
    (p : Packet) (rest : List ℕ)
    → IsPacket p
    → read_header (packed p rest) ≡ some (record p { payload = [] }, rest)
unfolding read_header packed
read_header-packed p rest is = rw (read_bytes-to_bytes 1 p.handler _ is.handler_small) (
    rw (read_bytes-to_bytes 4 p.origin _ is.origin_small) (
      rw (read_bytes-to_bytes 8 p.request_index _ is.request_index_small) (
        rw (read_bytes-to_bytes 8 p.size _ is.size_small)
          (rw (read_bytes-to_bytes 8 p.heap_offset rest is.heap_offset_small) refl))))
