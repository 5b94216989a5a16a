-- ===== src/Comm/Packet.antt =====
-- The active message packet of comm/comm_remote.h as its bytes: a packed struct of 29 bytes, least
-- significant byte first, and the data behind it.
pub mod RoundTrip
use open_shmem_csci.Base.{
  ℕ, zero, suc, ◌+◌, ◌*◌, ◌/◌, ◌%◌, Option, none, some, List, [], ◌∷◌, ◌++◌, length,
}

-- `heap_offset` and `request_index` are a C `long`; the code only makes ones that are not negative.
pub record Packet : Type 0 where
  pub handler : ℕ
  pub origin : ℕ
  pub request_index : ℕ
  pub size : ℕ
  pub heap_offset : ℕ
  pub payload : List ℕ

-- a number as `k` bytes
unfoldable pub to_bytes : (k : ℕ) → ℕ → List ℕ
to_bytes zero n = []
to_bytes (suc k) n = (n % 256) ∷ to_bytes k (n / 256)

-- the number in the first `k` bytes, and the bytes behind them
unfoldable pub read_bytes : (k : ℕ) → List ℕ → Option (ℕ × List ℕ)
read_bytes zero bs = some (0, bs)
read_bytes (suc k) [] = none
read_bytes (suc k) (b ∷ bs) = elim (read_bytes k bs) [
  | none ↦ none
  | some (n, rest) ↦ some (b + 256 * n, rest)
]

abbrev pub packet_size : ℕ
packet_size = 29

-- `*packet` with `rest` for its data
unfoldable pub packed : Packet → List ℕ → List ℕ
packed p rest =
    to_bytes 1 p.handler
    ++ (to_bytes 4 p.origin
        ++ (to_bytes 8 p.request_index
            ++ (to_bytes 8 p.size ++ (to_bytes 8 p.heap_offset ++ rest))))

infixl 5 ◌>>=◌
abbrev ◌>>=◌ : {A B : Type 0} → Option A → (A → Option B) → Option B
none >>= f = none
some a >>= f = f a

-- the fields of a header, with no data yet
unfoldable pub read_header : List ℕ → Option (Packet × List ℕ)
read_header bs = do
  (handler, bs₁) ← read_bytes 1 bs
  (origin, bs₂) ← read_bytes 4 bs₁
  (request_index, bs₃) ← read_bytes 8 bs₂
  (size, bs₄) ← read_bytes 8 bs₃
  (heap_offset, bs₅) ← read_bytes 8 bs₄
  some (
    record {
      handler = handler;
      origin = origin;
      request_index = request_index;
      size = size;
      heap_offset = heap_offset;
      payload = [];
    },
    bs₅,
  )
