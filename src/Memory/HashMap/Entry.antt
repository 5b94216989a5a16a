-- ===== src/Memory/HashMap/Entry.antt =====
-- What a value of the hashmap has to satisfy to be compared with a key, and the maps all of whose
-- values do.
use open_shmem_csci.Base.{
  ℕ, ◌<◌, ◌%◌, ◌^◌, ◌≡◌, ◌≢◌, some, List, [], arith, ◌==◌, get_elem?, length, All, All-get_elem?,
  All-replicate, All-mono, get_elem?-some, length-replicate,
}
use open_shmem_csci.Base.Run.{ok, ◌>>=◌}
use open_shmem_csci.Memory.Store.{Store, Block, null, load_lem}
use open_shmem_csci.Memory.HashMap.{HashMap, hash_func, get_node, has_key, hashmap_init}

-- the value is a live block with a live successor
pub record IsEntry (s : Store) (v : ℕ) : Type 0 where
  pub node : Block
  pub successor : Block
  pub ne_null : v ≢ null
  pub holds : s v ≡ some node
  pub next_ne_null : node.next ≢ null
  pub next_holds : s node.next ≡ some successor

-- a nonempty array of buckets, all of whose values satisfy `P`
pub record IsTable (P : ℕ → Type 0) (m : HashMap) : Type 0 where
  pub some_bucket : 0 < m.n_buckets
  pub width : length m.buckets ≡ m.n_buckets
  pub entries : All (All P) m.buckets

pub has_key_lem :
    (s : Store) (key v : ℕ) (e : IsEntry s v) → has_key s key v ≡ ok (key == e.successor.ptr)
unfolding has_key
has_key_lem s key v e =
    rw (load_lem s v e.ne_null e.holds, load_lem s e.node.next e.next_ne_null e.next_holds)

pub hash_func_lem : (a b : ℕ) → a < 2 ^ 63 → 0 < b → hash_func a b ≡ ok (a % b)
unfolding hash_func
hash_func_lem a b h k = ground arith

module _ {P : ℕ → Type 0} {m : HashMap} (t : IsTable P m) (key : ℕ) (low : key < 2 ^ 63) where
  -- the bucket of a key is there, and its values satisfy the predicate
  pub get_node_lem :
      (bucket : List ℕ) × (get_elem? m.buckets (key % m.n_buckets) ≡ some bucket)
      × (get_node m key ≡ ok (key % m.n_buckets, bucket))
      × All P bucket
  unfolding get_node
  get_node_lem =
      let (bucket, e) =
        get_elem?-some m.buckets (key % m.n_buckets) (omega (arith, t.some_bucket, t.width)) in
      (
        bucket,
        e,
        rw (hash_func_lem key m.n_buckets low t.some_bucket, ◌>>=◌, e),
        All-get_elem? (All P) m.buckets (key % m.n_buckets) t.entries e,
      )

pub hashmap_init-IsTable : (P : ℕ → Type 0) (n : ℕ) → 0 < n → IsTable P (hashmap_init n)
unfolding hashmap_init
hashmap_init-IsTable P n h = record {
  some_bucket = h;
  width = length-replicate n [];
  entries = All-replicate (All P) n [] tt;
}

pub IsTable-mono :
    (P Q : ℕ → Type 0) → ((v : ℕ) → P v → Q v) → {m : HashMap} → IsTable P m → IsTable Q m
IsTable-mono P Q f {m} t = record {
  some_bucket = t.some_bucket;
  width = t.width;
  entries = All-mono (All P) (All Q) (All-mono P Q f) m.buckets t.entries;
}
