-- ===== src/Memory/HashMap.antt =====
-- memory/hashmap.c: a fixed number of buckets, each a list of nodes. A node belongs to one bucket
-- alone, so a bucket is the list of its nodes' values. The operations read the block store, since a
-- node is compared with a key through the block that its value points to.
pub mod Entry
pub mod Lookup
pub mod Remove
pub mod Free
use open_shmem_csci.Base.{
  ℕ, ◌-◌, ◌%◌, ◌^◌, Bool, Option, none, some, List, [], ◌∷◌, ltb, ◌==◌, if◌then◌else◌, get_elem?,
  set, replicate,
}
use open_shmem_csci.Base.Run.{Run, ok, fault, ◌>>=◌, of_option}
use open_shmem_csci.Memory.Store.{Store, null, load}

pub record HashMap : Type 0 where
  pub n_buckets : ℕ
  pub buckets : List (List ℕ)

-- `(int)((long)a % b)`: an address above 2^63 is a negative `long`, whose remainder is no index
-- unless it is 0.
unfoldable pub hash_func : ℕ → ℕ → Run ℕ
hash_func a b =
    if b == 0
    then fault
    else if ltb a (2 ^ 63)
    then ok (a % b)
    else if (2 ^ 64 - a) % b == 0
    then ok 0
    else fault

-- `GET_NODE`: the bucket of a key, with its index
unfoldable pub get_node : HashMap → ℕ → Run (ℕ × List ℕ)
unfolding hash_func
get_node hashmap key = do
  index ← hash_func key hashmap.n_buckets
  bucket ← of_option (get_elem? hashmap.buckets index)
  ok (index, bucket)

unfoldable pub hashmap_init : ℕ → HashMap
hashmap_init n_buckets = record { n_buckets = n_buckets; buckets = replicate n_buckets [] }

-- `key == node->value->next->ptr`
unfoldable pub has_key : Store → ℕ → ℕ → Run Bool
has_key s key value = do b ← load s value; n ← load s b.next; ok (key == n.ptr)

unfoldable pub get_loop : Store → ℕ → List ℕ → Run ℕ
unfolding has_key
get_loop s key [] = ok null
get_loop s key (v ∷ vs) =
    let rest = get_loop s key vs in has_key s key v >>= λ hit. if hit then ok v else rest

unfoldable pub hashmap_get : Store → HashMap → ℕ → Run ℕ
unfolding get_loop get_node
hashmap_get s hashmap key = do (_, bucket) ← get_node hashmap key; get_loop s key bucket

-- the bucket with the value of the first node of that key replaced, if there is such a node
unfoldable pub set_loop : Store → ℕ → ℕ → List ℕ → Run (Option (List ℕ))
unfolding has_key
set_loop s key value [] = ok none
set_loop s key value (v ∷ vs) =
    let rest = set_loop s key value vs in
    has_key s key v >>= λ hit.
    if hit
    then ok (some (value ∷ vs))
    else rest >>= λ r. ok (elim r [ none ↦ none | some vs' ↦ some (v ∷ vs') ])

-- the bucket after a walk: with the replaced value, or with a new node at its beginning
abbrev pub updated_bucket : ℕ → List ℕ → Option (List ℕ) → List ℕ
updated_bucket value bucket (some vs) = vs
updated_bucket value bucket none = value ∷ bucket

unfoldable pub hashmap_set : Store → HashMap → ℕ → ℕ → Run HashMap
unfolding set_loop get_node
hashmap_set s hashmap key value = do
  (index, bucket) ← get_node hashmap key
  updated ← set_loop s key value bucket
  ok (record hashmap { buckets = set hashmap.buckets index (updated_bucket value bucket updated) })

-- the removed value, or `null`, and the bucket that is left; the test is on the value's own `ptr`
unfoldable pub remove_loop : Store → ℕ → List ℕ → Run (ℕ × List ℕ)
remove_loop s key [] = ok (null, [])
remove_loop s key (v ∷ vs) =
    let rest = remove_loop s key vs in
    load s v >>= λ b. if key == b.ptr then ok (v, vs) else rest >>= λ r. ok (r.0, v ∷ r.1)

-- `hashmap_remove` once the bucket is known: an empty bucket returns at once
unfoldable pub remove_from : Store → HashMap → ℕ → ℕ → List ℕ → Run (ℕ × HashMap)
unfolding remove_loop
remove_from s hashmap key index [] = ok (null, hashmap)
remove_from s hashmap key index (v ∷ vs) = do
  (result, bucket') ← remove_loop s key (v ∷ vs)
  ok (result, record hashmap { buckets = set hashmap.buckets index bucket' })

unfoldable pub hashmap_remove : Store → HashMap → ℕ → Run (ℕ × HashMap)
unfolding remove_from get_node
hashmap_remove s hashmap key = do
  (index, bucket) ← get_node hashmap key
  remove_from s hashmap key index bucket
