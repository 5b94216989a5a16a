-- ===== src/Memory/HashMap/Remove.antt =====
-- `hashmap_remove`, which compares the key with the `ptr` of the value itself and not, as the other
-- operations do, with the `ptr` of its successor.
use open_shmem_csci.Base.{
  ℕ, ◌<◌, ◌%◌, ◌^◌, ◌≡◌, ◌≢◌, refl, sym, ap, List, [], ◌∷◌, some, arith, ne→==, get_elem?, set, All,
}
use open_shmem_csci.Base.Run.{ok, ◌>>=◌}
use open_shmem_csci.Memory.Store.{Store, null, load_lem}
use open_shmem_csci.Memory.HashMap.{HashMap, remove_loop, remove_from, hashmap_remove}
use open_shmem_csci.Memory.HashMap.Entry.{IsEntry, IsTable, get_node_lem}

set_same {ℓ} :
    {A : Type ℓ} (xs : List A) (i : ℕ) {a : A} → get_elem? xs i ≡ some a → set xs i a ≡ xs
set_same [] i e = refl
set_same (x ∷ xs) Prim.Native.Nat.zero e = ground arith
set_same (x ∷ xs) (Prim.Native.Nat.suc i) e = ap (λ ys. x ∷ ys) (set_same xs i e)

module _ (s : Store) (key : ℕ) where
  -- the value is a live block at another address
  abbrev pub IsElsewhere : ℕ → Type 0
  IsElsewhere v = (e : IsEntry s v) × (e.node.ptr ≢ key)

  remove_loop-miss : (vs : List ℕ) → All IsElsewhere vs → remove_loop s key vs ≡ ok (null, vs)
  unfolding remove_loop
  remove_loop-miss [] h = refl
  remove_loop-miss (v ∷ vs) h = rw (
    load_lem s v h.0.0.ne_null h.0.0.holds,
    ◌>>=◌,
    ne→== key h.0.0.node.ptr (λ e. h.0.1 (sym e)),
    remove_loop-miss vs h.1,
  )

-- If every value of the map is a live block with a live successor that is not at the key itself, and
-- the key is below 2^63, `hashmap_remove` returns NULL and changes nothing.
pub hashmap_remove-miss :
    (s : Store) (m : HashMap) (key : ℕ)
    → IsTable (IsElsewhere s key) m
    → key < 2 ^ 63
    → hashmap_remove s m key ≡ ok (null, m)
unfolding hashmap_remove remove_from
hashmap_remove-miss s m key t low =
    let (bucket, got, node, es) = get_node_lem t key low in rw (node, ◌>>=◌) (go bucket got es)
  where
    go :
        (b : List ℕ)
        → get_elem? m.buckets (key % m.n_buckets) ≡ some b
        → All (IsElsewhere s key) b
        → remove_from s m key (key % m.n_buckets) b ≡ ok (null, m)
    go [] e h = refl
    go (v ∷ vs) e h =
        rw (remove_loop-miss s key (v ∷ vs) h, ◌>>=◌, set_same m.buckets (key % m.n_buckets) e)
