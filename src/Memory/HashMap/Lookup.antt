-- ===== src/Memory/HashMap/Lookup.antt =====
-- `hashmap_set` and `hashmap_get`: no fault, what the map holds afterwards, and the round trip.
use open_shmem_csci.Base.{
  ℕ, ◌<◌, ◌%◌, ◌^◌, ◌≡◌, ◌≢◌, ◌∙◌, ==_refl, ne→==, ==→eq, refl, false, inl, inr, Option, none, some,
  List, [], ◌∷◌, arith, ◌==◌, Bool-cases, set, All, All-set, length-set, get_elem?-set_self,
  get_elem?-set_ne, All-mono,
}
use native.Mathlib.Decide.{ℕ_discrete}
use open_shmem_csci.Base.Run.{ok, ◌>>=◌, Returns}
use open_shmem_csci.Memory.Store.{Store}
use open_shmem_csci.Memory.HashMap.{
  HashMap, get_node, has_key, get_loop, hashmap_get, set_loop, updated_bucket, hashmap_set,
}
use open_shmem_csci.Memory.HashMap.Entry.{
  IsEntry, IsTable, has_key_lem, get_node_lem, hash_func_lem,
}

module _ (s : Store) (key value : ℕ) where
  -- the walk of `hashmap_set` does not fault, and keeps a predicate of the bucket's values
  set_loop-All :
      (Q : ℕ → Type 0) (vs : List ℕ)
      → All (IsEntry s) vs
      → All Q vs
      → Q value
      → Returns (set_loop s key value vs) (λ r. All Q (updated_bucket value vs r))
  unfolding set_loop
  set_loop-All Q [] es qs q = (none, refl, (q, tt))
  set_loop-All Q (v ∷ vs) es qs q = elim (Bool-cases (key == es.0.successor.ptr)) [
    | inl hit ↦ (some (value ∷ vs), rw (has_key_lem s key v es.0, ◌>>=◌, hit), (q, qs.1))
    | inr miss ↦
        let (r, e, a) = set_loop-All Q vs es.1 qs.1 q in
        go r (rw (has_key_lem s key v es.0, ◌>>=◌, miss, e)) a
  ]
    where
      go :
          (r : Option (List ℕ))
          → set_loop s key value (v ∷ vs) ≡ ok (elim r [ none ↦ none | some vs' ↦ some (v ∷ vs') ])
          → All Q (updated_bucket value vs r)
          → Returns (set_loop s key value (v ∷ vs)) (λ r. All Q (updated_bucket value (v ∷ vs) r))
      go none e a = (none, e, (q, qs))
      go (some vs') e a = (some (v ∷ vs'), e, (qs.0, a))

  module _ (e : IsEntry s value) (at_key : e.successor.ptr ≡ key) where
    -- the walk of `hashmap_get` over the updated bucket finds the value
    get_loop-set_loop :
        (vs : List ℕ)
        → All (IsEntry s) vs
        → Returns
            (set_loop s key value vs)
            (λ r. get_loop s key (updated_bucket value vs r) ≡ ok value)
    unfolding set_loop get_loop
    get_loop-set_loop [] es = (none, refl, rw (has_key_lem s key value e, at_key, ==_refl key))
    get_loop-set_loop (v ∷ vs) es = elim (Bool-cases (key == es.0.successor.ptr)) [
      | inl hit ↦ (
        some (value ∷ vs),
        rw (has_key_lem s key v es.0, ◌>>=◌, hit),
        rw (has_key_lem s key value e, at_key, ==_refl key),
      )
      | inr miss ↦
          let (r, run, a) = get_loop-set_loop vs es.1 in
          go r (rw (has_key_lem s key v es.0, ◌>>=◌, miss, run)) a
            (rw (has_key_lem s key v es.0, miss))
    ]
      where
        go :
            (r : Option (List ℕ))
            → set_loop s key value (v ∷ vs)
              ≡ ok (elim r [ none ↦ none | some vs' ↦ some (v ∷ vs') ])
            → get_loop s key (updated_bucket value vs r) ≡ ok value
            → has_key s key v ≡ ok false
            → Returns
                (set_loop s key value (v ∷ vs))
                (λ r. get_loop s key (updated_bucket value (v ∷ vs) r) ≡ ok value)
        go none run a miss = (none, run, rw (has_key_lem s key value e, at_key, ==_refl key))
        go (some vs') run a miss = (some (v ∷ vs'), run, rw (miss, ◌>>=◌, a))

    -- the walk for another key is not changed
    get_loop-set_loop_ne :
        (other : ℕ) (vs : List ℕ)
        → other ≢ key
        → All (IsEntry s) vs
        → Returns
            (set_loop s key value vs)
            (λ r. get_loop s other (updated_bucket value vs r) ≡ get_loop s other vs)
    unfolding set_loop get_loop
    get_loop-set_loop_ne other [] ne es =
        (none, refl, rw (has_key_lem s other value e, at_key, ne→== other key ne))
    get_loop-set_loop_ne other (v ∷ vs) ne es = elim (Bool-cases (key == es.0.successor.ptr)) [
      | inl hit ↦ (
        some (value ∷ vs),
        rw (has_key_lem s key v es.0, ◌>>=◌, hit),
        rw (
          has_key_lem s other value e,
          has_key_lem s other v es.0,
          at_key,
          ← ==→eq key es.0.successor.ptr hit,
          ne→== other key ne,
        ),
      )
      | inr miss ↦
          let (r, run, a) = get_loop-set_loop_ne other vs ne es.1 in
          go r (rw (has_key_lem s key v es.0, ◌>>=◌, miss, run)) a
    ]
      where
        go :
            (r : Option (List ℕ))
            → set_loop s key value (v ∷ vs)
              ≡ ok (elim r [ none ↦ none | some vs' ↦ some (v ∷ vs') ])
            → get_loop s other (updated_bucket value vs r) ≡ get_loop s other vs
            → Returns (set_loop s key value (v ∷ vs)) (λ r.
              get_loop s other (updated_bucket value (v ∷ vs) r) ≡ get_loop s other (v ∷ vs))
        go none run a = (none, run, rw (has_key_lem s other value e, at_key, ne→== other key ne))
        go (some vs') run a = (some (v ∷ vs'), run, rw a)

-- `hashmap_set` in a map of live entries does not fault, and keeps a predicate of the values that
-- the old ones and the new one satisfy.
pub hashmap_set-IsTable :
    (s : Store) (m : HashMap) (key value : ℕ) (P Q : ℕ → Type 0)
    → IsTable P m
    → key < 2 ^ 63
    → ((v : ℕ) → P v → IsEntry s v)
    → ((v : ℕ) → P v → Q v)
    → Q value
    → Returns (hashmap_set s m key value) (IsTable Q)
unfolding hashmap_set
hashmap_set-IsTable s m key value P Q t low live f q =
    let (bucket, e, got, es) = get_node_lem t key low in
    let (r, run, a) =
      set_loop-All s key value Q bucket (All-mono P (IsEntry s) live bucket es)
        (All-mono P Q f bucket es) q in
    (
      record m { buckets = set m.buckets (key % m.n_buckets) (updated_bucket value bucket r) },
      rw (got, ◌>>=◌, run),
      record {
        some_bucket = t.some_bucket;
        width = length-set m.buckets _ _ ∙ t.width;
        entries =
            All-set (All Q) m.buckets _ _
              (All-mono (All P) (All Q) (All-mono P Q f) m.buckets t.entries) a;
      },
    )

module _ {s : Store} {m : HashMap} (t : IsTable (IsEntry s) m) (key value : ℕ)
    (low : key < 2 ^ 63) where
  module _ (e : IsEntry s value) (at_key : e.successor.ptr ≡ key) where
    -- In a map whose values are live blocks with live successors, after `hashmap_set` of such a block
    -- under its successor's address, which is below 2^63, `hashmap_get` of that address returns the
    -- block.
    pub hashmap_get-set : hashmap_set s m key value >>= (λ m'. hashmap_get s m' key) ≡ ok value
    unfolding hashmap_set hashmap_get get_node
    hashmap_get-set =
        let (bucket, got, node, es) = get_node_lem t key low in
        let (r, run, a) = get_loop-set_loop s key value e at_key bucket es in
        rw
          (
            hash_func_lem key m.n_buckets low t.some_bucket,
            ◌>>=◌,
            got,
            run,
            hash_func_lem key m.n_buckets low t.some_bucket,
            get_elem?-set_self m.buckets (key % m.n_buckets) (updated_bucket value bucket r)
                (omega (arith, t.some_bucket, t.width)),
          )
          a

    -- In a map whose values are live blocks with live successors, after `hashmap_set` of such a block
    -- under its successor's address, `hashmap_get` of any other address below 2^63 gives what it gave
    -- before; both addresses are below 2^63.
    pub hashmap_get-set_ne :
        (other : ℕ)
        → other < 2 ^ 63
        → other ≢ key
        → hashmap_set s m key value >>= (λ m'. hashmap_get s m' other) ≡ hashmap_get s m other
    unfolding hashmap_set hashmap_get get_node
    hashmap_get-set_ne other low' ne =
        let (bucket, got, node, es) = get_node_lem t key low in
        let (r, run, a) = get_loop-set_loop_ne s key value e at_key other bucket ne es in
        rw
          (
            hash_func_lem key m.n_buckets low t.some_bucket,
            ◌>>=◌,
            got,
            run,
            hash_func_lem other m.n_buckets low' t.some_bucket,
          )
          (elim (ℕ_discrete (key % m.n_buckets) (other % m.n_buckets)) [
            | yes same ↦
                rw
                  (
                    ← same,
                    get_elem?-set_self m.buckets (key % m.n_buckets) (updated_bucket value bucket r)
                        (omega (arith, t.some_bucket, t.width)),
                    got,
                  )
                  a
            | no apart ↦ rw (get_elem?-set_ne m.buckets (updated_bucket value bucket r) apart)
          ])
