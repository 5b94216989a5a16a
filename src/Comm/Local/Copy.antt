-- ===== src/Comm/Local/Copy.antt =====
-- What a put leaves in the heaps of the PEs of the node, and what a get then reads.
use open_shmem_csci.Base.{
  ℕ, zero, suc, ◌+◌, ◌<◌, ◌≤◌, ◌≡◌, ◌≢◌, ◌∙◌, refl, ◌⊎◌, inl, inr, some, List, [], ◌∷◌, arith,
  length, get_elem?, set, length-set, get_elem?-set_self, get_elem?-set_ne, lt→ltb,
}
use open_shmem_csci.Base.Run.{ok, write_at, Returns}
use open_shmem_csci.Comm.Node.{Node, PeType, LocalityMap, local, remote, comm_node_map}
use open_shmem_csci.Comm.Local.{
  write_bytes, fetch_bytes, SharedMemory, comm_local_get, comm_local_put,
}

-- `r'` is `r` with `src` at `offset`
pub record Written (r : List ℕ) (offset : ℕ) (src : List ℕ) (r' : List ℕ) : Type 0 where
  pub same_length : length r' ≡ length r
  pub below : (k : ℕ) → k < offset → get_elem? r' k ≡ get_elem? r k
  pub above : (k : ℕ) → offset + length src ≤ k → get_elem? r' k ≡ get_elem? r k
  pub copied : fetch_bytes r' offset (length src) ≡ ok src

write_at-in : (r : List ℕ) (i b : ℕ) → i < length r → write_at r i b ≡ ok (set r i b)
write_at-in r i b h = rw (lt→ltb i (length r) h) refl

pub write_bytes-Written :
    (r : List ℕ) (offset : ℕ) (src : List ℕ)
    → offset + length src ≤ length r
    → Returns (write_bytes r offset src) (Written r offset src)
unfolding write_bytes fetch_bytes
write_bytes-Written r offset [] h = (
  r,
  refl,
  record { same_length = refl; below = λ k p. refl; above = λ k p. refl; copied = refl },
)
write_bytes-Written r offset (b ∷ src) h =
    let small : offset < length r = omega arith in
    let (r', e, w) =
      write_bytes-Written (set r offset b) (offset + 1) src
        (omega (arith, length-set r offset b)) in
    let at : get_elem? r' offset ≡ some b =
      w.below offset (omega arith) ∙ get_elem?-set_self r offset b small in
    (
      r',
      rw (write_at-in r offset b small) e,
      record {
        same_length = w.same_length ∙ length-set r offset b;
        below = λ k p. w.below k (omega arith) ∙ get_elem?-set_ne r b (omega arith);
        above = λ k p. w.above k (omega arith) ∙ get_elem?-set_ne r b (omega arith);
        copied = rw at (rw (w.copied) refl);
      },
    )

in_range : {A : Type 0} (xs : List A) (i : ℕ) {a : A} → get_elem? xs i ≡ some a → i < length xs
in_range [] i e = absurd (cc)
in_range (x ∷ xs) zero e = omega arith
in_range (x ∷ xs) (suc i) e = let h = in_range xs i e in omega arith

-- A put of bytes that fit into the mapped heap of a PE of this node succeeds, and a get from the
-- same place then returns these bytes.
pub comm_local_get-put :
    (node : Node) (memory : SharedMemory) (pe dest : ℕ) (src : List ℕ) {m : LocalityMap}
    {r : List ℕ}
    → comm_node_map node pe ≡ ok m
    → m.type ≡ local
    → get_elem? memory m.index ≡ some (some r)
    → dest + length src ≤ length r
    → Returns
        (comm_local_put node memory pe dest src)
        (λ memory'. comm_local_get node memory' pe dest (length src) ≡ ok (some src))
unfolding comm_local_get comm_local_put
comm_local_get-put node memory pe dest src {m} {r} e_map e_type e_mem fits =
    let (r', e, w) = write_bytes-Written r dest src fits in
    (
      set memory m.index (some r'),
      rw (e_map) (rw (e_type) (rw (e_mem) (rw (e) refl))),
      rw (e_map) (
          rw (e_type) (
            rw (get_elem?-set_self memory m.index (some r') (in_range memory m.index e_mem))
              (rw (w.copied) refl))),
    )

fetch_bytes-agree :
    (r r' : List ℕ) (offset size : ℕ)
    → ((k : ℕ) → offset ≤ k → k < offset + size → get_elem? r' k ≡ get_elem? r k)
    → fetch_bytes r' offset size ≡ fetch_bytes r offset size
unfolding fetch_bytes
fetch_bytes-agree r r' offset zero h = refl
fetch_bytes-agree r r' offset (suc size) h =
    let at : get_elem? r' offset ≡ get_elem? r offset = h offset (omega arith) (omega arith) in
    let rest =
      fetch_bytes-agree r r' (offset + 1) size (λ k p q. h k (omega arith) (omega arith)) in
    rw (at) (rw (rest) refl)

Written-fetch :
    {r r' src : List ℕ} {dest : ℕ} (from size : ℕ)
    → Written r dest src r'
    → (from + size ≤ dest) ⊎ (dest + length src ≤ from)
    → fetch_bytes r' from size ≡ fetch_bytes r from size
Written-fetch {r} {r'} from size w (inl h) =
    fetch_bytes-agree r r' from size (λ k p q. w.below k (omega arith))
Written-fetch {r} {r'} from size w (inr h) =
    fetch_bytes-agree r r' from size (λ k p q. w.above k (omega arith))

-- A put of bytes that fit into the mapped heap of a PE of this node succeeds and does not change
-- what a get from this PE reads in front of these bytes or behind them.
pub comm_local_put-apart :
    (node : Node) (memory : SharedMemory) (pe dest : ℕ) (src : List ℕ) (from size : ℕ)
    {m : LocalityMap} {r : List ℕ}
    → comm_node_map node pe ≡ ok m
    → m.type ≡ local
    → get_elem? memory m.index ≡ some (some r)
    → dest + length src ≤ length r
    → (from + size ≤ dest) ⊎ (dest + length src ≤ from)
    → Returns (comm_local_put node memory pe dest src) (λ memory'.
      comm_local_get node memory' pe from size ≡ comm_local_get node memory pe from size)
unfolding comm_local_get comm_local_put
comm_local_put-apart node memory pe dest src from size {m} {r} e_map e_type e_mem fits out =
    let (r', e, w) = write_bytes-Written r dest src fits in
    (
      set memory m.index (some r'),
      rw (e_map) (rw (e_type) (rw (e_mem) (rw (e) refl))),
      rw (e_map) (
          rw (e_type) (
            rw (get_elem?-set_self memory m.index (some r') (in_range memory m.index e_mem))
              (rw (e_mem) (rw (Written-fetch from size w out) refl)))),
    )

PeType-cases : (t : PeType) → (t ≡ local) ⊎ (t ≡ remote)
PeType-cases local = inl refl
PeType-cases remote = inr refl

-- A put of bytes that fit into the mapped heap of a PE of this node succeeds and does not change
-- what a get from a PE whose entry has another index reads.
pub comm_local_put-other_pe :
    (node : Node) (memory : SharedMemory) (pe other dest : ℕ) (src : List ℕ) (from size : ℕ)
    {m n : LocalityMap} {r : List ℕ}
    → comm_node_map node pe ≡ ok m
    → m.type ≡ local
    → get_elem? memory m.index ≡ some (some r)
    → dest + length src ≤ length r
    → comm_node_map node other ≡ ok n
    → m.index ≢ n.index
    → Returns (comm_local_put node memory pe dest src) (λ memory'.
      comm_local_get node memory' other from size ≡ comm_local_get node memory other from size)
unfolding comm_local_get comm_local_put
comm_local_put-other_pe node memory pe other dest src from size {m} {n} {r} e_map e_type e_mem fits
      e_other ne =
    let (r', e, w) = write_bytes-Written r dest src fits in
    (
      set memory m.index (some r'),
      rw (e_map) (rw (e_type) (rw (e_mem) (rw (e) refl))),
      elim (PeType-cases n.type) [
        | inl l ↦ rw (e_other) (rw (l) (rw (get_elem?-set_ne memory (some r') ne) refl))
        | inr l ↦ rw (e_other) (rw (l) refl)
      ],
    )
