-- ===== src/Memory/HashMap/Free.antt =====
-- `hashmap_free` of memory/hashmap.c, where the addresses of the nodes matter: the nodes of a bucket
-- are linked, and the next one is read before a node is freed.
use open_shmem_csci.Base.{
  ℕ, zero, suc, ◌<◌, ◌≡◌, ◌≢◌, ◌∙◌, refl, sym, ap, Option, none, some, List, [], ◌∷◌, ◌++◌, ◌==◌,
  if◌then◌else◌, All, All-mono, Bool-cases, inl, inr, ne→==, ==_refl, length, arith,
}
use open_shmem_csci.Base.Run.{Run, ok, out_of_fuel, ◌>>=◌, of_option, bind-ok, Returns}
use open_shmem_csci.Memory.Store.{null}

-- `struct hashmap_node_t`
pub record MapNode : Type 0 where
  pub value : ℕ
  pub next : ℕ

abbrev pub Nodes : Type 0
Nodes = ℕ → Option MapNode

abbrev pub forget : Nodes → ℕ → Nodes
forget nodes p q = if q == p then none else nodes q

-- the inner loop, from `node` on
unfoldable pub free_nodes : (fuel node : ℕ) → Nodes → Run Nodes
free_nodes zero node nodes = out_of_fuel
free_nodes (suc fuel) node nodes =
    if node == null
    then ok nodes
    else of_option (nodes node) >>= λ n. free_nodes fuel n.next (forget nodes node)

-- the outer loop over the buckets; the table itself is freed at the end
unfoldable pub hashmap_free : (fuel : ℕ) → (buckets : List ℕ) → Nodes → Run Nodes
unfolding free_nodes
hashmap_free fuel [] nodes = ok nodes
hashmap_free fuel (node ∷ buckets) nodes = free_nodes fuel node nodes >>= hashmap_free fuel buckets

-- the nodes `chain` are linked from `node` on
abbrev pub Linked : Nodes → ℕ → List ℕ → Type 0
Linked nodes node [] = node ≡ null
Linked nodes node (p ∷ chain) =
    (node ≡ p) × (p ≢ null) × ((n : MapNode) × (nodes p ≡ some n) × Linked nodes n.next chain)

abbrev pub Distinct : List ℕ → Type 0
Distinct [] = Unit
Distinct (p ∷ chain) = All (λ q. q ≢ p) chain × Distinct chain

-- what is left when the nodes of a chain are gone
abbrev pub forget_all : Nodes → List ℕ → Nodes
forget_all nodes [] = nodes
forget_all nodes (p ∷ chain) = forget_all (forget nodes p) chain

Linked-forget :
    (nodes : Nodes) (node p : ℕ) (chain : List ℕ)
    → All (λ q. q ≢ p) chain
    → Linked nodes node chain
    → Linked (forget nodes p) node chain
Linked-forget nodes node p [] ne h = h
Linked-forget nodes node p (q ∷ chain) (ne, nes) (e, some_address, (n, there, rest)) =
    (e, some_address, (n, rw (ne→== q p ne) there, Linked-forget nodes n.next p chain nes rest))

free_nodes-forgets :
    (fuel : ℕ) (chain : List ℕ) (node : ℕ) (nodes : Nodes)
    → length chain < fuel
    → Distinct chain
    → Linked nodes node chain
    → free_nodes fuel node nodes ≡ ok (forget_all nodes chain)
unfolding free_nodes
free_nodes-forgets zero chain node nodes enough d h = absurd (omega arith)
free_nodes-forgets (suc fuel) [] node nodes enough d h = rw h refl
free_nodes-forgets (suc fuel) (p ∷ chain) node nodes enough (ne, d)
      (e, some_address, (n, there, rest)) =
    let more =
      free_nodes-forgets fuel chain n.next (forget nodes p) (omega arith) d
        (Linked-forget nodes n.next p chain ne rest) in
    rw (e, ne→== p null some_address, there, ◌>>=◌, of_option) more

Linked-forget_all :
    (nodes : Nodes) (gone : List ℕ) (node : ℕ) (chain : List ℕ)
    → All (λ p. All (λ q. q ≢ p) chain) gone
    → Linked nodes node chain
    → Linked (forget_all nodes gone) node chain
Linked-forget_all nodes [] node chain ne h = h
Linked-forget_all nodes (p ∷ gone) node chain (ne, nes) h =
    Linked-forget_all (forget nodes p) gone node chain nes (Linked-forget nodes node p chain ne h)

forget_all-kept :
    (nodes : Nodes) (gone : List ℕ) (p : ℕ)
    → All (λ q. q ≢ p) gone
    → forget_all nodes gone p ≡ nodes p
forget_all-kept nodes [] p ne = refl
forget_all-kept nodes (q ∷ gone) p (ne, nes) =
    forget_all-kept (forget nodes q) gone p nes ∙ rw (ne→== p q (λ e. ne (sym e))) refl

forget_all-none :
    (nodes : Nodes) (gone : List ℕ) (p : ℕ) → nodes p ≡ none → forget_all nodes gone p ≡ none
forget_all-none nodes [] p e = e
forget_all-none nodes (q ∷ gone) p e =
    forget_all-none (forget nodes q) gone p
      (elim (Bool-cases (p == q)) [ inl k ↦ rw k refl | inr k ↦ rw k e ])

forget_all-gone : (nodes : Nodes) (gone : List ℕ) → All (λ p. forget_all nodes gone p ≡ none) gone
forget_all-gone nodes [] = tt
forget_all-gone nodes (p ∷ gone) = (
  forget_all-none (forget nodes p) gone p (rw (==_refl p) refl),
  forget_all-gone (forget nodes p) gone,
)

forget_all-append :
    (nodes : Nodes) (xs ys : List ℕ)
    → forget_all (forget_all nodes xs) ys ≡ forget_all nodes (xs ++ ys)
forget_all-append nodes [] ys = refl
forget_all-append nodes (x ∷ xs) ys = forget_all-append (forget nodes x) xs ys

-- the nodes of all the chains
abbrev pub joined : List (List ℕ) → List ℕ
joined [] = []
joined (chain ∷ chains) = chain ++ joined chains

-- each bucket is the head of its chain, which is shorter than the fuel
abbrev pub Chained : (fuel : ℕ) → Nodes → (buckets : List ℕ) → List (List ℕ) → Type 0
Chained fuel nodes [] [] = Unit
Chained fuel nodes [] (chain ∷ chains) = ⊥
Chained fuel nodes (node ∷ buckets) [] = ⊥
Chained fuel nodes (node ∷ buckets) (chain ∷ chains) =
    (length chain < fuel) × Linked nodes node chain × Chained fuel nodes buckets chains

All-left : (P : ℕ → Type 0) (xs ys : List ℕ) → All P (xs ++ ys) → All P xs × All P ys
All-left P [] ys h = (tt, h)
All-left P (x ∷ xs) ys h = let r = All-left P xs ys h.1 in ((h.0, r.0), r.1)

Distinct-split :
    (xs ys : List ℕ)
    → Distinct (xs ++ ys)
    → Distinct xs × Distinct ys × All (λ p. All (λ q. q ≢ p) ys) xs
Distinct-split [] ys d = (tt, d, tt)
Distinct-split (x ∷ xs) ys (ne, d) =
    let (a, b) = All-left (λ q. q ≢ x) xs ys ne in
    let (c, e, f) = Distinct-split xs ys d in ((a, c), e, (b, f))

Chained-forget_all :
    (fuel : ℕ) (nodes : Nodes) (gone : List ℕ) (buckets : List ℕ) (chains : List (List ℕ))
    → All (λ p. All (λ q. q ≢ p) (joined chains)) gone
    → Chained fuel nodes buckets chains
    → Chained fuel (forget_all nodes gone) buckets chains
Chained-forget_all fuel nodes gone [] [] ne h = tt
Chained-forget_all fuel nodes gone [] (chain ∷ chains) ne h = absurd h
Chained-forget_all fuel nodes gone (node ∷ buckets) [] ne h = absurd h
Chained-forget_all fuel nodes gone (node ∷ buckets) (chain ∷ chains) ne (small, linked, rest) =
    let both = λ (p : ℕ) (h : All (λ q. q ≢ p) (chain ++ joined chains)).
      All-left (λ q. q ≢ p) chain (joined chains) h in
    (
      small,
      Linked-forget_all nodes gone node chain (All-mono _ _ (λ (p : ℕ) h. (both p h).0) gone ne)
          linked,
      Chained-forget_all fuel nodes gone buckets chains
          (All-mono _ _ (λ (p : ℕ) h. (both p h).1) gone ne) rest,
    )

hashmap_free-forgets :
    (fuel : ℕ) (buckets : List ℕ) (chains : List (List ℕ)) (nodes : Nodes)
    → Chained fuel nodes buckets chains
    → Distinct (joined chains)
    → hashmap_free fuel buckets nodes ≡ ok (forget_all nodes (joined chains))
unfolding hashmap_free
hashmap_free-forgets fuel [] [] nodes h d = refl
hashmap_free-forgets fuel [] (chain ∷ chains) nodes h d = absurd h
hashmap_free-forgets fuel (node ∷ buckets) [] nodes h d = absurd h
hashmap_free-forgets fuel (node ∷ buckets) (chain ∷ chains) nodes (small, linked, rest) d =
    let (d', d'', ne) = Distinct-split chain (joined chains) d in
    bind-ok _ (free_nodes-forgets fuel chain node nodes small d' linked) (
      hashmap_free-forgets fuel buckets chains (forget_all nodes chain)
        (Chained-forget_all fuel nodes chain buckets chains ne rest) d''
      ∙ ap ok (forget_all-append nodes chain (joined chains)))

-- On a table whose buckets head linked chains without a common node, with fuel for the longest chain,
-- `hashmap_free` ends without a fault: it uses no node that it has freed. Afterwards none of the nodes
-- of the chains is left, and all other nodes are as before.
pub hashmap_free-frees :
    (fuel : ℕ) (buckets : List ℕ) (chains : List (List ℕ)) (nodes : Nodes)
    → Chained fuel nodes buckets chains
    → Distinct (joined chains)
    → Returns (hashmap_free fuel buckets nodes) (λ left.
      All (λ p. left p ≡ none) (joined chains)
      × ((p : ℕ) → All (λ q. q ≢ p) (joined chains) → left p ≡ nodes p))
hashmap_free-frees fuel buckets chains nodes h d = (
  forget_all nodes (joined chains),
  hashmap_free-forgets fuel buckets chains nodes h d,
  (forget_all-gone nodes (joined chains), λ p ne. forget_all-kept nodes (joined chains) p ne),
)
