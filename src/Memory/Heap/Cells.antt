-- ===== src/Memory/Heap/Cells.antt =====
-- The abstract view of the chain: its blocks in address order, with what links them in the store.
use open_shmem_csci.Base.{
  ℕ, ◌+◌, ◌-◌, ◌^◌, ◌≤◌, ◌<◌, ◌≡◌, ◌≢◌, refl, sym, ap, Option, none, some, List, [], ◌∷◌, ◌++◌,
  arith, ltb, if◌then◌else◌, All, All-append,
}
use open_shmem_csci.Memory.Store.{Store, Block, block, null, update, update_ne}

-- a block with its address in the store
pub record Cell : Type 0 where
  pub id : ℕ
  pub ptr : ℕ
  pub size : ℕ

abbrev pub cell : ℕ → ℕ → ℕ → Cell
cell i p n = record { id = i; ptr = p; size = n }

abbrev pub cell_end : Cell → ℕ
cell_end c = c.ptr + c.size

-- where a chain that goes on to `stop` begins
abbrev pub first : ℕ → List Cell → ℕ
first stop [] = stop
first stop (c ∷ cs) = c.id

-- the address at which the cells begin, if what follows them begins at `lim`
abbrev pub start : ℕ → List Cell → ℕ
start lim [] = lim
start lim (c ∷ cs) = c.ptr

-- the `next` pointers lead through the cells to `stop`
abbrev pub Linked : Store → ℕ → List Cell → Type 0
Linked s stop [] = Unit
Linked s stop (c ∷ cs) =
    (c.id ≢ null)
    × (c.id < 2 ^ 63)
    × (s c.id ≡ some (block c.ptr c.size (first stop cs)))
    × Linked s stop cs

-- no cell reaches into the next one or past `lim`
abbrev pub Fits : ℕ → List Cell → Type 0
Fits lim [] = Unit
Fits lim (c ∷ cs) = (cell_end c ≤ start lim cs) × Fits lim cs

abbrev pub Avoids : ℕ → List Cell → Type 0
Avoids i = All (λ c. c.id ≢ i)

-- the blocks have different addresses in the store
abbrev pub Distinct : List Cell → Type 0
Distinct [] = Unit
Distinct (c ∷ cs) = Avoids c.id cs × Distinct cs

-- The next-fit rule on cells: the first one with `bytes` free between its end and the next.
unfoldable pub first_fit : ℕ → ℕ → List Cell → Option ℕ
first_fit bytes lim [] = none
first_fit bytes lim (c ∷ cs) =
    if ltb (start lim cs - cell_end c) bytes then first_fit bytes lim cs else some c.id

module _ (s : Store) (stop : ℕ) where
  pub Linked-append :
      (xs ys : List Cell)
      → Linked s (first stop ys) xs
      → Linked s stop ys
      → Linked s stop (xs ++ ys)
  Linked-append [] ys h k = k
  Linked-append (x ∷ []) ys h k = (h.0, h.1, h.2, k)
  Linked-append (x ∷ x' ∷ xs) ys h k = (h.0, h.1, h.2, Linked-append (x' ∷ xs) ys h.3 k)

  pub Linked-split :
      (xs ys : List Cell)
      → Linked s stop (xs ++ ys)
      → Linked s (first stop ys) xs × Linked s stop ys
  Linked-split [] ys h = (tt, h)
  Linked-split (x ∷ []) ys h = ((h.0, h.1, h.2, tt), h.3)
  Linked-split (x ∷ x' ∷ xs) ys h =
      let r = Linked-split (x' ∷ xs) ys h.3 in ((h.0, h.1, h.2, r.0), r.1)

  -- a chain survives a write to a block that is none of its own
  pub Linked-update :
      (p : ℕ) (b : Option Block) (cs : List Cell)
      → Avoids p cs
      → Linked s stop cs
      → Linked (update s p b) stop cs
  Linked-update p b [] a h = tt
  Linked-update p b (c ∷ cs) a h =
      (h.0, h.1, rw (update_ne s p c.id b a.0) h.2, Linked-update p b cs a.1 h.3)

  -- an address with no live block is none of the chain's
  pub Linked-Avoids : (p : ℕ) (cs : List Cell) → s p ≡ none → Linked s stop cs → Avoids p cs
  Linked-Avoids p [] e h = tt
  Linked-Avoids p (c ∷ cs) e h =
      (λ (same : c.id ≡ p). cc (ap s same, e, h.2), Linked-Avoids p cs e h.3)

module _ (lim : ℕ) where
  pub Fits-append : (xs ys : List Cell) → Fits (start lim ys) xs → Fits lim ys → Fits lim (xs ++ ys)
  Fits-append [] ys h k = k
  Fits-append (x ∷ []) ys h k = (h.0, k)
  Fits-append (x ∷ x' ∷ xs) ys h k = (h.0, Fits-append (x' ∷ xs) ys h.1 k)

  pub Fits-split : (xs ys : List Cell) → Fits lim (xs ++ ys) → Fits (start lim ys) xs × Fits lim ys
  Fits-split [] ys h = (tt, h)
  Fits-split (x ∷ []) ys h = ((h.0, tt), h.1)
  Fits-split (x ∷ x' ∷ xs) ys h = let r = Fits-split (x' ∷ xs) ys h.1 in ((h.0, r.0), r.1)

  -- the cells begin no later than their limit
  pub start-le : (cs : List Cell) → Fits lim cs → start lim cs ≤ lim
  start-le [] h = omega arith
  start-le (c ∷ cs) h = omega (arith, start-le cs h.1)

pub first-append : (stop : ℕ) (xs ys : List Cell) → first stop (xs ++ ys) ≡ first (first stop ys) xs
first-append stop [] ys = refl
first-append stop (x ∷ xs) ys = refl

pub start-append : (lim : ℕ) (xs ys : List Cell) → start lim (xs ++ ys) ≡ start (start lim ys) xs
start-append lim [] ys = refl
start-append lim (x ∷ xs) ys = refl

module _ where
  pub Avoids-split : (i : ℕ) (xs ys : List Cell) → Avoids i (xs ++ ys) → Avoids i xs × Avoids i ys
  Avoids-split i [] ys h = (tt, h)
  Avoids-split i (x ∷ xs) ys h = let r = Avoids-split i xs ys h.1 in ((h.0, r.0), r.1)

  -- in a chain of different blocks the one in the middle is none of the others
  pub Distinct-middle :
      (xs : List Cell) (c : Cell) (ys : List Cell)
      → Distinct (xs ++ c ∷ ys)
      → Avoids c.id xs × Avoids c.id ys
  Distinct-middle [] c ys h = (tt, h.0)
  Distinct-middle (x ∷ xs) c ys h =
      let r = Distinct-middle xs c ys h.1 in
      let a = Avoids-split x.id xs (c ∷ ys) h.0 in ((λ e. a.1.0 (sym e), r.0), r.1)

  -- a new block may be put anywhere
  pub Distinct-insert :
      (xs : List Cell) (new : Cell) (ys : List Cell)
      → Avoids new.id (xs ++ ys)
      → Distinct (xs ++ ys)
      → Distinct (xs ++ new ∷ ys)
  Distinct-insert [] new ys a h = (a, h)
  Distinct-insert (x ∷ xs) new ys a h =
      let r = Avoids-split x.id xs ys h.0 in
      (
        All-append (λ c. c.id ≢ x.id) xs (new ∷ ys) r.0 (λ e. a.0 (sym e), r.1),
        Distinct-insert xs new ys a.1 h.1,
      )
