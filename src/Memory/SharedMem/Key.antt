-- ===== src/Memory/SharedMem/Key.antt =====
-- The names of the shared memory objects of memory/shared_mem.c, as lists of bytes without the 0 at
-- their ends. An `int` is its word of 32 bits.
use open_shmem_csci.Base.{
  ℕ, zero, suc, ◌+◌, ◌-◌, ◌*◌, ◌/◌, ◌%◌, ◌^◌, ◌≤◌, ◌<◌, ◌≡◌, ◌≢◌, ◌∙◌, inl, inr, refl, sym, ap,
  List, [], ◌∷◌, ◌++◌, ltb, if◌then◌else◌, length, length-append, lt→ltb, ne→==, Bool-cases, ◌==◌,
  All, All-append, arith,
}
use open_shmem_csci.Base.Run.{Run, ok, fault, Returns}

-- `"dwl2x"`, of common.h, and `"-shmem-"`
abbrev pub shared_memory_prefix : List ℕ
shared_memory_prefix = 100 ∷ 119 ∷ 108 ∷ 50 ∷ 120 ∷ []

abbrev separator : List ℕ
separator = 45 ∷ 115 ∷ 104 ∷ 109 ∷ 101 ∷ 109 ∷ 45 ∷ []

-- the digits of a number below `10 ^ (k + 1)`
unfoldable pub digits : (k n : ℕ) → List ℕ
digits zero n = (48 + n) ∷ []
digits (suc k) n = if ltb n 10 then (48 + n) ∷ [] else digits k (n / 10) ++ (48 + n % 10) ∷ []

-- what `%d` makes of an `int`: ten digits at most, behind a sign where it is negative
unfoldable pub decimal : (identifier : ℕ) → List ℕ
unfolding digits
decimal identifier =
    if ltb identifier (2 ^ 31) then digits 9 identifier else 45 ∷ digits 9 (2 ^ 32 - identifier)

-- `sprintf` to a buffer of 256 bytes, of this text and its 0
unfoldable pub to_key : List ℕ → Run (List ℕ)
to_key text = if ltb (length text) 256 then ok text else fault

unfoldable pub shared_mem_key_int : (identifier : ℕ) → Run (List ℕ)
unfolding to_key decimal
shared_mem_key_int identifier = to_key (shared_memory_prefix ++ (separator ++ decimal identifier))

unfoldable pub shared_mem_key_str : (identifier : List ℕ) → Run (List ℕ)
unfolding to_key
shared_mem_key_str identifier = to_key (shared_memory_prefix ++ (separator ++ identifier))

-- the number that the digits are read as, behind those that were read as `v`
read : (v : ℕ) → List ℕ → ℕ
read v [] = v
read v (c ∷ cs) = read (10 * v + (c - 48)) cs

read-append : (v : ℕ) (cs : List ℕ) (c : ℕ) → read v (cs ++ c ∷ []) ≡ 10 * read v cs + (c - 48)
unfolding read
read-append v [] c = refl
read-append v (d ∷ cs) c = read-append (10 * v + (d - 48)) cs c

read-digits : (k n : ℕ) → n < 10 ^ suc k → read 0 (digits k n) ≡ n
unfolding digits read
read-digits zero n h = omega arith
read-digits (suc k) n h = elim (Bool-cases (ltb n 10)) [
  | inl small ↦ rw small (omega arith)
  | inr large ↦
      let ih = read-digits k (n / 10) (omega (arith, h)) in
      rw large (read-append 0 (digits k (n / 10)) (48 + n % 10) ∙ omega (arith, ih))
]

length-digits : (k n : ℕ) → length (digits k n) ≤ suc k
unfolding digits
length-digits zero n = omega arith
length-digits (suc k) n =
    ground (arith, length-digits k (n / 10), length-append (digits k (n / 10)) ((48 + n % 10) ∷ []))

pub digits-All : (k n : ℕ) → n < 10 ^ suc k → All (λ c. 48 ≤ c) (digits k n)
unfolding digits
digits-All zero n h = (omega arith, tt)
digits-All (suc k) n h = elim (Bool-cases (ltb n 10)) [
  | inl small ↦ rw small (omega arith, tt)
  | inr large ↦ rw large (
      All-append (λ c. 48 ≤ c) (digits k (n / 10)) ((48 + n % 10) ∷ [])
        (digits-All k (n / 10) (omega (arith, h))) (omega arith, tt))
]

-- the `int` that a text of `%d` stands for
abbrev read_decimal : List ℕ → ℕ
read_decimal [] = 0
read_decimal (c ∷ cs) = if c == 45 then 2 ^ 32 - read 0 cs else read 0 (c ∷ cs)

read_decimal-read : (cs : List ℕ) → All (λ c. 48 ≤ c) cs → read_decimal cs ≡ read 0 cs
unfolding read
read_decimal-read [] h = refl
read_decimal-read (c ∷ cs) (h, hs) = rw (ne→== c 45 (λ e. omega (arith, h, e))) refl

read_decimal-decimal : (i : ℕ) → i < 2 ^ 32 → read_decimal (decimal i) ≡ i
unfolding decimal
read_decimal-decimal i h = elim (Bool-cases (ltb i (2 ^ 31))) [
  | inl small ↦
      let short : i < 10 ^ 10 = omega arith in
      rw small (read_decimal-read (digits 9 i) (digits-All 9 i short) ∙ read-digits 9 i short)
  | inr large ↦
      let big : 2 ^ 31 ≤ i = ground (arith, large) in
      let short : 2 ^ 32 - i < 10 ^ 10 = omega (arith, big) in
      rw large (omega (arith, read-digits 9 (2 ^ 32 - i) short, h))
]

length-decimal : (i : ℕ) → length (decimal i) ≤ 11
unfolding decimal
length-decimal i = ground (arith, length-digits 9 i, length-digits 9 (2 ^ 32 - i))

abbrev read_key : List ℕ → ℕ
read_key (a ∷ b ∷ c ∷ d ∷ e ∷ f ∷ g ∷ h ∷ i ∷ j ∷ k ∷ l ∷ cs) = read_decimal cs
read_key other = 0

abbrev key_text : ℕ → List ℕ
key_text i = shared_memory_prefix ++ (separator ++ decimal i)

shared_mem_key_int-fits : (i : ℕ) → shared_mem_key_int i ≡ ok (key_text i)
unfolding shared_mem_key_int to_key
shared_mem_key_int-fits i =
    rw (lt→ltb (length (key_text i)) 256 (omega (arith, length-decimal i))) refl

-- `shared_mem_key_int` fits every `int` into the buffer, and the keys of different `int`s differ.
pub shared_mem_key_int-distinct :
    (i j : ℕ)
    → i < 2 ^ 32
    → j < 2 ^ 32
    → i ≢ j
    → Returns (shared_mem_key_int i) (λ key. Returns (shared_mem_key_int j) (λ key'. key ≢ key'))
shared_mem_key_int-distinct i j hi hj ne = (
  key_text i,
  shared_mem_key_int-fits i,
  (
    key_text j,
    shared_mem_key_int-fits j,
    λ same. ne (sym (read_decimal-decimal i hi) ∙ ap read_key same ∙ read_decimal-decimal j hj),
  ),
)
