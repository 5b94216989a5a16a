-- ===== src/Base/Run.antt =====
-- Results of C code that can go wrong: `fault` is a read or write through a null, dangling or
-- uninitialised pointer or outside an array, `out_of_fuel` a loop that used up its fuel.
use Prim.Native.Nat.{ℕ}
use mathlib.Core.List.{List}
use mathlib.Core.Path.{◌≡◌, refl}
use mathlib.Core.Option.{Option, none, some}
use open_shmem_csci.Base.Bools.{ltb, if◌then◌else◌}
use open_shmem_csci.Base.Lists.{length, set}

pub data Run {ℓ} (A : Type ℓ) : Type ℓ where
  fault out_of_fuel : Run A
  ok : (result : A) → Run A

-- `rest` goes on from the result of `run`, if that has one
abbrev pub ◌>>=◌ {ℓ κ} : {A : Type ℓ} {B : Type κ} (run : Run A) (rest : A → Run B) → Run B
fault >>= rest = fault
out_of_fuel >>= rest = out_of_fuel
ok result >>= rest = rest result

infixl 5 ◌>>=◌
-- a value that is there, or a fault
abbrev pub of_option {ℓ} : {A : Type ℓ} → Option A → Run A
of_option none = fault
of_option (some a) = ok a

-- a write into an array: out of its bounds it faults
abbrev pub write_at {ℓ} : {A : Type ℓ} → List A → ℕ → A → Run (List A)
write_at xs i a = if ltb i (length xs) then ok (set xs i a) else fault

-- the run ends normally, in a result that satisfies `Q`
abbrev pub Returns {ℓ κ} : {A : Type ℓ} (run : Run A) (Q : A → Type κ) → Type (ℓ ⊔ κ)
Returns {A} run Q = (result : A) × (run ≡ ok result) × Q result

-- the first run ends in `a`, so the rest goes on from there
pub bind-ok {ℓ κ} :
    {A : Type ℓ} {B : Type κ} {r : Run A} {a : A} {t : Run B} (f : A → Run B)
    → r ≡ ok a
    → f a ≡ t
    → (r >>= f) ≡ t
bind-ok f e k = rw (e) k

-- a result of the whole comes from a result of the first run
pub bind-split {ℓ κ} :
    {A : Type ℓ} {B : Type κ} (r : Run A) (f : A → Run B) (b : B)
    → (r >>= f) ≡ ok b
    → (a : A) × (r ≡ ok a) × (f a ≡ ok b)
bind-split fault f b e = absurd cc
bind-split out_of_fuel f b e = absurd cc
bind-split (ok a) f b e = (a, refl, e)
