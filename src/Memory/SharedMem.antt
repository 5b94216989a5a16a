-- ===== src/Memory/SharedMem.antt =====
-- memory/shared_mem.c: `shm_open` and `mmap` are parameters, with `none` for the -1 of the first. The
-- functions return a result, `none` for -1, and what is in `*region` afterwards.
pub mod Key
use open_shmem_csci.Base.{
  ℕ, ◌-◌, ◌^◌, ◌≡◌, ◌≢◌, refl, ap, Option, none, some, ◌==◌, if◌then◌else◌, ne→==, ltb, lt→ltb, ◌<◌,
  ◌&&◌,
}
use open_shmem_csci.Base.Run.{Run, ok, fault}

-- `MAP_FAILED`, the pointer made from -1
abbrev pub map_failed : ℕ
map_failed = 2 ^ 64 - 1

-- `region` is the address of the pointer that is assigned; this address is what is compared
unfoldable pub shared_mem_map : (mmap : (fd size : ℕ) → ℕ) → (fd size region : ℕ) → Option ℕ × ℕ
shared_mem_map mmap fd size region = (if region == map_failed then none else some 0, mmap fd size)

module _ (shm_open : (key : ℕ) → Option ℕ) (mmap : (fd size : ℕ) → ℕ) where
  -- `old` is what `*region` held; the names of the objects are numbered
  unfoldable pub shared_mem_open : (key size region old : ℕ) → Option ℕ × ℕ
  unfolding shared_mem_map
  shared_mem_open key size region old = elim (shm_open key) [
    | none ↦ (none, old)
    | some fd ↦
        let r = shared_mem_map mmap fd size region in
        elim r.0 [ none ↦ (none, r.1) | some z ↦ (some fd, r.1) ]
  ]

  -- `memset` of some bytes at `MAP_FAILED` faults
  unfoldable pub shared_mem_create : (key size region old : ℕ) → Run (Option ℕ × ℕ)
  unfolding shared_mem_map
  shared_mem_create key size region old = elim (shm_open key) [
    | none ↦ ok (none, old)
    | some fd ↦
        let r = shared_mem_map mmap fd size region in
        elim r.0 [
          | none ↦ ok (none, r.1)
          | some z ↦ if r.1 == map_failed && ltb 0 size then fault else ok (some fd, r.1)
        ]
  ]

-- As long as the out-pointer itself is not at the address `MAP_FAILED`, `shared_mem_map` reports
-- success whatever `mmap` returns, and the caller finds that value, so also `MAP_FAILED`.
pub shared_mem_map-success :
    (mmap : (fd size : ℕ) → ℕ) (fd size region : ℕ)
    → region ≢ map_failed
    → shared_mem_map mmap fd size region ≡ (some 0, mmap fd size)
unfolding shared_mem_map
shared_mem_map-success mmap fd size region h = rw (ne→== region map_failed h) refl

module _ (shm_open : (key : ℕ) → Option ℕ) (mmap : (fd size : ℕ) → ℕ) (key size region old fd : ℕ)
    (opened : shm_open key ≡ some fd) (named : region ≢ map_failed) where
  pub shared_mem_open-success :
      shared_mem_open shm_open mmap key size region old ≡ (some fd, mmap fd size)
  unfolding shared_mem_open
  shared_mem_open-success =
      let map = shared_mem_map-success mmap fd size region named in
      rw (opened, shared_mem_open) (rw (ap (λ r. r.0) map) (rw (ap (λ r. r.1) map) refl))

  shared_mem_create-fault :
      mmap fd size ≡ map_failed
      → 0 < size
      → shared_mem_create shm_open mmap key size region old ≡ fault
  unfolding shared_mem_create
  shared_mem_create-fault failed some_bytes =
      let map = shared_mem_map-success mmap fd size region named in
      rw (opened, shared_mem_create)
        (rw (ap (λ r. r.0) map)
          (rw (ap (λ r. r.1) map) (rw (failed) (rw (lt→ltb 0 size some_bytes) refl))))

  pub shared_mem_create-success :
      mmap fd size ≢ map_failed
      → shared_mem_create shm_open mmap key size region old ≡ ok (some fd, mmap fd size)
  unfolding shared_mem_create
  shared_mem_create-success mapped =
      let map = shared_mem_map-success mmap fd size region named in
      rw (opened, shared_mem_create)
        (rw (ap (λ r. r.0) map)
          (rw (ap (λ r. r.1) map) (rw (ne→== (mmap fd size) map_failed mapped) refl)))

pub shared_mem_open-failure :
    (shm_open : (key : ℕ) → Option ℕ) (mmap : (fd size : ℕ) → ℕ) (key size region old : ℕ)
    → shm_open key ≡ none
    → shared_mem_open shm_open mmap key size region old ≡ (none, old)
unfolding shared_mem_open
shared_mem_open-failure shm_open mmap key size region old refused =
    rw (refused, shared_mem_open) refl
