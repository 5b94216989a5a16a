-- ===== src/Comm/Barrier/Safety.antt =====
-- No PE leaves the barrier for the k-th time before every PE has entered it for the k-th time.
use open_shmem_csci.Base.{
  ℕ, ◌+◌, ◌≤◌, ◌<◌, ◌≡◌, ◌≢◌, ◌⊎◌, refl, inl, inr, Bool, true, false, ltb, if◌then◌else◌, arith,
  Bool-cases,
}
use open_shmem_csci.Comm.Barrier.{
  RootPhase, outside, collecting, releasing, System, start, root_enter, root_collect,
  root_collected, root_release, root_leave, pe_enter, pe_leave, deliver_root, deliver_pe, Step,
  enter_root, collect, collected, release, leave_root, enter_pe, leave_pe, arrive_root, arrive_pe,
  Reach, here, next,
}

-- how often PE 0 has seen and reset the element of PE `i`, with `l` returns behind it
abbrev pub collections : RootPhase → ℕ → ℕ → ℕ
collections outside l i = l
collections (collecting j) l i = if ltb i j then l + 1 else l
collections (releasing j) l i = l + 1

-- how often it has put to PE `i`
abbrev pub releases : RootPhase → ℕ → ℕ → ℕ
releases outside l i = l
releases (collecting j) l i = l
releases (releasing j) l i = if ltb i j then l + 1 else l

abbrev pub root_inside : RootPhase → ℕ
root_inside outside = 0
root_inside (collecting j) = 1
root_inside (releasing j) = 1

abbrev pub to_nat : Bool → ℕ
to_nat true = 1
to_nat false = 0

abbrev pub counter : RootPhase → ℕ
counter outside = 1
counter (collecting j) = j
counter (releasing j) = j

-- the account of PE `i`: its arrivals were collected, wait in the element, or are on their way; what
-- was released to it made it leave, waits in its element, or is on its way
pub record Balanced (s : System) (i : ℕ) : Type 0 where
  pub arrivals : s.arrived i ≡ collections s.root (s.left 0) i + s.to_root i + s.root_sync i
  pub releases_to : s.left i + s.own_sync i + s.to_pe i ≡ releases s.root (s.left 0) i
  pub calls : s.arrived i ≡ s.left i + to_nat (s.inside i)

pub record Invariant (n : ℕ) (s : System) : Type 0 where
  pub counted : 1 ≤ counter s.root
  pub root_calls : s.arrived 0 ≡ s.left 0 + root_inside s.root
  pub balanced : (i : ℕ) → 0 < i → i < n → Balanced s i

-- An account never has more than one call under way.
releases-le : (root : RootPhase) (l i : ℕ) → releases root l i ≤ collections root l i
releases-le outside l i = omega arith
releases-le (collecting j) l i = ground arith
releases-le (releasing j) l i = ground arith

single :
    (s : System) (i : ℕ)
    → Balanced s i
    → (s.to_root i + s.root_sync i ≤ 1) × (s.own_sync i + s.to_pe i ≤ to_nat (s.inside i))
single s i b =
    let h = releases-le s.root (s.left 0) i in
    elim (Bool-cases (s.inside i)) [
      | inl e ↦ rw e (ground (arith, b.arrivals, b.releases_to, b.calls))
      | inr e ↦ rw e (ground (arith, b.arrivals, b.releases_to, b.calls))
    ]

module _ {n : ℕ} {s : System} (v : Invariant n s) where
  step-root_enter : s.root ≡ outside → Invariant n (root_enter s)
  unfolding root_enter
  step-root_enter e = record {
    counted = ground (arith, v.counted);
    root_calls = ground (arith, v.root_calls);
    balanced = λ i p q. ground (arith, v.balanced i p q);
  }

  step-root_collect :
      (i : ℕ) → s.root ≡ collecting i → i < n → s.root_sync i ≢ 0 → Invariant n (root_collect i s)
  unfolding root_collect
  step-root_collect k e h set = record {
    counted = ground (arith, v.counted);
    root_calls = ground (arith, v.root_calls);
    balanced = λ i p q. ground (arith, v.balanced i p q, single s i (v.balanced i p q));
  }

  step-root_collected : (i : ℕ) → s.root ≡ collecting i → n ≤ i → Invariant n (root_collected s)
  unfolding root_collected
  step-root_collected k e h = record {
    counted = ground (arith, v.counted);
    root_calls = ground (arith, v.root_calls);
    balanced = λ i p q. ground (arith, v.balanced i p q);
  }

  step-root_release : (i : ℕ) → s.root ≡ releasing i → i < n → Invariant n (root_release i s)
  unfolding root_release
  step-root_release k e h = record {
    counted = ground (arith, v.counted);
    root_calls = ground (arith, v.root_calls);
    balanced = λ i p q. ground (arith, v.balanced i p q);
  }

  step-root_leave : (i : ℕ) → s.root ≡ releasing i → n ≤ i → Invariant n (root_leave s)
  unfolding root_leave
  step-root_leave k e h = record {
    counted = ground (arith, v.counted);
    root_calls = ground (arith, v.root_calls);
    balanced = λ i p q. ground (arith, v.balanced i p q);
  }

  step-pe_enter : (i : ℕ) → 0 < i → i < n → s.inside i ≡ false → Invariant n (pe_enter i s)
  unfolding pe_enter
  step-pe_enter k pos h e = record {
    counted = ground (arith, v.counted);
    root_calls = ground (arith, v.root_calls);
    balanced = λ i p q. ground (arith, v.balanced i p q);
  }

  step-pe_leave :
      (i : ℕ) → 0 < i → i < n → s.inside i ≡ true → s.own_sync i ≢ 0 → Invariant n (pe_leave i s)
  unfolding pe_leave
  step-pe_leave k pos h e set = record {
    counted = ground (arith, v.counted);
    root_calls = ground (arith, v.root_calls);
    balanced = λ i p q. ground (arith, v.balanced i p q, single s i (v.balanced i p q));
  }

  step-deliver_root : (i : ℕ) → 0 < i → i < n → s.to_root i ≢ 0 → Invariant n (deliver_root i s)
  unfolding deliver_root
  step-deliver_root k pos h some_put = record {
    counted = ground (arith, v.counted);
    root_calls = ground (arith, v.root_calls);
    balanced = λ i p q. ground (arith, v.balanced i p q, single s i (v.balanced i p q));
  }

  step-deliver_pe : (i : ℕ) → 0 < i → i < n → s.to_pe i ≢ 0 → Invariant n (deliver_pe i s)
  unfolding deliver_pe
  step-deliver_pe k pos h some_put = record {
    counted = ground (arith, v.counted);
    root_calls = ground (arith, v.root_calls);
    balanced = λ i p q. ground (arith, v.balanced i p q, single s i (v.balanced i p q));
  }

start-Invariant : (n : ℕ) → Invariant n start
unfolding start
start-Invariant n = record {
  counted = omega arith;
  root_calls = refl;
  balanced = λ i p q. record { arrivals = refl; releases_to = refl; calls = refl };
}

Step-Invariant : {n : ℕ} {s t : System} → Invariant n s → Step n s t → Invariant n t
Step-Invariant v (enter_root e) = step-root_enter v e
Step-Invariant v (collect i e h set) = step-root_collect v i e h set
Step-Invariant v (collected i e h) = step-root_collected v i e h
Step-Invariant v (release i e h) = step-root_release v i e h
Step-Invariant v (leave_root i e h) = step-root_leave v i e h
Step-Invariant v (enter_pe i p h e) = step-pe_enter v i p h e
Step-Invariant v (leave_pe i p h e set) = step-pe_leave v i p h e set
Step-Invariant v (arrive_root i p h e) = step-deliver_root v i p h e
Step-Invariant v (arrive_pe i p h e) = step-deliver_pe v i p h e

pub Reach-Invariant : {n : ℕ} {s : System} → Reach n s → Invariant n s
Reach-Invariant {n} here = start-Invariant n
Reach-Invariant (next r st) = Step-Invariant (Reach-Invariant r) st

-- what PE 0 released to one PE, and how often PE 0 returned, every PE has arrived for
released-le : (root : RootPhase) (l i j : ℕ) → releases root l j ≤ collections root l i
released-le outside l i j = omega arith
released-le (collecting k) l i j = ground arith
released-le (releasing k) l i j = ground arith

root-le :
    (root : RootPhase) (l i : ℕ)
    → (l ≤ collections root l i) × (releases root l i ≤ l + root_inside root)
root-le outside l i = omega arith
root-le (collecting k) l i = ground arith
root-le (releasing k) l i = ground arith

ℕ-cases : (n : ℕ) → (n ≡ 0) ⊎ (0 < n)
ℕ-cases n = omega arith

-- In every state that the PEs can reach, no PE `j` has returned from more barriers than any PE `i`
-- has called, however the PEs' steps and the deliveries interleave.
pub left-le-arrived :
    (n : ℕ) (s : System) (i j : ℕ) → Reach n s → i < n → j < n → s.left j ≤ s.arrived i
left-le-arrived n s i j r hi hj =
    let v = Reach-Invariant r in
    let l = s.left 0 in
    elim (ℕ-cases i) [
      | inl zi ↦ elim (ℕ-cases j) [
        | inl zj ↦ rw (zi, zj) (omega (arith, v.root_calls))
        | inr pj ↦
            rw zi
              (omega (arith, v.root_calls, (v.balanced j pj hj).releases_to, root-le s.root l j))
      ]
      | inr pi ↦ elim (ℕ-cases j) [
        | inl zj ↦ rw zj (omega (arith, (v.balanced i pi hi).arrivals, root-le s.root l i))
        | inr pj ↦ omega (
          arith,
          (v.balanced i pi hi).arrivals,
          (v.balanced j pj hj).releases_to,
          released-le s.root l i j,
        )
      ]
    ]
