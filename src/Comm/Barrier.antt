-- ===== src/Comm/Barrier.antt =====
-- `comm_barrier_all` of comm/comm.c, for all the PEs together: each reads and resets elements of its
-- own `__pSync` and puts a 1 into an element of another PE's. A put to a PE of the same node is a
-- `memcpy`; one to a remote PE is on its way until it is delivered: `to_root` and `to_pe` count the
-- puts on their way, so that the former is a put and its delivery in two steps that follow at once.
pub mod Safety
pub mod Progress
pub mod Measure
pub mod Completion
use open_shmem_csci.Base.{
  assign, ℕ, ◌+◌, ◌-◌, ◌≤◌, ◌<◌, ◌≡◌, ◌≢◌, Bool, true, false, ltb, ◌==◌, if◌then◌else◌,
}

-- where PE 0 is: not in the barrier, in the first loop, or in the second, at the counter `i`
pub data RootPhase : Type 0 where
  outside : RootPhase
  collecting : (i : ℕ) → RootPhase
  releasing : (i : ℕ) → RootPhase

-- `root_sync i` is `__pSync[i]` of PE 0, and `own_sync i` is `__pSync[i]` of PE `i`. A PE other than
-- 0 that is inside waits in its `while` loop. `arrived` and `left` count the calls and the returns.
pub record System : Type 0 where
  pub root : RootPhase
  pub inside : ℕ → Bool
  pub root_sync : ℕ → ℕ
  pub own_sync : ℕ → ℕ
  pub to_root : ℕ → ℕ
  pub to_pe : ℕ → ℕ
  pub arrived : ℕ → ℕ
  pub left : ℕ → ℕ

-- after `comm_wireup`, which clears `__pSync`
unfoldable pub start : System
start = record {
  root = outside;
  inside = λ i. false;
  root_sync = λ i. 0;
  own_sync = λ i. 0;
  to_root = λ i. 0;
  to_pe = λ i. 0;
  arrived = λ i. 0;
  left = λ i. 0;
}

-- the call and the return of PE 0
unfoldable pub root_enter : System → System
root_enter s = record s { root = collecting 1; arrived = assign s.arrived 0 (s.arrived 0 + 1) }

-- a round of the first loop at `i`, once `__pSync[i]` is not 0
unfoldable pub root_collect : ℕ → System → System
root_collect i s = record s { root = collecting (i + 1); root_sync = assign s.root_sync i 0 }

unfoldable pub root_collected : System → System
root_collected s = record s { root = releasing 1 }

-- a round of the second loop at `i`: the put to PE `i`
unfoldable pub root_release : ℕ → System → System
root_release i s = record s { root = releasing (i + 1); to_pe = assign s.to_pe i (s.to_pe i + 1) }

unfoldable pub root_leave : System → System
root_leave s = record s { root = outside; left = assign s.left 0 (s.left 0 + 1) }

-- the call of PE `i` with its put to PE 0
unfoldable pub pe_enter : ℕ → System → System
pe_enter i s = record s {
  inside = assign s.inside i true;
  to_root = assign s.to_root i (s.to_root i + 1);
  arrived = assign s.arrived i (s.arrived i + 1);
}

-- PE `i` finds its element set, resets it and returns
unfoldable pub pe_leave : ℕ → System → System
pe_leave i s = record s {
  inside = assign s.inside i false;
  own_sync = assign s.own_sync i 0;
  left = assign s.left i (s.left i + 1);
}

-- the two deliveries write the value 1
unfoldable pub deliver_root : ℕ → System → System
deliver_root i s = record s {
  to_root = assign s.to_root i (s.to_root i - 1);
  root_sync = assign s.root_sync i 1;
}

unfoldable pub deliver_pe : ℕ → System → System
deliver_pe i s = record s {
  to_pe = assign s.to_pe i (s.to_pe i - 1);
  own_sync = assign s.own_sync i 1;
}

-- one step of one PE or of the network, among `n` PEs
pub data Step (n : ℕ) : System → System → Type 0 where
  enter_root : {s : System} → s.root ≡ outside → Step n s (root_enter s)
  collect :
      {s : System} (i : ℕ)
      → s.root ≡ collecting i
      → i < n
      → s.root_sync i ≢ 0
      → Step n s (root_collect i s)
  collected : {s : System} (i : ℕ) → s.root ≡ collecting i → n ≤ i → Step n s (root_collected s)
  release : {s : System} (i : ℕ) → s.root ≡ releasing i → i < n → Step n s (root_release i s)
  leave_root : {s : System} (i : ℕ) → s.root ≡ releasing i → n ≤ i → Step n s (root_leave s)
  enter_pe : {s : System} (i : ℕ) → 0 < i → i < n → s.inside i ≡ false → Step n s (pe_enter i s)
  leave_pe :
      {s : System} (i : ℕ)
      → 0 < i
      → i < n
      → s.inside i ≡ true
      → s.own_sync i ≢ 0
      → Step n s (pe_leave i s)
  arrive_root : {s : System} (i : ℕ) → 0 < i → i < n → s.to_root i ≢ 0 → Step n s (deliver_root i s)
  arrive_pe : {s : System} (i : ℕ) → 0 < i → i < n → s.to_pe i ≢ 0 → Step n s (deliver_pe i s)

pub data Reach (n : ℕ) : System → Type 0 where
  here : Reach n start
  next : {s t : System} → Reach n s → Step n s t → Reach n t
