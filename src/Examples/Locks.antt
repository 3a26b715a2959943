-- ===== src/Examples/Locks.antt =====
-- Two goroutines that want the same key.
use baggageclaim.Prelude.{ℕ, ◌<◌, String, ◌≡◌, ◌≢◌, refl, ap, ◌==◌, Bool, true, false, none, arith}
use baggageclaim.Prelude.Table.{get, put}
use baggageclaim.Volume.Locker.Count.{update}
use baggageclaim.Volume.Locker.{
  Manager, Pc, waiting, holding, panicked, lock, send, lock_entry, step, System, move, Reach, here,
  next, init_manager, start,
}
use baggageclaim.Volume.Locker.Safety.{
  mutual_exclusion, unlock_never_panics, idle-no_entries, no_deadlock, CanStep,
}

abbrev after_lock : Manager
after_lock = (lock_entry init_manager "base").0

-- the first goroutine has joined, and then holds the key; then the second one wants it too
abbrev wanted_once : System
wanted_once = record { manager = after_lock; pc = update start.pc 0 (waiting "base" 0) }

abbrev held_manager : Manager
held_manager = record after_lock { full = update after_lock.full 0 true }

abbrev held_once : System
held_once = record { manager = held_manager; pc = update wanted_once.pc 0 (holding "base" 0) }

abbrev wanted_twice : System
wanted_twice = record {
  manager = (lock_entry held_manager "base").0;
  pc = update held_once.pc 1 (waiting "base" 0);
}

wanted_once-Reach : Reach 2 wanted_once
unfolding step lock_entry get
wanted_once-Reach =
    next here (move 0 (lock "base") after_lock (waiting "base" 0) (omega arith) refl refl)

held_once-Reach : Reach 2 held_once
unfolding step lock_entry get
held_once-Reach =
    next wanted_once-Reach (move 0 send held_manager (holding "base" 0) (omega arith) refl refl)

wanted_twice-Reach : Reach 2 wanted_twice
unfolding step lock_entry get put
wanted_twice-Reach = next held_once-Reach (
    move 1 (lock "base") (lock_entry held_manager "base").0 (waiting "base" 0) (omega arith) refl
      refl)

mutual_exclusion_example : wanted_twice.pc 1 ≢ holding "base" 0
mutual_exclusion_example = mutual_exclusion 0 1 "base" 0 0 wanted_twice-Reach (λ h. cc h) refl

unlock_never_panics_example : wanted_twice.pc 0 ≢ panicked
unlock_never_panics_example = unlock_never_panics 0 wanted_twice-Reach

no_deadlock_example : (j : ℕ) × (j < 2) × CanStep wanted_twice.manager (wanted_twice.pc j)
no_deadlock_example = no_deadlock 1 wanted_twice-Reach (λ h. cc)

abbrev wants : String → Pc → Bool
wants k (waiting j e) = j == k
wants k (holding j e) = j == k
wants k _ = false

nobody_wants : (i : ℕ) → wants "x" (wanted_twice.pc i) ≡ false
nobody_wants i = ground arith

wants-apart :
    (i : ℕ) (e : ℕ) → (wanted_twice.pc i ≢ waiting "x" e) × (wanted_twice.pc i ≢ holding "x" e)
wants-apart i e = (
  λ h. absurd (cc (nobody_wants i, ap (wants "x") h)),
  λ h. absurd (cc (nobody_wants i, ap (wants "x") h)),
)

idle-no_entries_example : get "x" wanted_twice.manager.locks ≡ none
idle-no_entries_example = idle-no_entries "x" wanted_twice-Reach wants-apart
