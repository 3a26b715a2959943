-- ===== src/Volume/Locker/Defs.antt =====
-- The manager, the two mutex sections, and goroutines that lock and unlock in any interleaving.
use baggageclaim.Prelude.{
  ℕ, ◌+◌, ◌-◌, ◌<◌, String, ◌≡◌, Bool, true, false, Option, none, some, [], nat_eq, if◌then◌else◌,
}
use baggageclaim.Prelude.Table.{Table, get, put, delete}
use baggageclaim.Volume.Locker.Count.{update}

-- `lockManager`; an entry is a pointer, so its count and its channel stand apart from the map. The
-- channel has room for one: it is full or not.
pub record Manager : Type 0 where
  pub locks : Table ℕ
  pub count : ℕ → ℕ
  pub full : ℕ → Bool
  pub next : ℕ  -- the pointers below this one have been handed out

-- Where a goroutine stands.
pub data Pc : Type 0 where
  idle : Pc
  waiting : (key : String) → (entry : ℕ) → Pc  -- in `Lock`, before the send
  holding : (key : String) → (entry : ℕ) → Pc  -- between `Lock` and `Unlock`
  leaving : (entry : ℕ) → Pc  -- in `Unlock`, before the receive
  panicked : Pc  -- `Unlock` of a key that has no entry

pub data Event : Type 0 where
  lock : String → Event
  send : Event
  unlock : Event
  receive : Event

-- the part of `Lock` under the mutex, and the entry that it finds or makes
abbrev pub join : Manager → String → Option ℕ → Manager × ℕ
join m k (some e) = (record m { count = update m.count e (m.count e + 1) }, e)
join m k none = (
  record {
    locks = put k m.next m.locks;
    count = update m.count m.next 1;
    full = update m.full m.next false;
    next = m.next + 1;
  },
  m.next,
)

unfoldable pub lock_entry : Manager → String → Manager × ℕ
lock_entry m k = join m k (get k m.locks)

-- the part of `Unlock` under the mutex; none where it panics
abbrev pub part : Manager → String → Option ℕ → Option (Manager × ℕ)
part m k none = none
part m k (some e) = some (
  record m {
    count = update m.count e (m.count e - 1);
    locks = if nat_eq (m.count e - 1) 0 then delete k m.locks else m.locks;
  },
  e,
)

unfoldable pub unlock_entry : Manager → String → Option (Manager × ℕ)
unlock_entry m k = part m k (get k m.locks)

-- where `Unlock` goes on
abbrev pub left : Manager → Option (Manager × ℕ) → Manager × Pc
left m none = (m, panicked)
left m (some (m', e)) = (m', leaving e)

-- One step of a goroutine; none where it is not its turn, or where the channel makes it wait.
unfoldable pub step : Manager → Pc → Event → Option (Manager × Pc)
unfolding lock_entry unlock_entry
step m idle (lock k) = let (m', e) = lock_entry m k in some (m', waiting k e)
step m (waiting k e) send =
    if m.full e then none else some (record m { full = update m.full e true }, holding k e)
step m (holding k e) unlock = some (left m (unlock_entry m k))
step m (leaving e) receive =
    if m.full e then some (record m { full = update m.full e false }, idle) else none
step m _ _ = none

pub record System : Type 0 where
  pub manager : Manager
  pub pc : ℕ → Pc

abbrev pub init_manager : Manager
init_manager = record { locks = []; count = λ _. 0; full = λ _. false; next = 0 }

abbrev pub start : System
start = record { manager = init_manager; pc = λ _. idle }

-- One of the `n` goroutines makes a step. The others stay where they are.
pub data Step (n : ℕ) (s t : System) : Type 0 where
  move :
      (i : ℕ) (ev : Event) (m : Manager) (p : Pc)
      → i < n
      → step s.manager (s.pc i) ev ≡ some (m, p)
      → t ≡ record { manager = m; pc = update s.pc i p }
      → Step n s t

pub data Reach (n : ℕ) : System → Type 0 where
  here : Reach n start
  next : {s t : System} → Reach n s → Step n s t → Reach n t
