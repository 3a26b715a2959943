-- ===== src/Volume/Locker/Safety.antt =====
-- volume/locker.go: what holds of the goroutines that lock and unlock.
use baggageclaim.Prelude.{
  ℕ, ◌-◌, ◌<◌, String, ◌≡◌, ◌≢◌, refl, true, false, Option, none, some, nat_eq, arith, sym, subst,
  Bool-cases, Option-cases, inl, inr,
}
use baggageclaim.Prelude.Table.{get}
use baggageclaim.Volume.Locker.Count.{update, count-two, count-find, count-pos, count-none}
use baggageclaim.Volume.Locker.Defs.{
  Manager, Pc, idle, waiting, holding, leaving, panicked, Event, lock, send, unlock, receive, join,
  part, lock_entry, unlock_entry, left, step, System, move, Reach, here, next, init_manager,
}
use baggageclaim.Volume.Locker.Invariant.{
  claims, owns, Knows, Inv, join-Inv, send-Inv, receive-Inv, make-Inv, drop-Inv, clear-Inv,
}

-- the invariant of the goroutines when the `i`th has moved to `a.1` and has left the manager at `a.0`
abbrev Moved : ℕ → (ℕ → Pc) → ℕ → Manager × Pc → Type 0
Moved n pc i a = Inv n a.0 (update pc i a.1)

moved :
    {n : ℕ} (pc : ℕ → Pc) (i : ℕ) {a b : Manager × Pc}
    → Moved n pc i a
    → some a ≡ some b
    → Moved n pc i b
moved {n} pc i inv h = subst (Moved n pc i) (cc h) inv

module _ {n : ℕ} {m : Manager} {pc : ℕ → Pc} (inv : Inv n m pc) (i : ℕ) (lt : i < n) where
  lock-Inv :
      (k : String) (o : Option ℕ)
      → pc i ≡ idle
      → get k m.locks ≡ o
      → Moved n pc i ((join m k o).0, waiting k (join m k o).1)
  lock-Inv k (some e) at found = join-Inv inv i lt k e at found
  lock-Inv k none at absent = make-Inv inv i lt k at absent

  unlock-Inv :
      (k : String) (e : ℕ)
      → pc i ≡ holding k e
      → (o : Option ℕ) → get k m.locks ≡ o
      → get k m.locks ≡ some e
      → Moved n pc i (left m (part m k o))
  unlock-Inv k e at none f found = absurd (cc (f, found))
  unlock-Inv k e at (some x) f found = elim (Bool-cases (nat_eq (m.count x - 1) 0)) [
    | inl one ↦ rw one (clear-Inv inv i lt k x (cc (at, f, found)) f one)
    | inr more ↦ rw more (drop-Inv inv i lt k x (cc (at, f, found)) f more)
  ]

  step-Inv :
      (p : Pc) (ev : Event) (m' : Manager) (p' : Pc)
      → pc i ≡ p
      → step m p ev ≡ some (m', p')
      → Moved n pc i (m', p')
  unfolding step lock_entry unlock_entry
  step-Inv idle (lock k) m' p' at h = moved pc i (lock-Inv k (get k m.locks) at refl) h
  step-Inv (waiting k e) send m' p' at h = elim (Bool-cases (m.full e)) [
    | inl full ↦ absurd (grind arith)
    | inr empty ↦ moved pc i (send-Inv inv i lt k e at empty) (grind arith)
  ]
  step-Inv (holding k e) unlock m' p' at h =
      moved pc i (unlock-Inv k e at (get k m.locks) refl (subst (Knows m) at (inv.known i))) h
  step-Inv (leaving e) receive m' p' at h = elim (Bool-cases (m.full e)) [
    | inl full ↦ moved pc i (receive-Inv inv i lt e at full) (grind arith)
    | inr empty ↦ absurd (grind arith)
  ]
  step-Inv _ _ m' p' at h = absurd (cc h)

start-Inv : (n : ℕ) → Inv n init_manager (λ _. idle)
unfolding get
start-Inv n = record {
  known = λ j. tt;
  outside = λ j h. refl;
  allotted = λ k e h. absurd (cc h);
  distinct = λ j k e h h'. absurd (cc h);
  counted = λ k e h. absurd (cc h);
  wanted = λ k e h. absurd (cc h);
  channel = λ e. sym (count-none (owns e) n (λ _. idle) (λ _. refl));
}

pub Reach-Inv : {n : ℕ} {s : System} → Reach n s → Inv n s.manager s.pc
Reach-Inv {n} here = start-Inv n
Reach-Inv (next r (move i ev m p lt h e)) = rw e (step-Inv (Reach-Inv r) i lt _ ev m p refl h)

knows_holding :
    {n : ℕ} {s : System} {k : String} {e : ℕ} (r : Reach n s) (i : ℕ)
    → s.pc i ≡ holding k e
    → get k s.manager.locks ≡ some e
knows_holding {s = s} r i h = subst (Knows s.manager) h ((Reach-Inv r).known i)

-- In every state that `n` goroutines reach by locking and unlocking in any interleaving, while one of
-- them stands between `Lock` and `Unlock` of a key, no other one stands between `Lock` and `Unlock` of
-- the same key.
pub mutual_exclusion :
    {n : ℕ} {s : System} (i j : ℕ) (k : String) (d e : ℕ)
    → Reach n s
    → i ≢ j
    → s.pc i ≡ holding k d
    → s.pc j ≢ holding k e
mutual_exclusion {n} {s} i j k d e r other hi hj =
    let inv = Reach-Inv r in
    ground (
      arith,
      knows_holding r i hi,
      knows_holding r j hj,
      inv.channel d,
      inv.outside i,
      inv.outside j,
      count-two (owns d) n s.pc i j,
    )

-- No goroutine that locks and unlocks ever panics in `Unlock`.
pub unlock_never_panics : {n : ℕ} {s : System} (i : ℕ) → Reach n s → s.pc i ≢ panicked
unlock_never_panics {s = s} i r h = subst (Knows s.manager) h ((Reach-Inv r).known i)

claims_none :
    {n : ℕ} {s : System} (r : Reach n s) (k : String) (e : ℕ)
    → get k s.manager.locks ≡ some e
    → (p : Pc) → Knows s.manager p
    → (p ≢ waiting k e) × (p ≢ holding k e)
    → claims e p ≡ false
claims_none r k e found idle kn h = refl
claims_none r k e found (waiting l x) kn h = ground (arith, (Reach-Inv r).distinct l k e, h.0)
claims_none r k e found (holding l x) kn h = ground (arith, (Reach-Inv r).distinct l k e, h.1)
claims_none r k e found (leaving x) kn h = refl
claims_none r k e found panicked kn h = refl

-- When no goroutine waits for a key or holds it, the map has no entry for it: no entry leaks.
pub idle-no_entries :
    {n : ℕ} {s : System} (k : String)
    → Reach n s
    → ((i : ℕ) (e : ℕ) → (s.pc i ≢ waiting k e) × (s.pc i ≢ holding k e))
    → get k s.manager.locks ≡ none
idle-no_entries {n} {s} k r h = elim (Option-cases (get k s.manager.locks)) [
  | inl absent ↦ absent
  | inr (e, found) ↦
      let inv = Reach-Inv r in
      absurd (
        ground (
          arith,
          inv.counted k e found,
          inv.wanted k e found,
          count-none (claims e) n s.pc
              (λ i. claims_none r k e found (s.pc i) (inv.known i) (h i e)),
        ))
]

-- the goroutine has a step to make now
abbrev pub CanStep : Manager → Pc → Type 0
CanStep m p = (ev : Event) × (m' : Manager) × (p' : Pc) × (step m p ev ≡ some (m', p'))

-- Whoever has a value in the channel of an entry has a step to make: it unlocks, or its receive does not
-- wait.
owner-CanStep :
    {n : ℕ} {s : System} (r : Reach n s) (i : ℕ) (e : ℕ) (p : Pc)
    → s.pc i ≡ p
    → i < n
    → owns e p ≡ true
    → CanStep s.manager p
unfolding step
owner-CanStep r i e (holding k x) at lt o = (unlock, _, _, refl)
owner-CanStep {n} {s} r i e (leaving x) at lt o =
    let full : s.manager.full x ≡ true =
      ground (arith, (Reach-Inv r).channel x, count-pos (owns x) n s.pc i lt) in
    (receive, record (s.manager) { full = update s.manager.full x false }, idle, rw full)
owner-CanStep r i e _ at lt o = absurd (cc o)

anyone-CanStep :
    {n : ℕ} {s : System} (r : Reach n s) (i : ℕ) (p : Pc)
    → s.pc i ≡ p
    → i < n
    → p ≢ idle
    → (j : ℕ) × (j < n) × CanStep s.manager (s.pc j)
unfolding step lock_entry unlock_entry
anyone-CanStep r i idle at lt busy = absurd (busy refl)
anyone-CanStep {n} {s} r i (waiting k e) at lt busy = elim (Bool-cases (s.manager.full e)) [
  | inl full ↦
      let (j, below, o) = count-find (owns e) n s.pc (ground (arith, (Reach-Inv r).channel e)) in
      (j, below, owner-CanStep r j e (s.pc j) refl below o)
  | inr empty ↦ (
    i,
    lt,
    subst (CanStep s.manager) (sym at)
        (send, record (s.manager) { full = update s.manager.full e true }, holding k e, rw empty),
  )
]
anyone-CanStep {s = s} r i (holding k e) at lt busy = (
  i,
  lt,
  subst (CanStep s.manager) (sym at) (owner-CanStep r i e (holding k e) at lt (ground arith)),
)
anyone-CanStep {s = s} r i (leaving e) at lt busy = (
  i,
  lt,
  subst (CanStep s.manager) (sym at) (owner-CanStep r i e (leaving e) at lt (ground arith)),
)
anyone-CanStep r i panicked at lt busy = absurd (unlock_never_panics i r at)

-- Nobody waits for ever while all stand still: in a state that `n` goroutines reach, when one of them
-- is not idle, one of them has a step to make.
pub no_deadlock :
    {n : ℕ} {s : System} (i : ℕ)
    → Reach n s
    → s.pc i ≢ idle
    → (j : ℕ) × (j < n) × CanStep s.manager (s.pc j)
no_deadlock i r busy = anyone-CanStep r i _ refl (ground (arith, (Reach-Inv r).outside i)) busy
