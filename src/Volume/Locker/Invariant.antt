-- ===== src/Volume/Locker/Invariant.antt =====
-- What holds of the manager and the goroutines between two steps.
use baggageclaim.Prelude.{
  ℕ, ◌+◌, ◌-◌, ◌<◌, ◌≤◌, String, ◌≡◌, ◌≢◌, refl, Bool, true, false, none, some, nat_eq, eq_iff,
  arith,
}
use baggageclaim.Prelude.Table.{get, delete, get-put, get-delete}
use baggageclaim.Volume.Locker.Count.{update, bit, count, count-update, count-two, count-none}
use baggageclaim.Volume.Locker.Defs.{Manager, Pc, idle, waiting, holding, leaving, panicked, join}

-- the goroutine counts in `entry.count`
abbrev pub claims : ℕ → Pc → Bool
claims e (waiting k x) = nat_eq x e
claims e (holding k x) = nat_eq x e
claims e _ = false

-- its value is in the channel of the entry
abbrev pub owns : ℕ → Pc → Bool
owns e (holding k x) = nat_eq x e
owns e (leaving x) = nat_eq x e
owns e _ = false

-- what a goroutine knows of the map
abbrev pub Knows : Manager → Pc → Type 0
Knows m idle = Unit
Knows m (waiting k e) = get k m.locks ≡ some e
Knows m (holding k e) = get k m.locks ≡ some e
Knows m (leaving e) = e < m.next
Knows m panicked = ⊥

pub record Inv (n : ℕ) (m : Manager) (pc : ℕ → Pc) : Type 0 where
  pub known : (i : ℕ) → Knows m (pc i)
  pub outside : (i : ℕ) → n ≤ i → pc i ≡ idle
  pub allotted : (k : String) (e : ℕ) → get k m.locks ≡ some e → e < m.next
  pub distinct : (j k : String) (e : ℕ) → get j m.locks ≡ some e → get k m.locks ≡ some e → j ≡ k
  pub counted : (k : String) (e : ℕ) → get k m.locks ≡ some e → m.count e ≡ count (claims e) n pc
  pub wanted : (k : String) (e : ℕ) → get k m.locks ≡ some e → 1 ≤ m.count e
  pub channel : (e : ℕ) → bit (m.full e) ≡ count (owns e) n pc

module _ {n : ℕ} {m : Manager} {pc : ℕ → Pc} (inv : Inv n m pc) (i : ℕ) (lt : i < n) where
  -- `Lock` of a key that has an entry
  pub join-Inv :
      (k : String) (e : ℕ)
      → pc i ≡ idle
      → get k m.locks ≡ some e
      → Inv n (record m { count = update m.count e (m.count e + 1) }) (update pc i (waiting k e))
  join-Inv k e at found = record {
    known = λ j. ground (arith, inv.known j);
    outside = λ j h. ground (arith, inv.outside j);
    allotted = inv.allotted;
    distinct = inv.distinct;
    counted = λ k' e' h.
        ground (arith, inv.counted k' e' h, count-update (claims e') n pc i (waiting k e) lt);
    wanted = λ k' e' h. ground (arith, inv.wanted k' e' h);
    channel = λ e'. ground (arith, inv.channel e', count-update (owns e') n pc i (waiting k e) lt);
  }

  -- the send on the channel
  pub send-Inv :
      (k : String) (e : ℕ)
      → pc i ≡ waiting k e
      → m.full e ≡ false
      → Inv n (record m { full = update m.full e true }) (update pc i (holding k e))
  send-Inv k e at empty = record {
    known = λ j. ground (arith, inv.known j, inv.known i);
    outside = λ j h. ground (arith, inv.outside j);
    allotted = inv.allotted;
    distinct = inv.distinct;
    counted = λ k' e' h.
        ground (arith, inv.counted k' e' h, count-update (claims e') n pc i (holding k e) lt);
    wanted = inv.wanted;
    channel = λ e'.
        ground
          (arith, inv.channel e', inv.channel e, count-update (owns e') n pc i (holding k e) lt);
  }

  -- the receive from the channel
  pub receive-Inv :
      (e : ℕ)
      → pc i ≡ leaving e
      → m.full e ≡ true
      → Inv n (record m { full = update m.full e false }) (update pc i idle)
  receive-Inv e at full = record {
    known = λ j. ground (arith, inv.known j);
    outside = λ j h. ground (arith, inv.outside j);
    allotted = inv.allotted;
    distinct = inv.distinct;
    counted =
        λ k' e' h. ground (arith, inv.counted k' e' h, count-update (claims e') n pc i idle lt);
    wanted = inv.wanted;
    channel =
        λ e'. ground (arith, inv.channel e', inv.channel e, count-update (owns e') n pc i idle lt);
  }

  claims_next : (p : Pc) → Knows m p → claims m.next p ≡ false
  claims_next idle h = refl
  claims_next (waiting k e) h = ground (arith, inv.allotted k e h)
  claims_next (holding k e) h = ground (arith, inv.allotted k e h)
  claims_next (leaving e) h = refl
  claims_next panicked h = refl

  owns_next : (p : Pc) → Knows m p → owns m.next p ≡ false
  owns_next idle h = refl
  owns_next (waiting k e) h = refl
  owns_next (holding k e) h = ground (arith, inv.allotted k e h)
  owns_next (leaving e) h = ground arith
  owns_next panicked h = refl

  -- `Lock` of a key that has none
  module _ (k : String) (at : pc i ≡ idle) (absent : get k m.locks ≡ none) where
    abbrev made : Manager
    made = (join m k none).0

    Knows-made : (p : Pc) → Knows m p → Knows made p
    Knows-made idle h = tt
    Knows-made (waiting j e) h = ground (arith, get-put j k m.next m.locks, eq_iff k j)
    Knows-made (holding j e) h = ground (arith, get-put j k m.next m.locks, eq_iff k j)
    Knows-made (leaving e) h = omega arith
    Knows-made panicked h = h

    pub make-Inv : Inv n made (update pc i (waiting k m.next))
    make-Inv = record {
      known = λ j.
          ground (arith, Knows-made (pc j) (inv.known j), get-put k k m.next m.locks, eq_iff k k);
      outside = λ j h. ground (arith, inv.outside j);
      allotted = λ j e h. ground (arith, get-put j k m.next m.locks, inv.allotted j e);
      distinct = λ j j' e h h'. ground (
        arith,
        get-put j k m.next m.locks,
        get-put j' k m.next m.locks,
        eq_iff k j,
        eq_iff k j',
        inv.allotted j e,
        inv.allotted j' e,
        inv.distinct j j' e,
      );
      counted = λ j e h. ground (
        arith,
        get-put j k m.next m.locks,
        inv.allotted j e,
        inv.counted j e,
        count-none (claims m.next) n pc (λ x. claims_next (pc x) (inv.known x)),
        count-update (claims e) n pc i (waiting k m.next) lt,
      );
      wanted = λ j e h. ground (arith, get-put j k m.next m.locks, inv.wanted j e);
      channel = λ e. ground (
        arith,
        inv.channel e,
        count-none (owns m.next) n pc (λ x. owns_next (pc x) (inv.known x)),
        count-update (owns e) n pc i (waiting k m.next) lt,
      );
    }

  -- `Unlock`
  module _ (k : String) (e : ℕ) (at : pc i ≡ holding k e) (found : get k m.locks ≡ some e) where
    -- while others want the key
    pub drop-Inv :
        (nat_eq (m.count e - 1) 0 ≡ false)
        → Inv n (record m { count = update m.count e (m.count e - 1) }) (update pc i (leaving e))
    drop-Inv more = record {
      known = λ j. ground (arith, inv.known j, inv.allotted k e);
      outside = λ j h. ground (arith, inv.outside j);
      allotted = inv.allotted;
      distinct = inv.distinct;
      counted = λ k' e' h.
          ground (arith, inv.counted k' e' h, count-update (claims e') n pc i (leaving e) lt);
      wanted = λ k' e' h. ground (arith, inv.wanted k' e' h, inv.wanted k e);
      channel = λ e'. ground (arith, inv.channel e', count-update (owns e') n pc i (leaving e) lt);
    }

    abbrev cleared : Manager
    cleared = record m { count = update m.count e (m.count e - 1); locks = delete k m.locks }

    -- When nobody else wants the key, no other goroutine has its entry.
    claims_inside : (j : ℕ) → claims e (pc j) ≡ true → j < n
    claims_inside j it = ground (arith, inv.outside j)

    claims_mine : claims e (pc i) ≡ true
    claims_mine = ground arith

    claims_other : (j : ℕ) → nat_eq (m.count e - 1) 0 ≡ true → i ≢ j → claims e (pc j) ≡ true → ⊥
    claims_other j one ne it = ground (
      arith,
      count-two (claims e) n pc i j lt (claims_inside j it) ne claims_mine it,
      inv.counted k e found,
      inv.wanted k e found,
    )

    Knows-cleared :
        (j : ℕ) (p : Pc)
        → pc j ≡ p
        → i ≢ j
        → nat_eq (m.count e - 1) 0 ≡ true
        → Knows m p
        → Knows cleared p
    Knows-cleared j idle h ne one kn = tt
    Knows-cleared j (waiting l x) h ne one kn =
        ground (arith, get-delete l k m.locks, eq_iff k l, claims_other j one ne)
    Knows-cleared j (holding l x) h ne one kn =
        ground (arith, get-delete l k m.locks, eq_iff k l, claims_other j one ne)
    Knows-cleared j (leaving x) h ne one kn = kn
    Knows-cleared j panicked h ne one kn = kn

    -- when nobody else wants it
    pub clear-Inv : (nat_eq (m.count e - 1) 0 ≡ true) → Inv n cleared (update pc i (leaving e))
    clear-Inv one = record {
      known = λ j. ground (arith, Knows-cleared j (pc j) refl, inv.known j, inv.allotted k e);
      outside = λ j h. ground (arith, inv.outside j);
      allotted = λ j x h. ground (arith, get-delete j k m.locks, inv.allotted j x);
      distinct = λ j j' x h h'.
          ground (arith, get-delete j k m.locks, get-delete j' k m.locks, inv.distinct j j' x);
      counted = λ j x h. ground (
        arith,
        get-delete j k m.locks,
        eq_iff k j,
        inv.distinct j k x,
        inv.counted j x,
        count-update (claims x) n pc i (leaving e) lt,
      );
      wanted = λ j x h.
          ground (arith, get-delete j k m.locks, eq_iff k j, inv.distinct j k x, inv.wanted j x);
      channel = λ x. ground (arith, inv.channel x, count-update (owns x) n pc i (leaving e) lt);
    }
