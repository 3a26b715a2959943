-- ===== src/Volume/Driver/Overlay/Root.antt =====
-- The loop of findRootParent that goes from parent to parent.
use baggageclaim.Prelude.{
  ℕ, zero, suc, ◌+◌, ◌<◌, ◌≤◌, String, ◌≡◌, ◌≢◌, refl, sym, ◌∙◌, subst, Option, none, some, arith,
}
use baggageclaim.Disk.World.{World, live, BaseVolume, node}
use baggageclaim.Disk.Action.{
  stack_overflow, Result, ok, err, Action, pure, raise, continue, bind-ok, ◌>>=◌,
}
use baggageclaim.Disk.Frame.{Places, Keeps, Keeps-bind, frame_rules}
use baggageclaim.Volume.Filesystem.{volume_at, parent}
use baggageclaim.Volume.Filesystem.Frame.{parent-Keeps}
use baggageclaim.Volume.Repository.Descendants.Pruned.{
  HasParent, Below, Below-mono, Pruned-Keeps, parent_ok,
}
use baggageclaim.Volume.Repository.Descendants.Fuel.{Ranked, continue_same}
use baggageclaim.Volume.Driver.Overlay.Parents.{
  HasParent-parent, parent_live, parent_none, parent_errors,
}

abbrev pub climb_on :
    (BaseVolume → Action BaseVolume) → BaseVolume → Option BaseVolume → Action BaseVolume
climb_on again v none = pure v
climb_on again v (some u) = again u

-- One unit of fuel for each volume; links that go round would keep the loop going.
unfoldable pub climb : ℕ → BaseVolume → Action BaseVolume
climb zero v = raise stack_overflow
climb (suc n) v = let again = climb n in do u ← parent v; climb_on again v u

module _ (rank : String → ℕ) (h : String) (w : World) (ranked : Ranked rank w)
    (f g : BaseVolume → Action BaseVolume)
    (same : (k : String) (u : World)
      → Ranked rank u
      → rank h < rank k
      → f (volume_at live k) u ≡ g (volume_at live k) u) where
  climb_on_same :
      (u : Option BaseVolume)
      → (parent (volume_at live h) w).0 ≡ ok u
      → climb_on f (volume_at live h) u (parent (volume_at live h) w).1
        ≡ climb_on g (volume_at live h) u (parent (volume_at live h) w).1
  climb_on_same none found = refl
  climb_on_same (some u) found =
      let after = (parent (volume_at live h) w).1 in
      subst (λ (v : BaseVolume). f v after ≡ g v after)
        (sym (parent_live (volume_at live h) w found))
        (same u.handle after
          (λ c p link. ranked c p (HasParent-parent (volume_at live h) w c p link))
          (ranked h u.handle (parent_ok h w found)))

module _ (rank : String → ℕ) (h : String) (w : World) (ranked : Ranked rank w)
    (f : BaseVolume → Action BaseVolume)
    (ends : (k : String) (u : World)
      → Ranked rank u
      → rank h < rank k
      → (f (volume_at live k) u).0 ≢ err stack_overflow) where
  climb_on_ends :
      (r : Result (Option BaseVolume))
      → (parent (volume_at live h) w).0 ≡ r
      → (continue (climb_on f (volume_at live h)) r (parent (volume_at live h) w).1).0
        ≢ err stack_overflow
  climb_on_ends (ok none) found e = cc e
  climb_on_ends (err x) found e = parent_errors (volume_at live h) w (cc (found, e))
  climb_on_ends (ok (some u)) found e =
      let after = (parent (volume_at live h) w).1 in
      ends u.handle after (λ c p link. ranked c p (HasParent-parent (volume_at live h) w c p link))
        (ranked h u.handle (parent_ok h w found))
        (subst (λ (v : BaseVolume). (f v after).0 ≡ err stack_overflow)
          (parent_live (volume_at live h) w found) e)

module _ (rank : String → ℕ) (top : ℕ) (bounded : (k : String) → rank k < top) where
  climb_ends :
      (n : ℕ) (h : String) (w : World)
      → Ranked rank w
      → top ≤ n + rank h
      → (climb n (volume_at live h) w).0 ≢ err stack_overflow
  unfolding climb
  climb_ends zero h w ranked ln = let lt = bounded h in absurd (omega arith)
  climb_ends (suc n) h w ranked ln =
      climb_on_ends rank h w ranked (climb n) (λ k u still lt. climb_ends n k u still (omega arith))
        (parent (volume_at live h) w).0 refl

  climb_same :
      (n m : ℕ) (h : String) (w : World)
      → Ranked rank w
      → top ≤ n + rank h
      → top ≤ m + rank h
      → climb n (volume_at live h) w ≡ climb m (volume_at live h) w
  unfolding climb
  climb_same zero m h w ranked ln lm = let lt = bounded h in absurd (omega arith)
  climb_same (suc n) zero h w ranked ln lm = let lt = bounded h in absurd (omega arith)
  climb_same (suc n) (suc m) h w ranked ln lm =
      continue_same _ _ (parent (volume_at live h) w).0 (parent (volume_at live h) w).1 (
        climb_on_same rank h w ranked (climb n) (climb m)
          (λ k u still lt. climb_same n m k u still (omega arith) (omega arith)))

  -- Where the links go up in rank, and every rank is below some bound, the loop ends: with a fuel that
  -- reaches from the rank of the volume to the bound it does not run out, and any two such fuels give
  -- the same result and the same world.
  pub climb_fuel :
      (n m : ℕ) (h : String) (w : World)
      → Ranked rank w
      → top ≤ n + rank h
      → top ≤ m + rank h
      → ((climb n (volume_at live h) w).0 ≢ err stack_overflow)
        × (climb n (volume_at live h) w ≡ climb m (volume_at live h) w)
  climb_fuel n m h w ranked ln lm = (climb_ends n h w ranked ln, climb_same n m h w ranked ln lm)

-- no ancestor of a volume is there: it has no link, or one to a volume that is gone
abbrev pub IsRoot : World → String → Type 0
IsRoot w h = (p : String) → HasParent w h p → node live p w ≡ none

module _ (h : String) (w : World) (root : BaseVolume) (f : BaseVolume → Action BaseVolume)
    (rest : (k : String) (u : World)
      → (f (volume_at live k) u).0 ≡ ok root
      → Below u root.handle k × IsRoot u root.handle) where
  climb_on-IsRoot :
      (u : Option BaseVolume)
      → (parent (volume_at live h) w).0 ≡ ok u
      → (climb_on f (volume_at live h) u (parent (volume_at live h) w).1).0 ≡ ok root
      → Below w root.handle h × IsRoot w root.handle
  climb_on-IsRoot none found done =
      let same : volume_at live h ≡ root = cc done in
      subst (λ (v : BaseVolume). Below w v.handle h × IsRoot w v.handle) same
        (Below.self, λ p link. parent_none h p w found link)
  climb_on-IsRoot (some u) found done =
      let after = (parent (volume_at live h) w).1 in
      let (below, above) = rest u.handle after (
        subst (λ (v : BaseVolume). (f v after).0 ≡ ok root) (parent_live (volume_at live h) w found)
          done) in
      (
        Below.child
            (Below-mono
              (Pruned-Keeps {R = λ k. ⊥} (parent (volume_at live h)) w
                (parent-Keeps (volume_at live h)))
              below)
            (parent_ok h w found),
        λ p (d, at, up). sym (kept p) ∙ above p (d, kept root.handle ∙ at, up),
      )
    where
      kept : (k : String) → node live k (parent (volume_at live h) w).1 ≡ node live k w
      kept k = ((parent-Keeps {P = λ s k. Unit} (volume_at live h)).at w).nodes live k tt

-- What the loop returns is the volume itself or an ancestor of it, and no parent of that one is
-- there: it has no link, or one to a volume that is gone.
pub climb-IsRoot :
    (n : ℕ) (h : String) (w : World) (root : BaseVolume)
    → (climb n (volume_at live h) w).0 ≡ ok root
    → Below w root.handle h × IsRoot w root.handle
unfolding climb
climb-IsRoot zero h w root done = absurd (cc done)
climb-IsRoot (suc n) h w root done =
    let (u, found, ended, e) =
      bind-ok (parent (volume_at live h)) (climb_on (climb n) (volume_at live h)) w done in
    climb_on-IsRoot h w root (climb n) (λ k u. climb-IsRoot n k u root) u found ended

climb_on-Keeps :
    {P : Places} (f : BaseVolume → Action BaseVolume) (v : BaseVolume)
    → ((u : BaseVolume) → Keeps P (f u))
    → (o : Option BaseVolume) → Keeps P (climb_on f v o)
climb_on-Keeps f v keeps none = search frame_rules
climb_on-Keeps f v keeps (some u) = keeps u

pub climb-Keeps : {P : Places} (n : ℕ) (v : BaseVolume) → Keeps P (climb n v)
unfolding climb
climb-Keeps zero v = search frame_rules
climb-Keeps (suc n) v =
    Keeps-bind (parent v) (climb_on (climb n) v) (parent-Keeps v)
      (climb_on-Keeps (climb n) v (climb-Keeps n))
