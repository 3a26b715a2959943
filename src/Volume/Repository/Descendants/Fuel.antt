-- ===== src/Volume/Repository/Descendants/Fuel.antt =====
-- How deep the recursion goes, and what it leaves.
use baggageclaim.Prelude.{
  ℕ, zero, suc, ◌<◌, String, ◌≡◌, refl, subst, ◌∙◌, ap, Bool, true, false, Option, none, some, List,
  [], ◌∷◌, ◌==◌, eq_iff, inl, inr, Bool-cases, arith,
}
use baggageclaim.Disk.World.{World, live, BaseVolume, node}
use baggageclaim.Disk.Action.{Result, ok, err, Action, continue, bind-ok}
use baggageclaim.Volume.Filesystem
use baggageclaim.Volume.Filesystem.{parent}
use baggageclaim.Volume.Filesystem.Frame.{IsConfined, parent-Keeps, list_volumes-Keeps}
use baggageclaim.Volume.Repository.Defs.{Repository, destroy_volume}
use baggageclaim.Volume.Repository.Destroy.{destroy_volume_visible}
use baggageclaim.Volume.Repository.Descendants.Defs.{
  has_handle, if_child, destroy_children, if_listed, destroy_volume_and_descendants,
}
use baggageclaim.Volume.Repository.Descendants.Pruned.{
  HasParent, Below, Pruned, Pruned-refl, HasParent-Pruned, Prunes-Keeps, Live, list_volumes-Ensures,
  parent_ok_at, if_child-Pruned, descend-Pruned,
}

-- The links `parent` go up: they do not go round.
abbrev pub Ranked : (String → ℕ) → World → Type 0
Ranked rank w = (c p : String) → HasParent w c p → rank c < rank p

pub continue_same :
    {A B : Type 0} (f g : A → Action B) (r : Result A) (w : World)
    → ((a : A) → r ≡ ok a → f a w ≡ g a w)
    → continue f r w ≡ continue g r w
continue_same f g (ok a) w same = same a refl
continue_same f g (err e) w same = refl

module _ (repo : Repository) (confined : IsConfined repo.driver) (rank : String → ℕ) where
  module _ (f g : String → Action Unit)
      (f-Pruned : (c : String) (w : World) → Pruned (Below w c) w (f c w).1) (h : String)
      (w : World) (ranked : Ranked rank w)
      (same : (c : String) (u : World) → Ranked rank u → rank c < rank h → f c u ≡ g c u) where
    Ranked-later : {u : World} → Pruned (Below w h) w u → Ranked rank u
    Ranked-later p c q up = ranked c q (HasParent-Pruned c q p up)

    if_child_same :
        (v : BaseVolume) (u : World)
        → Pruned (Below w h) w u
        → v.stage ≡ live
        → (r : Result (Option BaseVolume)) → (parent v u).0 ≡ r
        → if_child f h v r (parent v u).1 ≡ if_child g h v r (parent v u).1
    if_child_same v u p at (ok (some above)) e = elim (Bool-cases (above.handle == h)) [
      | inl here ↦ rw here (
          same v.handle (parent v u).1 (Ranked-later (Prunes-Keeps (parent v) (parent-Keeps v) u p))
            (ranked v.handle h (
              HasParent-Pruned v.handle h p (
                subst (HasParent u v.handle) ((eq_iff above.handle h).0 here)
                  (parent_ok_at v u at e)))))
      | inr other ↦ rw other refl
    ]
    if_child_same v u p at (ok none) e = refl
    if_child_same v u p at (err x) e = refl

    destroy_children_same :
        (vs : List BaseVolume) (u : World)
        → Live vs
        → Pruned (Below w h) w u
        → destroy_children f h vs u ≡ destroy_children g h vs u
    unfolding destroy_children
    destroy_children_same [] u all_live p = refl
    destroy_children_same (v ∷ vs) u (at, all_live) p =
        let first = if_child_same v u p at (parent v u).0 refl in
        let next = if_child-Pruned repo confined f f-Pruned h w v u p at (parent v u).0 refl in
        continue_same (λ _. destroy_children f h vs) (λ _. destroy_children g h vs) _ _
          (λ a e. destroy_children_same vs _ all_live next)
        ∙ ap (λ (r : Result Unit × World). continue (λ _. destroy_children g h vs) r.0 r.1) first

    if_listed_same :
        (vs : List BaseVolume) (b : Bool) (u : World)
        → Live vs
        → Pruned (Below w h) w u
        → if_listed repo f h vs b u ≡ if_listed repo g h vs b u
    if_listed_same vs false u all_live p = refl
    if_listed_same vs true u all_live p = rw (destroy_children_same vs u all_live p) refl

  -- Where the links of the volumes in live/ go up in rank, the recursion ends: any fuel above the rank of the handle gives
  -- the same result and the same world.
  pub destroy_descendants_fuel :
      (n m : ℕ) (h : String) (w : World)
      → Ranked rank w
      → rank h < n
      → rank h < m
      → destroy_volume_and_descendants repo n h w ≡ destroy_volume_and_descendants repo m h w
  unfolding destroy_volume_and_descendants
  destroy_descendants_fuel zero m h w ranked ln lm = absurd (omega arith)
  destroy_descendants_fuel (suc n) zero h w ranked ln lm = absurd (omega arith)
  destroy_descendants_fuel (suc n) (suc m) h w ranked ln lm =
      let listed = Filesystem.list_volumes w in
      continue_same _ _ listed.0 listed.1 (λ vs e.
        if_listed_same (destroy_volume_and_descendants repo n)
          (destroy_volume_and_descendants repo m) (descend-Pruned repo confined n) h w ranked
          (λ c u r lt. destroy_descendants_fuel n m c u r (omega arith) (omega arith)) vs
          (has_handle h vs) listed.1 (list_volumes-Ensures.of w vs e)
          (Prunes-Keeps Filesystem.list_volumes list_volumes-Keeps w (Pruned-refl w)))

module _ (repo : Repository) (confined : IsConfined repo.driver) where
  if_listed_gone :
      (destroy_it : String → Action Unit) (h : String) (vs : List BaseVolume) (b : Bool) (w : World)
      → (if_listed repo destroy_it h vs b w).0 ≡ ok tt
      → node live h (if_listed repo destroy_it h vs b w).1 ≡ none
  if_listed_gone destroy_it h vs false w done = absurd (cc done)
  if_listed_gone destroy_it h vs true w done =
      let children = destroy_children destroy_it h vs in
      let (x, ok1, done1, e1) = bind-ok children (λ _. destroy_volume repo h) w done in
      ap (λ (r : Result Unit × World). node live h r.1) e1
      ∙ (destroy_volume_visible repo confined h (children w).1).0 done1

  -- Whatever the fuel: where the recursion succeeds, the volume itself is gone from live/; and in any
  -- case every entry of live/ that is neither the volume nor a descendant of it, by the links as they
  -- were at the start, is as it was. The driver is taken to touch only the volume that it works on.
  pub destroy_descendants_visible :
      (n : ℕ) (h : String) (w : World)
      → ((destroy_volume_and_descendants repo n h w).0 ≡ ok tt
          → node live h (destroy_volume_and_descendants repo n h w).1 ≡ none)
        × ((k : String)
            → ¬ Below w h k
            → node live k (destroy_volume_and_descendants repo n h w).1 ≡ node live k w)
  unfolding destroy_volume_and_descendants
  destroy_descendants_visible zero h w = (λ done. absurd (cc done), λ k out. refl)
  destroy_descendants_visible (suc n) h w = (
    λ done.
        let (vs, ok1, done1, e1) = bind-ok Filesystem.list_volumes _ w done in
        ap (λ (r : Result Unit × World). node live h r.1) e1
        ∙ if_listed_gone (destroy_volume_and_descendants repo n) h vs (has_handle h vs)
            (Filesystem.list_volumes w).1 done1,
    (descend-Pruned repo confined (suc n) h w).outside,
  )
