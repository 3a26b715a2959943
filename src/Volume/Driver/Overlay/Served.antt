-- ===== src/Volume/Driver/Overlay/Served.antt =====
-- Which mount serves a volume, and the root that findRootParent finds.
use baggageclaim.Prelude.{Mem, ℕ, String, ◌≡◌, sym, subst, ◌∙◌, Option, none, some, inr}
use baggageclaim.Disk.World.{World, BaseVolume, live, node}
use baggageclaim.Disk.Action.{ok}
use baggageclaim.Volume.Filesystem.{parent}
use baggageclaim.Volume.Filesystem.Frame.{parent-Keeps}
use baggageclaim.Volume.Strategy.Host.{Host}
use baggageclaim.Volume.Repository.Descendants.Pruned.{
  HasParent, Below, Below-mono, Pruned, HasParent-Pruned, parent_ok_at,
}
use baggageclaim.Volume.Driver.Overlay.Parents.{parent_none, parent_live}
use baggageclaim.Volume.Driver.Overlay.Root.{IsRoot, climb, climb-IsRoot}
use baggageclaim.Volume.Driver.Overlay.Defs.{
  Source, bind, overlay, Machine, on_disk, copy_layer, root_of, find_root_parent,
}
use baggageclaim.Volume.Driver.Overlay.Mounted.{Onward, Goes-on_disk, step-ok}
use baggageclaim.Volume.Driver.Overlay.Loops.{copy_layer-Goes}

-- what is to be mounted at a volume of live/: a layer of its own where no parent of it is there, and
-- else a layer over the ancestor of which no parent is there
abbrev pub Serves : World → String → Source → Type 0
Serves w h (bind layer) = (layer ≡ h) × IsRoot w h
Serves w h (overlay lower layer work) =
    (layer ≡ h)
    × (work ≡ h)
    × ((p : String) × HasParent w h p × Below w lower.handle p)
    × IsRoot w lower.handle

abbrev pub Recovered : World → Machine → BaseVolume → Type 0
Recovered w m v =
    (s : Source) × Mem (record { target = v; source = s }) m.mounts × Serves w v.handle s

module _ (w : World) where
  -- a state where live/ is as in `w`
  abbrev pub Still : Machine → Type 0
  Still m = (k : String) → node live k m.world ≡ node live k w

  pub Still-Onward : {m m' : Machine} → Onward m m' → Still m → Still m'
  Still-Onward a still k = a.nodes k ∙ still k

  pub Recovered-Onward :
      {m m' : Machine} (v : BaseVolume) → Onward m m' → Recovered w m v → Recovered w m' v
  Recovered-Onward v a (s, there, serves) = (s, a.mounts _ there, serves)

  pub Still-Pruned : (m : Machine) → Still m → Pruned (λ k. ⊥) w m.world
  Still-Pruned m still = record { shrunk = λ k. inr (still k); outside = λ k out. still k }

  pub IsRoot-Still : (m : Machine) (h : String) → Still m → IsRoot m.world h → IsRoot w h
  IsRoot-Still m h still root p (d, at, up) = sym (still p) ∙ root p (d, still h ∙ at, up)

-- a volume with the parent that was found of it
abbrev pub IsCow : World → BaseVolume × BaseVolume → Type 0
IsCow w (child, above) = (above.stage ≡ live) × HasParent w child.handle above.handle

pub parent_none_at :
    (v : BaseVolume) (p : String) (w : World)
    → v.stage ≡ live
    → (parent v w).0 ≡ ok none
    → HasParent w v.handle p
    → node live p w ≡ none
parent_none_at v p w at = rw at (parent_none v.handle p w)

module _ (w : World) (host : Host) (n : ℕ) where
  root_of_ok :
      (child above root : BaseVolume) (m : Machine) (o : Option BaseVolume)
      → Still w m
      → above.stage ≡ live
      → (parent above m.world).0 ≡ ok o
      → (root_of host n child above o (on_disk (parent above) m).1).0 ≡ ok root
      → Below w root.handle above.handle × IsRoot w root.handle
  root_of_ok child above root m none still at found done =
      let same : above ≡ root = cc done in
      subst (λ (v : BaseVolume). Below w v.handle above.handle × IsRoot w v.handle) same
        (
          Below.self,
          IsRoot-Still w m above.handle still
              (λ p link. parent_none_at above p m.world at found link),
        )
  root_of_ok child above root m (some u) still at found done =
      let before = (on_disk (parent above) m).1 in
      let (x, ok1, done1, e1) =
        step-ok (copy_layer host above.handle child.handle) (λ x. on_disk (climb n u)) before
          done in
      let after = (copy_layer host above.handle child.handle before).1 in
      let still' =
        Still-Onward w ((copy_layer-Goes host n above.handle child.handle).at before)
          (Still-Onward w ((Goes-on_disk (parent above) (parent-Keeps above)).at m) still) in
      let (below, top) = climb-IsRoot n u.handle after.world root (
        subst (λ (v : BaseVolume). (climb n v after.world).0 ≡ ok root)
          (parent_live above m.world found) done1) in
      let link =
        HasParent-Pruned above.handle u.handle (Still-Pruned w m still)
          (parent_ok_at above m.world at found) in
      (
        Below.child (Below-mono (Still-Pruned w after still') below) link,
        IsRoot-Still w after root.handle still' top,
      )

  pub find_root_parent_ok :
      (child above root : BaseVolume) (m : Machine)
      → Still w m
      → above.stage ≡ live
      → (find_root_parent host n child above m).0 ≡ ok root
      → Below w root.handle above.handle × IsRoot w root.handle
  unfolding find_root_parent
  find_root_parent_ok child above root m still at done =
      let (o, found, done1, e1) =
        step-ok (on_disk (parent above)) (root_of host n child above) m done in
      root_of_ok child above root m o still at found done1
