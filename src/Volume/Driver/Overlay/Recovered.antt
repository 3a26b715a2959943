-- ===== src/Volume/Driver/Overlay/Recovered.antt =====
-- `Recover` of the overlay driver: every volume gets its mount back.
use baggageclaim.Prelude.{
  Mem, ℕ, ◌≡◌, refl, sym, ap, subst, ◌∙◌, Option, none, some, List, [], ◌∷◌, ◌⊎◌, inl, inr, All,
}
use baggageclaim.Disk.World.{World, BaseVolume, live}
use baggageclaim.Disk.Action.{Result, ok}
use baggageclaim.Volume.Filesystem
use baggageclaim.Volume.Filesystem.{volume_at, parent}
use baggageclaim.Volume.Filesystem.Frame.{parent-Keeps, list_volumes-Keeps}
use baggageclaim.Volume.Strategy.Host.{Host}
use baggageclaim.Volume.Repository.Descendants.Pruned.{
  Live, HasParent-Pruned, parent_ok_at, list_volumes-Ensures,
}
use baggageclaim.Volume.Driver.Overlay.Parents.{parent_live}
use baggageclaim.Volume.Driver.Overlay.Defs.{
  bind, overlay, Machine, pure, on_disk, ◌>>=◌, find_root_parent, bind_mount, overlay_mount,
  recover_as, recover_each, recover_cows, recover,
}
use baggageclaim.Volume.Driver.Overlay.Mounted.{
  Onward, Goes-on_disk, step-ok, bind_mount-Goes, overlay_mount-Goes, bind_mount_ok,
  overlay_mount_ok,
}
use baggageclaim.Volume.Driver.Overlay.Loops.{
  recover_each-Goes, find_root_parent-Goes, recover_cows-Goes,
}
use baggageclaim.Volume.Driver.Overlay.Served.{
  Recovered, Still, Still-Onward, Recovered-Onward, Still-Pruned, IsRoot-Still, IsCow,
  parent_none_at, find_root_parent_ok,
}

module _ (w : World) (host : Host) (n : ℕ) where
  recover_cows_ok :
      (cows : List (BaseVolume × BaseVolume)) (m : Machine)
      → Still w m
      → All (IsCow w) cows
      → (recover_cows host n cows m).0 ≡ ok tt
      → All (λ c. Recovered w (recover_cows host n cows m).1 c.0) cows
  unfolding recover_cows
  recover_cows_ok [] m still are done = tt
  recover_cows_ok ((child, above) ∷ cows) m still ((at, link), are) done =
      let (root, ok1, done1, e1) = step-ok (find_root_parent host n child above) _ m done in
      let m1 = (find_root_parent host n child above m).1 in
      let (x, ok2, done2, e2) = step-ok (overlay_mount child root) _ m1 done1 in
      let m2 = (overlay_mount child root m1).1 in
      let still' =
        Still-Onward w ((overlay_mount-Goes child root).at m1)
          (Still-Onward w ((find_root_parent-Goes host n child above).at m) still) in
      let (below, top) = find_root_parent_ok w host n child above root m still at ok1 in
      let mounted : Recovered w m2 child = (
        overlay root child.handle child.handle,
        overlay_mount_ok child root m1 ok2,
        (refl, refl, (above.handle, link, below), top),
      ) in
      subst
        (λ (r : Result Unit × Machine).
          All (λ (c : BaseVolume × BaseVolume). Recovered w r.1 c.0) ((child, above) ∷ cows))
        (sym (e1 ∙ e2))
        (
          Recovered-Onward w child ((recover_cows-Goes host n cows).at m2) mounted,
          recover_cows_ok cows m2 still' are done2,
        )

-- The first loop has mounted a volume, or has left it for the second one.
abbrev Handled : World → Machine → List (BaseVolume × BaseVolume) → BaseVolume → Type 0
Handled w m cows v = Recovered w m v ⊎ ((u : BaseVolume) × Mem (v, u) cows)

Handled-more :
    (w : World) (m : Machine) (cows : List (BaseVolume × BaseVolume)) (c : BaseVolume × BaseVolume)
    (vs : List BaseVolume)
    → All (Handled w m cows) vs
    → All (Handled w m (c ∷ cows)) vs
Handled-more w m cows c [] all = tt
Handled-more w m cows c (v ∷ vs) (inl done, all) = (inl done, Handled-more w m cows c vs all)
Handled-more w m cows c (v ∷ vs) (inr (u, there), all) =
    (inr (u, inr there), Handled-more w m cows c vs all)

abbrev Sorted : World → List BaseVolume → List (BaseVolume × BaseVolume) → Machine → Type 0
Sorted w vs cows m = All (IsCow w) cows × All (Handled w m cows) vs

module _ (w : World) (v : BaseVolume) (vs : List BaseVolume) (at : v.stage ≡ live)
    (again : (m : Machine) (cows : List (BaseVolume × BaseVolume))
      → Still w m
      → (recover_each vs m).0 ≡ ok cows
      → Sorted w vs cows (recover_each vs m).1) where
  recover_as_ok :
      (m : Machine) (cows : List (BaseVolume × BaseVolume)) (o : Option BaseVolume)
      → Still w m
      → (parent v m.world).0 ≡ ok o
      → (recover_as v (recover_each vs) o (on_disk (parent v) m).1).0 ≡ ok cows
      → Sorted w (v ∷ vs) cows (recover_as v (recover_each vs) o (on_disk (parent v) m).1).1
  recover_as_ok m cows none still found done =
      let m1 = (on_disk (parent v) m).1 in
      let (x, ok2, done2, e2) = step-ok (bind_mount v) (λ x. recover_each vs) m1 done in
      let m2 = (bind_mount v m1).1 in
      let still' =
        Still-Onward w ((bind_mount-Goes v).at m1)
          (Still-Onward w ((Goes-on_disk (parent v) (parent-Keeps v)).at m) still) in
      let mounted : Recovered w m2 v = (
        bind v.handle,
        bind_mount_ok v m1 ok2,
        (
          refl,
          IsRoot-Still w m v.handle still (λ p link. parent_none_at v p m.world at found link),
        ),
      ) in
      let (are, rest) = again m2 cows still' done2 in
      subst (λ (r : Result (List (BaseVolume × BaseVolume)) × Machine). Sorted w (v ∷ vs) cows r.1)
        (sym e2) (are, (inl (Recovered-Onward w v ((recover_each-Goes vs).at m2) mounted), rest))
  recover_as_ok m cows (some u) still found done =
      let m1 = (on_disk (parent v) m).1 in
      let (cows', ok2, done2, e2) =
        step-ok (recover_each vs) (λ cows. pure ((v, u) ∷ cows)) m1 done in
      let still' = Still-Onward w ((Goes-on_disk (parent v) (parent-Keeps v)).at m) still in
      let (are, rest) = again m1 cows' still' ok2 in
      let same : (v, u) ∷ cows' ≡ cows = cc done2 in
      let link =
        HasParent-Pruned v.handle u.handle (Still-Pruned w m still)
          (parent_ok_at v m.world at found) in
      let live_parent = ap (λ (b : BaseVolume). b.stage) (parent_live v m.world found) in
      subst
        (λ (cs : List (BaseVolume × BaseVolume)).
          Sorted w (v ∷ vs) cs (recover_as v (recover_each vs) (some u) m1).1)
        same
        (subst
          (λ (r : Result (List (BaseVolume × BaseVolume)) × Machine).
            Sorted w (v ∷ vs) ((v, u) ∷ cows') r.1)
          (sym e2)
          (
            ((live_parent, link), are),
            (inr (u, inl refl), Handled-more w (recover_each vs m1).1 cows' (v, u) vs rest),
          ))

recover_each_ok :
    (w : World) (vs : List BaseVolume) (m : Machine) (cows : List (BaseVolume × BaseVolume))
    → Still w m
    → Live vs
    → (recover_each vs m).0 ≡ ok cows
    → Sorted w vs cows (recover_each vs m).1
unfolding recover_each
recover_each_ok w [] m cows still at done =
    let same : [] ≡ cows = cc done in
    (subst (λ (cs : List (BaseVolume × BaseVolume)). All (IsCow w) cs) same tt, tt)
recover_each_ok w (v ∷ vs) m cows still (at, all_live) done =
    let (o, found, done1, e1) =
      step-ok (on_disk (parent v)) (recover_as v (recover_each vs)) m done in
    subst (λ (r : Result (List (BaseVolume × BaseVolume)) × Machine). Sorted w (v ∷ vs) cows r.1)
      (sym e1)
      (recover_as_ok w v vs at
        (λ m cows still done. recover_each_ok w vs m cows still all_live done) m cows o still found
        done1)

Recovered-in :
    (w : World) (m : Machine) (cows : List (BaseVolume × BaseVolume)) (v u : BaseVolume)
    → All (λ (c : BaseVolume × BaseVolume). Recovered w m c.0) cows
    → Mem (v, u) cows
    → Recovered w m v
Recovered-in w m [] v u all there = elim there [ ]
Recovered-in w m (c ∷ cows) v u (here, all) (inl e) =
    subst (λ (c : BaseVolume × BaseVolume). Recovered w m c.0) (sym e) here
Recovered-in w m (c ∷ cows) v u (here, all) (inr there) = Recovered-in w m cows v u all there

-- the volumes of the first loop after the second one
All-Recovered :
    (w : World) (m m' : Machine) (cows : List (BaseVolume × BaseVolume)) (vs : List BaseVolume)
    → Onward m m'
    → All (λ (c : BaseVolume × BaseVolume). Recovered w m' c.0) cows
    → All (Handled w m cows) vs
    → All (Recovered w m') vs
All-Recovered w m m' cows [] a done handled = tt
All-Recovered w m m' cows (v ∷ vs) a done (inl r, handled) =
    (Recovered-Onward w v a r, All-Recovered w m m' cows vs a done handled)
All-Recovered w m m' cows (v ∷ vs) a done (inr (u, there), handled) =
    (Recovered-in w m' cows v u done there, All-Recovered w m m' cows vs a done handled)

module _ (host : Host) (n : ℕ) (m : Machine) where
  recover_listed :
      (vs : List BaseVolume)
      → Live vs
      → let before = (on_disk Filesystem.list_volumes m).1 in
        ((recover_each vs >>= recover_cows host n) before).0 ≡ ok tt
        → All (Recovered m.world ((recover_each vs >>= recover_cows host n) before).1) vs
  recover_listed vs all_live done =
      let before = (on_disk Filesystem.list_volumes m).1 in
      let still =
        Still-Onward m.world ((Goes-on_disk Filesystem.list_volumes list_volumes-Keeps).at m)
          (λ k. refl) in
      let (cows, ok1, done1, e1) = step-ok (recover_each vs) (recover_cows host n) before done in
      let m1 = (recover_each vs before).1 in
      let (are, handled) = recover_each_ok m.world vs before cows still all_live ok1 in
      let still' = Still-Onward m.world ((recover_each-Goes vs).at before) still in
      subst (λ (r : Result Unit × Machine). All (Recovered m.world r.1) vs) (sym e1)
        (All-Recovered m.world m1 (recover_cows host n cows m1).1 cows vs
          ((recover_cows-Goes host n cows).at m1)
          (recover_cows_ok m.world host n cows m1 still' are done1) handled)

  -- When Recover succeeds, every volume that ListVolumes returns has a mount at its data directory: a
  -- layer of its own where no parent of it is there, and else a layer of its own over the ancestor of
  -- which no parent is there.
  pub recover_mounts :
      (vs : List BaseVolume)
      → (Filesystem.list_volumes m.world).0 ≡ ok vs
      → (recover host n m).0 ≡ ok tt
      → All (Recovered m.world (recover host n m).1) vs
  unfolding recover
  recover_mounts vs listed done =
      let before = (on_disk Filesystem.list_volumes m).1 in
      let (vs', ok1, done1, e1) =
        step-ok (on_disk Filesystem.list_volumes) (λ vs. recover_each vs >>= recover_cows host n) m
          done in
      let same : vs' ≡ vs = cc (listed, ok1) in
      subst (λ (r : Result Unit × Machine). All (Recovered m.world r.1) vs) (sym e1)
        (subst
          (λ us. All (Recovered m.world ((recover_each vs' >>= recover_cows host n) before).1) us)
          same (recover_listed vs' (list_volumes-Ensures.of m.world vs' ok1) done1))
