-- ===== src/Volume/Repository/Create.antt =====
-- `CreateVolume` of volume/repository.go where it fails.
use baggageclaim.Prelude.{String, ◌≡◌, refl, Bool}
use baggageclaim.Disk.World.{World, init, live, dead, BaseVolume, node}
use baggageclaim.Disk.Action.{Error, err}
use baggageclaim.Disk.Frame.{Places, Keeps, frame_rules}
use baggageclaim.Disk.Failing.{
  KeepsFailing, KeepsFailing-bind, KeepsFailing-bind_ensured, KeepsFailing-map,
  KeepsFailing-attempt, rename-KeepsFailing,
}
use baggageclaim.Disk.Calls.{rename}
use baggageclaim.Uidgid.Walk.{namespace_path}
use baggageclaim.Uidgid.Owners.{namespace_path-Keeps}
use baggageclaim.Volume.Properties.{Properties}
use baggageclaim.Volume.Metadata.{store_properties, store_privileged}
use baggageclaim.Volume.Filesystem.{volume_at, initialize}
use baggageclaim.Volume.Filesystem.Frame.{
  IsConfined, destroy-Keeps, store_properties-Keeps, store_privileged-Keeps,
}
use baggageclaim.Volume.Strategy.Strategerizer.{Strategy}
use baggageclaim.Volume.Strategy.Frame.{materialize-Ensures, materialize-Keeps}
use baggageclaim.Volume.Repository.Defs.{
  Repository, namespacer, unless_initialized, set_up, create_volume,
}

-- the entries of live/
abbrev InLive : Places
InLive s k = s ≡ live

init-not_live : ¬ (init ≡ live)
init-not_live e = cc

dead-not_live : ¬ (dead ≡ live)
dead-not_live e = cc

initialize-KeepsFailing : {P : Places} (v : BaseVolume) → KeepsFailing P (initialize v)
unfolding initialize
initialize-KeepsFailing v =
    KeepsFailing-map (rename v _) (λ _. volume_at live v.handle) (rename-KeepsFailing v _)

module _ (repo : Repository) (confined : IsConfined repo.driver) (h : String) where
  set_up-KeepsFailing :
      (p : Properties) (b : Bool) → KeepsFailing InLive (set_up repo (volume_at init h) p b)
  unfolding set_up
  set_up-KeepsFailing p b =
      KeepsFailing-bind (store_properties repo.json v p) _
        (store_properties-Keeps repo.json v p init-not_live)
        (λ _.
          KeepsFailing-bind (store_privileged repo.json v b) _
            (store_privileged-Keeps repo.json v b init-not_live)
            (λ _.
              KeepsFailing-bind (namespace_path (namespacer repo b) v) _
                (namespace_path-Keeps _ v init-not_live)
                (λ _. KeepsFailing-map (initialize v) _ (initialize-KeepsFailing v))))
    where
      v : BaseVolume
      v = volume_at init h

  unless_initialized-Keeps :
      (e : Error) → Keeps InLive (unless_initialized repo (volume_at init h) (err e))
  unless_initialized-Keeps e =
      search (frame_rules, destroy-Keeps, init-not_live, dead-not_live, confined) depth 9

  create_volume-KeepsFailing :
      (s : Strategy) (p : Properties) (b : Bool) → KeepsFailing InLive (create_volume repo h s p b)
  unfolding create_volume
  create_volume-KeepsFailing s p b =
      KeepsFailing-bind_ensured (λ v. v ≡ volume_at init h) _ _
        (materialize-Ensures repo.json repo.driver repo.host h s)
        (materialize-Keeps repo.json repo.driver repo.host confined h init-not_live dead-not_live s)
        (λ v e. rw e (
          KeepsFailing-attempt (set_up repo (volume_at init h) p b)
            (unless_initialized repo (volume_at init h)) (set_up-KeepsFailing p b)
            (λ a w x h. absurd (cc)) unless_initialized-Keeps))

  -- A creation that fails, at whatever step and for whatever reason, has changed no entry of live/:
  -- no volume has appeared, and none that was there has changed. The driver is taken to touch only
  -- the volume that it works on.
  pub create_volume_failing :
      (s : Strategy) (p : Properties) (b : Bool) (w : World) (e : Error)
      → (create_volume repo h s p b w).0 ≡ err e
      → (k : String) → node live k (create_volume repo h s p b w).1 ≡ node live k w
  create_volume_failing s p b w e failed k =
      ((create_volume-KeepsFailing s p b).at w e failed).nodes live k refl
