-- ===== src/Volume/Repository/Destroy.antt =====
-- `DestroyVolume` of volume/repository.go.
use baggageclaim.Prelude.{String, ◌≡◌, ◌≢◌, refl, ap, ◌∙◌, none, ◌∷◌, ◌⊎◌, inl, inr}
use baggageclaim.Disk.World.{World, live, dead, BaseVolume, NoFaults, node}
use baggageclaim.Disk.Action.{
  volume_does_not_exist, Result, ok, err, done, bind-ok, continue_world, call,
}
use baggageclaim.Disk.Calls.{rename, get_dir, move, replace}
use baggageclaim.Disk.Frame.{Places, Unchanged}
use baggageclaim.Disk.Failing.{rename-KeepsFailing}
use baggageclaim.Disk.FrameCalls.{node-delete_node_self}
use baggageclaim.Volume.Filesystem.{volume_at, destroy}
use baggageclaim.Volume.Filesystem.Frame.{IsConfined, destroy_dead-Keeps}
use baggageclaim.Volume.Repository.Defs.{Repository, locked, find, destroy_volume, get_volume}
use baggageclaim.Volume.Repository.Frame.{find-Keeps, find-Ensures, destroy_volume-Keeps}
use baggageclaim.Volume.Repository.Reads.{lookup_volume_missing}

-- the entries of live/
abbrev InLive : Places
InLive s k = s ≡ live

dead-not_live : ¬ (dead ≡ live)
dead-not_live e = cc

-- A rename into dead/ that succeeds has taken the entry out of live/.
rename_ok :
    (h : String) (w : World)
    → (rename (volume_at live h) (volume_at dead h) w).0 ≡ ok tt
    → node live h (rename (volume_at live h) (volume_at dead h) w).1 ≡ none
unfolding rename get_dir move
rename_ok h w renamed =
    let (x1, ok1, done1, e1) = bind-ok call _ w renamed in
    let (d, ok2, done2, e2) = bind-ok (get_dir (volume_at live h)) _ (call w).1 done1 in
    let (x3, ok3, done3, e3) =
      bind-ok (done (replace (node dead h (call w).1))) _ (call w).1 done2 in
    ap (λ (r : Result Unit × World). node live h r.1) (e1 ∙ e2 ∙ e3)
    ∙ node-delete_node_self live h (call w).1

module _ (repo : Repository) (confined : IsConfined repo.driver) (h : String) where
  destroy_ok :
      (w : World)
      → (destroy repo.json repo.driver (volume_at live h) w).0 ≡ ok tt
      → node live h (destroy repo.json repo.driver (volume_at live h) w).1 ≡ none
  unfolding destroy
  destroy_ok w destroyed =
      let moved = rename (volume_at live h) (volume_at dead h) in
      let (x1, ok1, done1, e1) = bind-ok moved _ w destroyed in
      let kept =
        (destroy_dead-Keeps {P = InLive} repo.json repo.driver confined (volume_at dead h)
            dead-not_live).at
          (moved w).1 in
      ap (λ (r : Result Unit × World). node live h r.1) e1
      ∙ kept.nodes live h refl
      ∙ rename_ok h w ok1

  destroy_ok_at :
      (v : BaseVolume) (w : World)
      → v ≡ volume_at live h
      → (destroy repo.json repo.driver v w).0 ≡ ok tt
      → node live h (destroy repo.json repo.driver v w).1 ≡ none
  destroy_ok_at v w e = rw e (destroy_ok w)

  -- its own entry goes or stays as it was
  abbrev GoneOrSame : World → World → Type 0
  GoneOrSame w w' = (node live h w' ≡ none) ⊎ (node live h w' ≡ node live h w)

  destroy-GoneOrSame :
      (w : World) → GoneOrSame w (destroy repo.json repo.driver (volume_at live h) w).1
  unfolding destroy
  destroy-GoneOrSame w =
      let moved = rename (volume_at live h) (volume_at dead h) in
      continue_world (GoneOrSame w) _ (moved w).0 (moved w).1
        (λ e failed. inr (
          ((rename-KeepsFailing {P = InLive} (volume_at live h) (volume_at dead h)).at w e
              failed).nodes
            live h refl))
        (λ a renamed. inl (
          ((destroy_dead-Keeps {P = InLive} repo.json repo.driver confined (volume_at dead h)
                dead-not_live).at
              (moved w).1).nodes
            live h refl
          ∙ rename_ok h w renamed))

  destroy-GoneOrSame_at :
      (v : BaseVolume) (w u : World)
      → v ≡ volume_at live h
      → node live h w ≡ node live h u
      → GoneOrSame u (destroy repo.json repo.driver v w).1
  destroy-GoneOrSame_at v w u e same = rw (e, ← same) (destroy-GoneOrSame w)

  pub destroy_volume-GoneOrSame :
      (w : World)
      → (node live h (destroy_volume repo h w).1 ≡ none)
        ⊎ (node live h (destroy_volume repo h w).1 ≡ node live h w)
  unfolding destroy_volume locked
  destroy_volume-GoneOrSame w =
      let start = record w { held = h ∷ w.held } in
      let looked = ((find-Keeps {P = InLive} h).at start).nodes live h refl in
      continue_world (GoneOrSame w) (destroy repo.json repo.driver) (find h start).0
        (find h start).1 (λ e failed. inr looked)
        (λ v found.
          destroy-GoneOrSame_at v (find h start).1 w ((find-Ensures h).of start v found) looked)

  -- A volume that `DestroyVolume` says it has destroyed is gone from live/; and whether it succeeds
  -- or not, it has changed no other volume and holds no lock that was not held before. The driver is
  -- taken to touch only the volume that it works on.
  pub destroy_volume_visible :
      (w : World)
      → ((destroy_volume repo h w).0 ≡ ok tt → node live h (destroy_volume repo h w).1 ≡ none)
        × ((k : String) → k ≢ h → node live k (destroy_volume repo h w).1 ≡ node live k w)
        × ((destroy_volume repo h w).1.held ≡ w.held)
  unfolding destroy_volume locked
  destroy_volume_visible w = (
    λ destroyed.
        let start = record w { held = h ∷ w.held } in
        let (v, ok1, done1, e1) =
          bind-ok (find h) (destroy repo.json repo.driver) start destroyed in
        ap (λ (r : Result Unit × World). node live h r.1) e1
        ∙ destroy_ok_at v (find h start).1 ((find-Ensures h).of start v ok1) done1,
    λ k other. ((others w).nodes live k (refl, other)),
    (others w).held,
  )
    where
      others : (w : World) → Unchanged (λ s k. (s ≡ live) × (k ≢ h)) w (destroy_volume repo h w).1
      others w =
          (destroy_volume-Keeps repo confined h (λ p. p.1 refl) (λ p. dead-not_live p.0)).at w

module _ (repo : Repository) (h : String) where
  -- When no call fails, destroying a volume that is not there fails with `ErrVolumeDoesNotExist`, and
  -- looking it up finds nothing.
  pub destroy_volume_missing :
      (w : World)
      → NoFaults w
      → node live h w ≡ none
      → ((destroy_volume repo h w).0 ≡ err volume_does_not_exist)
        × ((get_volume repo h w).0 ≡ ok none)
  unfolding destroy_volume locked find get_volume
  destroy_volume_missing w nf e = (
    rw (lookup_volume_missing h (record w { held = h ∷ w.held }) nf e),
    rw (lookup_volume_missing h w nf e),
  )
