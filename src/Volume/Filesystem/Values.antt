-- ===== src/Volume/Filesystem/Values.antt =====
-- Which volume an operation of volume/filesystem.go returns.
use baggageclaim.Prelude.{String, Option, none, some, ◌≡◌, refl}
use baggageclaim.Disk.World.{Node, regular, directory, init, live, BaseVolume}
use baggageclaim.Disk.Action.{Error, Result, ok, err}
use baggageclaim.Disk.Frame.{Ensures, value_rules, Ensures-pure, Ensures-bind_ensured}
use baggageclaim.Volume.Metadata.Json.{Json}
use baggageclaim.Volume.Filesystem.Defs.{
  Driver, volume_at, if_dir, lookup_volume, init_raw_volume, new_volume, new_subvolume,
}

-- a lookup that finds a volume
abbrev pub Finds : String → Option BaseVolume → Type 0
Finds h none = Unit
Finds h (some v) = v ≡ volume_at live h

if_dir-Ensures : (h : String) (r : Result Node) → Ensures (Finds h) (if_dir h r)
if_dir-Ensures h (ok regular) = Ensures-pure none tt
if_dir-Ensures h (ok (directory _)) = Ensures-pure (some (volume_at live h)) refl
if_dir-Ensures h (err Error.not_exist) = Ensures-pure none tt
if_dir-Ensures h (err _) = search value_rules

pub lookup_volume-Ensures : (h : String) → Ensures (Finds h) (lookup_volume h)
unfolding lookup_volume
lookup_volume-Ensures h = search (value_rules, if_dir-Ensures)

module _ (json : Json) (driver : Driver) (h : String) where
  pub init_raw_volume-Ensures : Ensures (λ v. v ≡ volume_at init h) (init_raw_volume json driver h)
  unfolding init_raw_volume
  init_raw_volume-Ensures = search value_rules depth 9

  pub new_volume-Ensures : Ensures (λ v. v ≡ volume_at init h) (new_volume json driver h)
  unfolding new_volume
  new_volume-Ensures =
      Ensures-bind_ensured (λ v. v ≡ volume_at init h) _ _ init_raw_volume-Ensures
        (λ v e. search value_rules depth 9)

  pub new_subvolume-Ensures :
      (above : BaseVolume) → Ensures (λ v. v ≡ volume_at init h) (new_subvolume json driver above h)
  unfolding new_subvolume
  new_subvolume-Ensures above =
      Ensures-bind_ensured (λ v. v ≡ volume_at init h) _ _ init_raw_volume-Ensures
        (λ v e. search value_rules depth 12)
