-- ===== src/Volume/Filesystem/Defs.antt =====
-- The operations of `filesystem`, `baseVolume`, `initVolume`, `liveVolume` and `deadVolume`.
use baggageclaim.Prelude.{String, Bool, true, false, Option, none, some, List, [], map}
use baggageclaim.Disk.World.{Node, regular, directory, Stage, init, live, dead, BaseVolume}
use baggageclaim.Disk.Action.{
  Error, not_exist, Action, Result, ok, err, pure, raise, attempt, ◌>>=◌, ◌>>◌,
}
use baggageclaim.Disk.Calls.{mkdir, stat, read_dir, remove_all, rename, symlink, eval_symlinks}
use baggageclaim.Volume.Metadata.Json.{Json}
use baggageclaim.Volume.Metadata.{store_properties}

-- volume/driver.go: what prepares, layers and removes the data directory of a volume.
pub record Driver : Type 0 where
  pub create_volume : BaseVolume → Action Unit
  pub destroy_volume : BaseVolume → Action Unit
  pub create_copy_on_write_layer : BaseVolume → BaseVolume → Action Unit

-- initVolumePath, liveVolumePath and deadVolumePath
abbrev pub volume_at : Stage → String → BaseVolume
volume_at s h = record { stage = s; handle = h }

-- os.IsNotExist
abbrev pub is_not_exist : Error → Bool
is_not_exist not_exist = true
is_not_exist _ = false

unfoldable pub cleanup : BaseVolume → Action Unit
cleanup v = remove_all v

-- On an error of the driver the new directory is removed, and an error of that is dropped.
abbrev pub or_cleanup : BaseVolume → Result Unit → Action Unit
or_cleanup v (ok _) = pure tt
or_cleanup v (err e) = do attempt (cleanup v); raise e

abbrev pub if_dir : String → Result Node → Action (Option BaseVolume)
if_dir h (ok regular) = pure none
if_dir h (ok (directory _)) = pure (some (volume_at live h))
if_dir h (err not_exist) = pure none
if_dir h (err e) = raise e

unfoldable pub lookup_volume : String → Action (Option BaseVolume)
lookup_volume h = do info ← attempt (stat (volume_at live h)); if_dir h info

unfoldable pub list_volumes : Action (List BaseVolume)
list_volumes = do handles ← read_dir live; pure (map (volume_at live) handles)

abbrev pub as_parent : Result String → Action (Option BaseVolume)
as_parent (ok h) = pure (some (volume_at live h))
as_parent (err not_exist) = pure none
as_parent (err e) = raise e

unfoldable pub parent : BaseVolume → Action (Option BaseVolume)
parent v = do target ← attempt (eval_symlinks v); as_parent target

unfoldable pub initialize : BaseVolume → Action BaseVolume
initialize v = do rename v (volume_at live v.handle); pure (volume_at live v.handle)

module _ (json : Json) (driver : Driver) where
  unfoldable pub init_raw_volume : String → Action BaseVolume
  init_raw_volume h = do
    mkdir (volume_at init h)
    store_properties json (volume_at init h) []
    pure (volume_at init h)

  unfoldable pub new_volume : String → Action BaseVolume
  new_volume h = do
    v ← init_raw_volume h
    created ← attempt (driver.create_volume v)
    or_cleanup v created
    pure v

  -- `deadVolume.Destroy`
  unfoldable pub destroy_dead : BaseVolume → Action Unit
  destroy_dead v = do driver.destroy_volume v; cleanup v

  unfoldable pub destroy : BaseVolume → Action Unit
  destroy v = do rename v (volume_at dead v.handle); destroy_dead (volume_at dead v.handle)

  abbrev pub or_destroy : BaseVolume → Result Unit → Action Unit
  or_destroy v (ok _) = pure tt
  or_destroy v (err e) = do attempt (destroy v); raise e

  unfoldable pub new_subvolume : BaseVolume → String → Action BaseVolume
  new_subvolume above h = do
    child ← init_raw_volume h
    layered ← attempt (driver.create_copy_on_write_layer child above)
    or_cleanup child layered
    linked ← attempt (symlink above.handle child)
    or_destroy child linked
    pure child
