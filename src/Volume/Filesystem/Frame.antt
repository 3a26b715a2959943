-- ===== src/Volume/Filesystem/Frame.antt =====
-- Which entries the operations of volume/filesystem.go may change.
use baggageclaim.Prelude.{String, Bool, ◌≡◌}
use baggageclaim.Disk.World.{Node, regular, directory, init, live, dead, BaseVolume}
use baggageclaim.Disk.Action.{Error, Result, ok, err}
use baggageclaim.Disk.Frame.{Places, Keeps, Keeps-bind_ensured, frame_rules}
use baggageclaim.Disk.FrameCalls.{
  mkdir-Keeps, stat-Keeps, read_dir-Keeps, remove_all-Keeps, rename-Keeps, symlink-Keeps,
  eval_symlinks-Keeps,
}
use baggageclaim.Volume.Metadata.Json.{Json}
use baggageclaim.Volume.Metadata.{
  store_properties, load_properties, store_privileged, load_privileged,
}
use baggageclaim.Volume.Metadata.Stored.{read_metadata_file-Keeps, write_metadata_file-Keeps}
use baggageclaim.Volume.Filesystem.Values.{init_raw_volume-Ensures}
use baggageclaim.Volume.Filesystem.Defs.{
  Driver, volume_at, cleanup, or_cleanup, if_dir, lookup_volume, list_volumes, as_parent, parent,
  initialize, init_raw_volume, new_volume, destroy_dead, destroy, or_destroy, new_subvolume,
}

-- A driver changes, of the volumes directory, at most the entry of the volume that it works on.
pub record IsConfined (driver : Driver) : Type 1 where
  pub create :
      (P : Places) (v : BaseVolume) → ¬ P v.stage v.handle → Keeps P (driver.create_volume v)
  pub destroy :
      (P : Places) (v : BaseVolume) → ¬ P v.stage v.handle → Keeps P (driver.destroy_volume v)
  pub layer :
      (P : Places) (v above : BaseVolume)
      → ¬ P v.stage v.handle
      → Keeps P (driver.create_copy_on_write_layer v above)

module _ {P : Places} where
  if_dir-Keeps : (h : String) (r : Result Node) → Keeps P (if_dir h r)
  if_dir-Keeps h (ok regular) = search frame_rules
  if_dir-Keeps h (ok (directory _)) = search frame_rules
  if_dir-Keeps h (err Error.not_exist) = search frame_rules
  if_dir-Keeps h (err _) = search frame_rules

  pub lookup_volume-Keeps : (h : String) → Keeps P (lookup_volume h)
  unfolding lookup_volume
  lookup_volume-Keeps h = search (frame_rules, stat-Keeps, if_dir-Keeps) depth 9

  pub list_volumes-Keeps : Keeps P list_volumes
  unfolding list_volumes
  list_volumes-Keeps = search (frame_rules, read_dir-Keeps) depth 9

  as_parent-Keeps : (r : Result String) → Keeps P (as_parent r)
  as_parent-Keeps (ok h) = search frame_rules
  as_parent-Keeps (err Error.not_exist) = search frame_rules
  as_parent-Keeps (err _) = search frame_rules

  pub parent-Keeps : (v : BaseVolume) → Keeps P (parent v)
  unfolding parent
  parent-Keeps v = search (frame_rules, eval_symlinks-Keeps, as_parent-Keeps) depth 9

  pub initialize-Keeps :
      (v : BaseVolume) → ¬ P v.stage v.handle → ¬ P live v.handle → Keeps P (initialize v)
  unfolding initialize
  initialize-Keeps v out_v out_live = search (frame_rules, rename-Keeps) depth 9

  cleanup-Keeps : (v : BaseVolume) → ¬ P v.stage v.handle → Keeps P (cleanup v)
  unfolding cleanup
  cleanup-Keeps = remove_all-Keeps

  or_cleanup-Keeps :
      (v : BaseVolume) (r : Result Unit) → ¬ P v.stage v.handle → Keeps P (or_cleanup v r)
  or_cleanup-Keeps v (ok _) out = search frame_rules
  or_cleanup-Keeps v (err e) out = search (frame_rules, cleanup-Keeps) depth 9

  module _ (json : Json) where
    pub load_properties-Keeps : (v : BaseVolume) → Keeps P (load_properties json v)
    unfolding load_properties
    load_properties-Keeps v = read_metadata_file-Keeps v _ _

    pub load_privileged-Keeps : (v : BaseVolume) → Keeps P (load_privileged json v)
    unfolding load_privileged
    load_privileged-Keeps v = read_metadata_file-Keeps v _ _

    pub store_properties-Keeps :
        (v : BaseVolume) (p : _) → ¬ P v.stage v.handle → Keeps P (store_properties json v p)
    unfolding store_properties
    store_properties-Keeps v p out = write_metadata_file-Keeps v _ out _ p

    pub store_privileged-Keeps :
        (v : BaseVolume) (b : Bool) → ¬ P v.stage v.handle → Keeps P (store_privileged json v b)
    unfolding store_privileged
    store_privileged-Keeps v b out = write_metadata_file-Keeps v _ out _ b

module _ {P : Places} (json : Json) (driver : Driver) (confined : IsConfined driver) where
  pub init_raw_volume-Keeps : (h : String) → ¬ P init h → Keeps P (init_raw_volume json driver h)
  unfolding init_raw_volume
  init_raw_volume-Keeps h out = search (frame_rules, mkdir-Keeps, store_properties-Keeps) depth 9

  -- Making a volume changes only its entry of init/, whatever fails.
  pub new_volume-Keeps : (h : String) → ¬ P init h → Keeps P (new_volume json driver h)
  unfolding new_volume
  new_volume-Keeps h out =
      Keeps-bind_ensured (λ v. v ≡ volume_at init h) _ _ (init_raw_volume-Ensures json driver h)
        (init_raw_volume-Keeps h out)
        (λ v e. rw e (search (frame_rules, confined.create P, or_cleanup-Keeps) depth 9))

  pub destroy_dead-Keeps :
      (v : BaseVolume) → ¬ P v.stage v.handle → Keeps P (destroy_dead json driver v)
  unfolding destroy_dead
  destroy_dead-Keeps v out = search (frame_rules, confined.destroy, cleanup-Keeps) depth 9

  -- Destroying a volume changes only its entry and that of dead/, whatever fails.
  pub destroy-Keeps :
      (v : BaseVolume) → ¬ P v.stage v.handle → ¬ P dead v.handle → Keeps P (destroy json driver v)
  unfolding destroy
  destroy-Keeps v out_v out_dead = search (frame_rules, rename-Keeps, destroy_dead-Keeps) depth 9

  or_destroy-Keeps :
      (v : BaseVolume) (r : Result Unit)
      → ¬ P v.stage v.handle
      → ¬ P dead v.handle
      → Keeps P (or_destroy json driver v r)
  or_destroy-Keeps v (ok _) out_v out_dead = search frame_rules
  or_destroy-Keeps v (err e) out_v out_dead = search (frame_rules, destroy-Keeps) depth 9

  pub new_subvolume-Keeps :
      (above : BaseVolume) (h : String)
      → ¬ P init h
      → ¬ P dead h
      → Keeps P (new_subvolume json driver above h)
  unfolding new_subvolume
  new_subvolume-Keeps above h out_init out_dead =
      Keeps-bind_ensured (λ v. v ≡ volume_at init h) _ _ (init_raw_volume-Ensures json driver h)
        (init_raw_volume-Keeps h out_init)
        (λ v e. rw e (
          search (frame_rules, confined.layer P, or_cleanup-Keeps, symlink-Keeps, or_destroy-Keeps)
            depth 12))
