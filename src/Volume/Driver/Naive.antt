-- ===== src/Volume/Driver/Naive.antt =====
-- volume/driver/naive.go: plain directories, and copies for layers.
use baggageclaim.Prelude.{none, some, List, false}
use baggageclaim.Disk.World.{File, Dir, BaseVolume}
use baggageclaim.Disk.Action.{
  cp_failed, Result, ok, err, Action, raise, done, attempt, call, ◌>>=◌, ◌>>◌,
}
use baggageclaim.Disk.Calls.{get_dir, put_dir, mkdir_files, remove_files}
use baggageclaim.Disk.Frame.{Places, Keeps, frame_rules}
use baggageclaim.Disk.FrameCalls.{
  get_dir-Keeps, put_dir-Keeps, mkdir_files-Keeps, remove_files-Keeps,
}
use baggageclaim.Volume.Filesystem.{Driver}
use baggageclaim.Volume.Filesystem.Frame.{IsConfined}
use baggageclaim.Volume.Strategy.Host.{Host}

-- what cp finds at the data directory of the parent
abbrev pub source_files : Result Dir → Result (List File)
source_files (ok (d)) = elim d.files [ none ↦ err cp_failed | some fs ↦ ok fs ]
source_files (err _) = err cp_failed

-- cp makes the data directory of the child, where the child has a directory
abbrev pub copy_to : BaseVolume → List File → Result Dir → Action Unit
copy_to child fs (ok d) = put_dir child (record d { files = some fs })
copy_to child fs (err _) = raise cp_failed

module _ (host : Host) where
  unfoldable pub create_copy_on_write_layer : BaseVolume → BaseVolume → Action Unit
  create_copy_on_write_layer child above = do
    call
    from ← attempt (get_dir above)
    fs ← done (source_files from)
    to ← attempt (get_dir child)
    copy_to child (host.cp false fs) to

  abbrev pub naive : Driver
  naive = record {
    create_volume = mkdir_files;
    destroy_volume = remove_files;
    create_copy_on_write_layer = create_copy_on_write_layer;
  }

  copy_to-Keeps :
      {P : Places} (child : BaseVolume) (fs : List File) (r : Result Dir)
      → ¬ P child.stage child.handle
      → Keeps P (copy_to child fs r)
  copy_to-Keeps child fs (ok d) out = put_dir-Keeps child _ out
  copy_to-Keeps child fs (err e) out = search frame_rules

  -- The naive driver changes only the entry of the volume that it works on.
  pub naive-IsConfined : IsConfined naive
  unfolding create_copy_on_write_layer
  naive-IsConfined = record {
    create = λ P v out. mkdir_files-Keeps v out;
    destroy = λ P v out. remove_files-Keeps v out;
    layer = λ P v above out. search (frame_rules, get_dir-Keeps, copy_to-Keeps) depth 12;
  }
