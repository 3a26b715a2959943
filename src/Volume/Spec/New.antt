-- ===== src/Volume/Spec/New.antt =====
-- New volumes in init/ with the naive driver, when no call fails.
use baggageclaim.Prelude.{Option, String, ◌≡◌, refl, ◌∙◌, false, none, some, List, [], ◌∷◌}
use baggageclaim.Disk.World.{
  File, World, Dir, empty_dir, directory, init, live, dead, BaseVolume, NoFaults, node, set_node,
}
use baggageclaim.Disk.Action.{ok, tick, call}
use baggageclaim.Disk.Calls.{get_dir, put_dir, root_file}
use baggageclaim.Disk.Frame.{Places, Unchanged, NoFaults-Keeps}
use baggageclaim.Disk.FrameCalls.{node-set_node_self}
use baggageclaim.Disk.Runs.{mkdir_run, mkdir_files_run, symlink_run}
use baggageclaim.Volume.Metadata.Json.{Json}
use baggageclaim.Volume.Metadata.{properties_json, store_properties}
use baggageclaim.Volume.Metadata.Stored.{rewritten, write_metadata_file_run}
use baggageclaim.Volume.Filesystem.{volume_at, init_raw_volume, new_volume, new_subvolume}
use baggageclaim.Volume.Filesystem.Frame.{init_raw_volume-Keeps}
use baggageclaim.Volume.Strategy.Host.{Host}
use baggageclaim.Volume.Driver.Naive.{naive, naive-IsConfined, create_copy_on_write_layer}

-- A volume of the naive driver has a data directory, and the link to its parent.
abbrev pub IsLaidOut : Option String → Dir → Type 0
IsLaidOut parent d = (fs : List File) × (d.files ≡ some fs) × (d.parent ≡ parent)

-- a volume in init/, ready to be set up
abbrev pub Ready : String → Option String → World → Type 0
Ready h parent w =
    (d : Dir) × (node init h w ≡ some (directory d)) × (node dead h w ≡ none) × IsLaidOut parent d

layer_run :
    (host : Host) (child above : BaseVolume) (w : World) (c d : Dir) (fs : List File)
    → NoFaults w
    → node child.stage child.handle w ≡ some (directory c)
    → node above.stage above.handle w ≡ some (directory d)
    → d.files ≡ some fs
    → create_copy_on_write_layer host child above w ≡ (
      ok tt,
      set_node child.stage child.handle
          (directory (record c { files = some (host.cp false fs) }))
          (tick w),
    )
unfolding create_copy_on_write_layer call get_dir put_dir
layer_run host child above w c d fs nf at from files =
    rw (nf w.clock) (rw from (rw files (rw at refl)))

module _ (json : Json) (host : Host) (h : String) (w : World) (nf : NoFaults w)
    (free : node init h w ≡ none) (gone : node dead h w ≡ none) where
  -- the directory that initRawVolume makes
  abbrev raw : Dir
  raw = rewritten properties_json (json.properties.encode []) empty_dir

  init_raw_volume_run :
      ((init_raw_volume json (naive host) h w).0 ≡ ok (volume_at init h))
      × (node init h (init_raw_volume json (naive host) h w).1 ≡ some (directory raw))
  unfolding init_raw_volume store_properties
  init_raw_volume_run =
      let made = set_node init h (directory empty_dir) (tick w) in
      let (stored, at) =
        write_metadata_file_run (volume_at init h) properties_json json.properties [] made empty_dir
          nf (node-set_node_self init h (directory empty_dir) (tick w)) in
      rw (mkdir_run (volume_at init h) w nf free) (rw stored (refl, at))

  init_raw_volume-NoFaults : NoFaults (init_raw_volume json (naive host) h w).1
  init_raw_volume-NoFaults =
      NoFaults-Keeps (init_raw_volume json (naive host) h) w
        (init_raw_volume-Keeps json (naive host) (naive-IsConfined host) h (λ x. x)) nf

  -- the entries other than those of init/
  abbrev Outside : Places
  Outside s k = ¬ (s ≡ init)

  init_raw_volume-Outside : Unchanged Outside w (init_raw_volume json (naive host) h w).1
  init_raw_volume-Outside =
      (init_raw_volume-Keeps json (naive host) (naive-IsConfined host) h (λ p. p refl)).at w

  still_gone : node dead h (init_raw_volume json (naive host) h w).1 ≡ none
  still_gone = init_raw_volume-Outside.nodes dead h (λ e. cc e) ∙ gone

  pub new_volume_run :
      ((new_volume json (naive host) h w).0 ≡ ok (volume_at init h))
      × Ready h none (new_volume json (naive host) h w).1
  unfolding new_volume
  new_volume_run =
      let (made, at) = init_raw_volume_run in
      let v = volume_at init h in
      let w1 = (init_raw_volume json (naive host) h w).1 in
      rw made (
        rw (mkdir_files_run v w1 init_raw_volume-NoFaults raw at refl) (
          refl,
          (_, node-set_node_self init h _ (tick w1), still_gone, (root_file ∷ [], refl, refl)),
        ))

  pub new_subvolume_run :
      (parent : String) (above : Dir) {grand : Option String}
      → node live parent w ≡ some (directory above)
      → IsLaidOut grand above
      → ((new_subvolume json (naive host) (volume_at live parent) h w).0 ≡ ok (volume_at init h))
        × Ready h (some parent) (new_subvolume json (naive host) (volume_at live parent) h w).1
  unfolding new_subvolume
  new_subvolume_run parent above from (fs, files, linked) =
      let (made, at) = init_raw_volume_run in
      let v = volume_at init h in
      let w1 = (init_raw_volume json (naive host) h w).1 in
      let from1 = init_raw_volume-Outside.nodes live parent (λ e. cc e) ∙ from in
      let nf1 = init_raw_volume-NoFaults in
      let layered : Dir = record raw { files = some (host.cp false fs) } in
      let w2 : World = set_node init h (directory layered) (tick w1) in
      let at2 = node-set_node_self init h (directory layered) (tick w1) in
      rw made (
        rw (layer_run host v (volume_at live parent) w1 raw above fs nf1 at from1 files) (
          rw (symlink_run v w2 nf1 layered at2 parent refl) (
            refl,
            (_, node-set_node_self init h _ (tick w2), still_gone, (host.cp false fs, refl, refl)),
          )))
