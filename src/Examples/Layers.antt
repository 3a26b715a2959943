-- ===== src/Examples/Layers.antt =====
-- Mounts of the overlay driver over a volume and its copy-on-write child.
use baggageclaim.Prelude.{◌<◌, ◌≢◌, String, ◌≡◌, refl, none, some, List, [], ◌∷◌, All, arith, ◌⊎◌}
use baggageclaim.Prelude.Table.{get, put, keys}
use baggageclaim.Disk.World.{BaseVolume, live, Dir, File, node, directory}
use baggageclaim.Disk.Action.{ok, err, call, not_exist, stack_overflow, syscall, tick}
use baggageclaim.Disk.Calls.{get_dir, eval_symlinks, read_dir}
use baggageclaim.Volume.Filesystem
use baggageclaim.Volume.Filesystem.{volume_at, parent}
use baggageclaim.Volume.Repository.Descendants.Pruned.{Below}
use baggageclaim.Volume.Driver.Overlay.{
  Machine, mkdir_layer, mkdir_work, mount, bind_mount, overlay_mount, find_root_parent,
  recover_each, recover_cows, recover, bind_of, without, destroy_volume,
}
use baggageclaim.Volume.Driver.Overlay.Root.{climb, IsRoot, climb_fuel, climb-IsRoot}
use baggageclaim.Volume.Driver.Overlay.Served.{Recovered}
use baggageclaim.Volume.Driver.Overlay.Recovered.{recover_mounts}
use baggageclaim.Volume.Driver.Overlay.Destroy.{destroy_volume_lem}
use baggageclaim.Examples.Setting.{host}
use baggageclaim.Examples.Descendants.{family_world, rank, family_world-Ranked}

abbrev unmounted : Machine
unmounted = record {
  world = family_world;
  layers = ("base", []) ∷ ("layer", []) ∷ [];
  works = [];
  mounts = [];
}

rank_bounded : (k : String) → rank k < 2
rank_bounded k = ground arith

climb_fuel_example :
    ((climb 2 (volume_at live "layer") family_world).0 ≢ err stack_overflow)
    × (climb 2 (volume_at live "layer") family_world
        ≡ climb 5 (volume_at live "layer") family_world)
climb_fuel_example =
    climb_fuel rank 2 rank_bounded 2 5 "layer" family_world family_world-Ranked (omega arith)
      (omega arith)

climbing : (climb 2 (volume_at live "layer") family_world).0 ≡ ok (volume_at live "base")
unfolding climb parent eval_symlinks get_dir call get
climbing = refl

climb-IsRoot_example : Below family_world "base" "layer" × IsRoot family_world "base"
climb-IsRoot_example = climb-IsRoot 2 "layer" family_world (volume_at live "base") climbing

abbrev both : List BaseVolume
both = volume_at live "base" ∷ volume_at live "layer" ∷ []

listing : (Filesystem.list_volumes family_world).0 ≡ ok both
unfolding Filesystem.list_volumes read_dir call keys
listing = refl

recovering : (recover host 2 unmounted).0 ≡ ok tt
unfolding recover recover_each recover_cows find_root_parent bind_mount overlay_mount mkdir_layer
    mkdir_work mount Filesystem.list_volumes read_dir parent eval_symlinks get_dir call keys get put
recovering = refl

recover_mounts_example : All (Recovered family_world (recover host 2 unmounted).1) both
recover_mounts_example = recover_mounts host 2 unmounted both listing recovering

abbrev mounted : Machine
mounted = record unmounted { mounts = bind_of (volume_at live "base") ∷ [] }

destroy_volume_lem_example :
    ((d : Dir) (fs : List File)
      → node live "base" family_world ≡ some (directory (record d { files = some fs }))
      → without (volume_at live "base") mounted.mounts ≡ none
      → destroy_volume (volume_at live "base") mounted
        ≡ (err (syscall 22), record mounted { world = tick family_world }))
    × ((node live "base" family_world ≡ none)
          ⊎ ((d : Dir) × (node live "base" family_world
                ≡ some (directory (record d { files = none }))))
        → without (volume_at live "base") mounted.mounts ≡ none
        → destroy_volume (volume_at live "base") mounted
          ≡ (err not_exist, record mounted { world = tick family_world }))
    × (without (volume_at live "base") mounted.mounts ≡ some []
        → let m' = (destroy_volume (volume_at live "base") mounted).1 in
          (m'.mounts ≡ []) × (get "base" m'.layers ≡ none) × (get "base" m'.works ≡ none))
destroy_volume_lem_example = destroy_volume_lem (volume_at live "base") mounted [] (λ n. refl)

-- the second half is of use: there is a mount
mounted_once : without (volume_at live "base") mounted.mounts ≡ some []
unfolding without
mounted_once = refl
