-- ===== src/Examples/Owners.antt =====
-- The mappings of the owners of files, and the lines of a uid_map.
use baggageclaim.Prelude.{◌≡◌, refl, false, some, List, [], ◌∷◌, map, All, arith}
use baggageclaim.Prelude.Table.{get}
use baggageclaim.Disk.World.{File, World, live, directory, empty_dir, node, Stage, Node}
use baggageclaim.Prelude.Table.{Table}
use baggageclaim.Disk.Action.{◌>>◌}
use baggageclaim.Uidgid.Mapper.{new_privileged_mapper, new_unprivileged_mapper}
use baggageclaim.Uidgid.MaxValid.{
  MapLine, max_valid, max_valid_from, min_uint, last_id, max_valid-last,
}
use baggageclaim.Uidgid.Walk.{namespace_path, uid_namespacer}
use baggageclaim.Uidgid.Privilege.{
  NotOwnedBy, IsPlain, unrooted, unprivileged-NotOwnedBy_root, privileged-unprivileged,
}
use baggageclaim.Volume.Filesystem.{volume_at}
use baggageclaim.Examples.Setting.{empty_world}

-- a set-id program of root, and a file of user 7
abbrev two_files : List File
two_files =
    record { path = "su"; uid = 0; gid = 0; mode = 0o4755; is_symlink = false; content = [] }
    ∷ record { path = "note"; uid = 7; gid = 7; mode = 0o644; is_symlink = false; content = [] }
    ∷ []

abbrev live_rootfs : Stage → Table Node
live_rootfs live = ("rootfs", directory (record empty_dir { files = some two_files })) ∷ []
live_rootfs _ = []

abbrev rootfs_world : World
rootfs_world = record empty_world { tables = live_rootfs }

rootfs_found :
    node live "rootfs" rootfs_world ≡ some (directory (record empty_dir { files = some two_files }))
unfolding get
rootfs_found = refl

two_files-IsPlain : All (IsPlain 1000) two_files
two_files-IsPlain = (
  ((omega arith, omega arith), λ h. absurd (cc h)),
  (((omega arith, omega arith), λ h. absurd (cc h)), tt),
)

unprivileged-NotOwnedBy_root_example :
    (node live "rootfs"
        (namespace_path
          (uid_namespacer (new_unprivileged_mapper 1000))
          (volume_at live "rootfs")
          rootfs_world).1
      ≡ some (directory (record empty_dir { files = some (map (unrooted 1000) two_files) })))
    × All (NotOwnedBy 0) (map (unrooted 1000) two_files)
unprivileged-NotOwnedBy_root_example =
    unprivileged-NotOwnedBy_root 1000 (volume_at live "rootfs") empty_dir two_files rootfs_world
      (omega arith) (λ n. refl) rootfs_found

privileged-unprivileged_example :
    node live "rootfs"
      ((namespace_path (uid_namespacer (new_unprivileged_mapper 1000)) (volume_at live "rootfs")
          >> namespace_path (uid_namespacer (new_privileged_mapper 1000)) (volume_at live "rootfs"))
        rootfs_world).1
    ≡ some (directory (record empty_dir { files = some two_files }))
privileged-unprivileged_example =
    privileged-unprivileged 1000 (volume_at live "rootfs") empty_dir two_files rootfs_world
      (λ n. refl) rootfs_found two_files-IsPlain

abbrev whole_range : MapLine
whole_range = record { container = 0; host = 0; size = 4294967295 }

abbrev small_range : MapLine
small_range = record { container = 5; host = 5; size = 1 }

one_line : max_valid (some whole_range ∷ []) ≡ some 4294967294
unfolding max_valid max_valid_from min_uint last_id
one_line = refl

max_valid-last_example : max_valid (some whole_range ∷ some small_range ∷ []) ≡ some 5
max_valid-last_example =
    max_valid-last (some whole_range ∷ []) 4294967294 small_range one_line (omega arith)
      (omega arith)
