-- ===== src/Uidgid/Walk.antt =====
-- uidgid/namespace.go: the owners of all files of a volume are mapped.
use baggageclaim.Prelude.{Option, none, some, List, [], ◌∷◌}
use baggageclaim.Disk.World.{File, Dir, BaseVolume}
use baggageclaim.Disk.Action.{Action, Result, ok, err, pure, attempt, call, ◌>>=◌}
use baggageclaim.Disk.Calls.{get_dir, put_dir}
use baggageclaim.Uidgid.Mapper.{Mapper}
use baggageclaim.Uidgid.Translator.{translate_path}

pub data Namespacer : Type 0 where
  uid_namespacer : Mapper → Namespacer
  noop_namespacer : Namespacer

-- `filepath.Walk` looks at each file, and ends where it cannot: `TranslatePath` hands the error back.
abbrev pub visit : Mapper → File → List File → Action (List File) → Result Unit → Action (List File)
visit m f fs rest (ok _) = do g ← translate_path m f; gs ← rest; pure (g ∷ gs)
visit m f fs rest (err _) = pure (f ∷ fs)

unfoldable pub walk : Mapper → List File → Action (List File)
walk m [] = pure []
walk m (f ∷ fs) = let rest = walk m fs in do looked ← attempt call; visit m f fs rest looked

abbrev pub walk_files : Mapper → BaseVolume → Dir → Option (List File) → Action Unit
walk_files m v d none = pure tt
walk_files m v d (some fs) = do gs ← walk m fs; put_dir v (record d { files = some gs })

-- An error of the walk is logged and dropped: the path is always said to be namespaced.
abbrev pub walk_dir : Mapper → BaseVolume → Result Dir → Action Unit
walk_dir m v (ok d) = walk_files m v d d.files
walk_dir m v (err _) = pure tt

unfoldable pub namespace_path : Namespacer → BaseVolume → Action Unit
unfolding get_dir put_dir
namespace_path (uid_namespacer m) v = do found ← attempt (get_dir v); walk_dir m v found
namespace_path noop_namespacer v = pure tt
