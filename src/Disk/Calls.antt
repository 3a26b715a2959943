-- ===== src/Disk/Calls.antt =====
-- The calls of Go's package os on the directories of volumes.
use baggageclaim.Prelude.{String, false, Option, none, some, List, [], ◌∷◌}
use baggageclaim.Prelude.Table.{keys}
use baggageclaim.Disk.World.{
  File, Dir, empty_dir, Node, regular, directory, Stage, live, BaseVolume, World, entries, node,
  set_node, delete_node,
}
use baggageclaim.Disk.Action.{
  not_exist, exist, not_directory, Result, ok, err, Action, pure, raise, done, read, change, call,
  ◌>>=◌, ◌>>◌,
}

-- the directory that a path goes through: ENOENT where it is missing, ENOTDIR where it is a file
abbrev pub as_dir : Option Node → Result Dir
as_dir none = err not_exist
as_dir (some regular) = err not_directory
as_dir (some (directory d)) = ok d

unfoldable pub get_dir : BaseVolume → Action Dir
get_dir v w = (as_dir (node v.stage v.handle w), w)

unfoldable pub put_dir : BaseVolume → Dir → Action Unit
put_dir v d w = (ok tt, set_node v.stage v.handle (directory d) w)

-- os.Mkdir
abbrev pub make_dir : BaseVolume → Option Node → Action Unit
make_dir v none = change (set_node v.stage v.handle (directory empty_dir))
make_dir v (some _) = raise exist

unfoldable pub mkdir : BaseVolume → Action Unit
unfolding call
mkdir v = do call; found ← read (node v.stage v.handle); make_dir v found

-- os.Stat of the directory of a volume
abbrev pub as_node : Option Node → Result Node
as_node none = err not_exist
as_node (some n) = ok n

unfoldable pub stat : BaseVolume → Action Node
unfolding call
stat v = do call; found ← read (node v.stage v.handle); done (as_node found)

-- ioutil.ReadDir
unfoldable pub read_dir : Stage → Action (List String)
unfolding call
read_dir s = do call; read (λ w. keys (entries s w))

-- os.RemoveAll: a missing path is no error
unfoldable pub remove_all : BaseVolume → Action Unit
unfolding call
remove_all v = do call; change (delete_node v.stage v.handle)

-- What os.Rename of a directory comes to by what stands at the target: Go refuses any directory there,
-- and the system a file.
abbrev pub replace : Option Node → Result Unit
replace none = ok tt
replace (some regular) = err not_directory
replace (some (directory d)) = err exist

unfoldable pub move : BaseVolume → BaseVolume → Dir → Action Unit
move v u d w = (ok tt, set_node u.stage u.handle (directory d) (delete_node v.stage v.handle w))

-- os.Rename of the directory of a volume
unfoldable pub rename : BaseVolume → BaseVolume → Action Unit
unfolding call get_dir move
rename v u = do
  call
  d ← get_dir v
  target ← read (node u.stage u.handle)
  done (replace target)
  move v u d

-- os.Symlink to the entry `target` of live/, as the link `parent` of a volume
abbrev pub link : BaseVolume → String → Dir → Option String → Action Unit
link v target d none = put_dir v (record d { parent = some target })
link v target d (some _) = raise exist

unfoldable pub symlink : String → BaseVolume → Action Unit
unfolding call get_dir put_dir
symlink target v = do call; d ← get_dir v; link v target d d.parent

-- filepath.EvalSymlinks of the link `parent`
abbrev pub follow : Option String → World → Result String
follow none w = err not_exist
follow (some h) w = elim (node live h w) [ none ↦ err not_exist | some _ ↦ ok h ]

unfoldable pub eval_symlinks : BaseVolume → Action String
unfolding call get_dir
eval_symlinks v = do call; d ← get_dir v; target ← read (follow d.parent); done target

-- a new data directory, as the walk over it sees it: 0755, owned by root
abbrev pub root_file : File
root_file = record { path = "."; uid = 0; gid = 0; mode = 0o755; is_symlink = false; content = [] }

-- os.Mkdir of the data directory
abbrev pub make_files : BaseVolume → Dir → Option (List File) → Action Unit
make_files v d none = put_dir v (record d { files = some (root_file ∷ []) })
make_files v d (some _) = raise exist

unfoldable pub mkdir_files : BaseVolume → Action Unit
unfolding call get_dir put_dir
mkdir_files v = do call; d ← get_dir v; make_files v d d.files

-- os.RemoveAll of the data directory
abbrev pub clear_files : BaseVolume → Option Node → Action Unit
clear_files v none = pure tt
clear_files v (some regular) = raise not_directory
clear_files v (some (directory d)) = put_dir v (record d { files = none })

unfoldable pub remove_files : BaseVolume → Action Unit
unfolding call put_dir
remove_files v = do call; found ← read (node v.stage v.handle); clear_files v found
