-- ===== src/Volume/Driver/Overlay/Defs.antt =====
-- The operations of `OverlayDriver`, on the disk and what it adds to it.
use baggageclaim.Prelude.{
  ℕ, String, Bool, false, Option, none, some, List, [], ◌∷◌, ◌==◌, if◌then◌else◌, ◌&&◌, ◌||◌, ◌++◌,
}
use baggageclaim.Prelude.Table.{Table, get, put, delete}
use baggageclaim.Disk.World.{File, Node, regular, directory, node, BaseVolume, World, same_stage}
use baggageclaim.Disk.Action.{
  Error, syscall, exist, not_exist, not_directory, cp_failed, stack_overflow, Result, ok, err,
  Action, call,
}
use baggageclaim.Disk.Action
use baggageclaim.Disk.Calls.{get_dir, mkdir_files, remove_files}
use baggageclaim.Volume.Filesystem
use baggageclaim.Volume.Filesystem.{parent}
use baggageclaim.Volume.Strategy.Host.{Host}
use baggageclaim.Volume.Driver.Overlay.Root.{climb}

-- What is mounted at a data directory: by bindMount a layer, by overlayMount a layer and a work
-- directory over the data directory of another volume.
pub data Source : Type 0 where
  bind : (layer : String) → Source
  overlay : (lower : BaseVolume) → (layer work : String) → Source

pub record Mount : Type 0 where
  pub target : BaseVolume
  pub source : Source

abbrev pub bind_of : BaseVolume → Mount
bind_of v = record { target = v; source = bind v.handle }

abbrev pub overlay_of : BaseVolume → BaseVolume → Mount
overlay_of child lower = record { target = child; source = overlay lower child.handle child.handle }

-- `layerDir` and `workDir` are directories of OverlaysDir with the name of a handle. The last mount
-- comes first. What the files of a mounted directory look like through the mount is not followed.
pub record Machine : Type 0 where
  pub world : World
  pub layers : Table (List File)
  pub works : Table (List File)
  pub mounts : List Mount

abbrev pub Step : Type 0 → Type 0
Step A = Machine → Result A × Machine

module _ {A : Type 0} where
  abbrev pub pure : A → Step A
  pure a m = (ok a, m)

  abbrev pub raise : Error → Step A
  raise e m = (err e, m)

  -- a call on the disk
  abbrev pub on_disk : Action A → Step A
  on_disk f m = let (r, w) = f m.world in (r, record m { world = w })

abbrev pub change : (Machine → Machine) → Step Unit
change f m = (ok tt, f m)

abbrev pub continue : {A B : Type 0} → (A → Step B) → Result A → Step B
continue f (ok a) = f a
continue f (err e) = raise e

infixl 5 ◌>>=◌ ◌>>◌
abbrev pub ◌>>=◌ : {A B : Type 0} → Step A → (A → Step B) → Step B
◌>>=◌ s f m = let (r, m') = s m in continue f r m'

abbrev pub ◌>>◌ : {A B : Type 0} → Step A → Step B → Step B
s >> t = s >>= λ _. t

-- os.MkdirAll: a directory that is there is no error
abbrev pub present : {A : Type 0} → A → String → Table A → Table A
present a h t = elim (get h t) [ none ↦ put h a t | some _ ↦ t ]

unfoldable pub mkdir_layer : String → Step Unit
mkdir_layer h = do on_disk call; change (λ m. record m { layers = present [] h m.layers })

unfoldable pub mkdir_work : String → Step Unit
mkdir_work h = do on_disk call; change (λ m. record m { works = present [] h m.works })

abbrev pub if_made : Result Unit → Step Unit
if_made (ok u) = pure tt
if_made (err exist) = pure tt
if_made (err e) = raise e

unfoldable pub mkdir_all_files : BaseVolume → Step Unit
mkdir_all_files v = do made ← on_disk (Action.attempt (mkdir_files v)); if_made made

unfoldable pub remove_layer : String → Step Unit
remove_layer h = do on_disk call; change (λ m. record m { layers = delete h m.layers })

unfoldable pub remove_work : String → Step Unit
remove_work h = do on_disk call; change (λ m. record m { works = delete h m.works })

-- syscall.Mount: the data directory is there
abbrev pub mount_at : Mount → Option (List File) → Step Unit
mount_at new none = raise not_exist
mount_at new (some fs) = change (λ m. record m { mounts = new ∷ m.mounts })

unfoldable pub mount : Mount → Step Unit
mount new = do on_disk call; d ← on_disk (get_dir new.target); mount_at new d.files

abbrev pub same_volume : BaseVolume → BaseVolume → Bool
same_volume v u = same_stage v.stage u.stage && v.handle == u.handle

-- syscall.Unmount takes the last mount away.
unfoldable pub without : BaseVolume → List Mount → Option (List Mount)
without v [] = none
without v (m ∷ ms) =
    let rest = without v ms in
    if same_volume v m.target then some ms else elim rest [ none ↦ none | some l ↦ some (m ∷ l) ]

-- Without a mount there is an error: EINVAL, or that of a path that does not lead to a data directory.
abbrev pub no_mount : Option Node → Error
no_mount none = not_exist
no_mount (some regular) = not_directory
no_mount (some (directory d)) = elim d.files [ none ↦ not_exist | some _ ↦ syscall 22 ]

abbrev pub if_mounted : Error → Option (List Mount) → Step Unit
if_mounted e none = raise e
if_mounted e (some ms) = change (λ m. record m { mounts = ms })

unfoldable pub unmount : BaseVolume → Step Unit
unmount v = do
  on_disk call
  found ← on_disk (Action.read (node v.stage v.handle))
  λ m. if_mounted (no_mount found) (without v m.mounts) m

unfoldable pub bind_mount : BaseVolume → Step Unit
bind_mount v = do mkdir_layer v.handle; mount (bind_of v)

unfoldable pub overlay_mount : BaseVolume → BaseVolume → Step Unit
overlay_mount child lower = do
  mkdir_layer child.handle
  mkdir_work child.handle
  mount (overlay_of child lower)

unfoldable pub create_volume : BaseVolume → Step Unit
create_volume v = do on_disk (mkdir_files v); bind_mount v

-- The error of Unmount is never os.ErrInvalid: every one of them ends the function.
unfoldable pub destroy_volume : BaseVolume → Step Unit
destroy_volume v = do
  unmount v
  remove_work v.handle
  remove_layer v.handle
  on_disk (remove_files v)

abbrev pub has_path : String → List File → Bool
has_path p [] = false
has_path p (f ∷ fs) = f.path == p || has_path p fs

-- What was there under other paths stays.
abbrev pub not_copied : List File → List File → List File
not_copied new [] = []
not_copied new (f ∷ fs) =
    let rest = not_copied new fs in if has_path f.path new then rest else f ∷ rest

abbrev pub over : List File → Option (List File) → List File
over new none = new
over new (some old) = new ++ not_copied new old

abbrev pub copy_to : Host → String → Option (List File) → Step Unit
copy_to host to none = raise cp_failed
copy_to host to (some fs) =
    change (λ m. record m { layers = put to (over (host.cp false fs) (get to m.layers)) m.layers })

module _ (host : Host) where
  -- `copy.Cp` of one layer to another
  unfoldable pub copy_layer : String → String → Step Unit
  copy_layer from to = do on_disk call; λ m. copy_to host to (get from m.layers) m

-- the first loop of Recover: the volumes with a parent are left for the second one
abbrev pub recover_as :
    BaseVolume
    → Step (List (BaseVolume × BaseVolume))
    → Option BaseVolume
    → Step (List (BaseVolume × BaseVolume))
recover_as v rest (some u) = do cows ← rest; pure ((v, u) ∷ cows)
recover_as v rest none = do bind_mount v; rest

unfoldable pub recover_each : List BaseVolume → Step (List (BaseVolume × BaseVolume))
recover_each [] = pure []
recover_each (v ∷ vs) = let rest = recover_each vs in do u ← on_disk (parent v); recover_as v rest u

module _ (host : Host) (n : ℕ) where
  abbrev pub root_of : BaseVolume → BaseVolume → Option BaseVolume → Step BaseVolume
  root_of child above none = pure above
  root_of child above (some u) = do copy_layer host above.handle child.handle; on_disk (climb n u)

  unfoldable pub find_root_parent : BaseVolume → BaseVolume → Step BaseVolume
  find_root_parent child above = do u ← on_disk (parent above); root_of child above u

  unfoldable pub create_copy_on_write_layer : BaseVolume → BaseVolume → Step Unit
  create_copy_on_write_layer child above = do
    mkdir_all_files child
    root ← find_root_parent child above
    overlay_mount child root

  unfoldable pub recover_cows : List (BaseVolume × BaseVolume) → Step Unit
  recover_cows [] = pure tt
  recover_cows ((child, above) ∷ cows) =
      let rest = recover_cows cows in
      do root ← find_root_parent child above; overlay_mount child root; rest

  unfoldable pub recover : Step Unit
  recover = do vs ← on_disk Filesystem.list_volumes; cows ← recover_each vs; recover_cows cows
