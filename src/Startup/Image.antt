-- ===== src/Startup/Image.antt =====
-- fs/btrfs.go: a btrfs file system in a file, mounted over a loop device.
use baggageclaim.Prelude.{ℕ, String, Option, none, some, List, [], ◌∷◌, nat_eq, if◌then◌else◌}
use baggageclaim.Disk.World.{Bytes}

-- What the server asks of the machine: the script of `Create`, which makes and mounts an image with
-- this size, and the commands and the calls of package os that `Delete` and the selection make.
pub data MachineRequest : Type 0 where
  make_image : (image_path mount_path mkfs_bin : String) (size_in_bytes : ℕ) → MachineRequest
  umount : (mount_path : String) → MachineRequest
  remove_all : (path : String) → MachineRequest
  find_loop : (image_path : String) → MachineRequest
  detach_loop : (device : Bytes) → MachineRequest
  remove : (path : String) → MachineRequest
  modprobe : (name : String) → MachineRequest

-- The machine is any function from the requests so far, the last one first, to what the next one
-- prints, or none where it fails.
abbrev pub Shell : Type 0
Shell = List MachineRequest → MachineRequest → Option Bytes

-- what a function of the start gives and, errors included, the requests that were made
abbrev pub Start : Type 0 → Type 0
Start A = List MachineRequest → Option A × List MachineRequest

pub record BtrfsFilesystem : Type 0 where
  pub image_path : String
  pub mount_path : String
  pub mkfs_bin : String

-- strings.Split of a text at colons, its first part: 58 is the colon
abbrev pub before_colon : Bytes → Bytes
before_colon [] = []
before_colon (b ∷ bs) = if nat_eq b 58 then [] else b ∷ before_colon bs

abbrev pub and_then : {A B : Type 0} → Option A → (A → Start B) → Start B
and_then none next asked = (none, asked)
and_then (some a) next asked = next a asked

infixl 5 ◌>>=◌
abbrev pub ◌>>=◌ : {A B : Type 0} → Start A → (A → Start B) → Start B
◌>>=◌ m next asked = let (o, asked') = m asked in and_then o next asked'

module _ (machine : Shell) where
  unfoldable pub run : MachineRequest → Start Bytes
  run r asked = (machine asked r, r ∷ asked)

  unfoldable pub create : BtrfsFilesystem → ℕ → Start Unit
  create fs bytes = run (make_image fs.image_path fs.mount_path fs.mkfs_bin bytes) >>= λ out asked.
      (some tt, asked)

  unfoldable pub delete : BtrfsFilesystem → Start Unit
  delete fs = run (umount fs.mount_path) >>= λ u. run (remove_all fs.mount_path) >>= λ r.
      run (find_loop fs.image_path) >>= λ out. run (detach_loop (before_colon out)) >>= λ d.
      run (remove fs.image_path) >>= λ x asked. (some tt, asked)
