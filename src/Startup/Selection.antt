-- ===== src/Startup/Selection.antt =====
-- `driver` and `supportsFilesystem` of baggageclaimcmd/driver_linux.go.
use baggageclaim.Prelude.{
  ℕ, String, Bool, true, false, Option, none, some, List, [], ◌∷◌, ◌+◌, ◌-◌, ◌*◌, ◌%◌, ◌^◌, ltb,
  nat_eq, not, ◌==◌, ◌&&◌, ◌||◌, if◌then◌else◌,
}
use Prim.Native.String.{◌++◌}
use baggageclaim.Disk.World.{Bytes}
use baggageclaim.Startup.Image.{MachineRequest, modprobe, Shell, BtrfsFilesystem, run, create}

-- what bufio's ReadLine gives of /proc/filesystems, to its end or to an error
pub data Listing : Type 0 where
  end_of_file read_failed : Listing
  line : Bytes → Listing → Listing

-- syscall.Statfs_t, from which `driver` takes the type of the file system and its size in blocks; the
-- fields are words of 64 bits
pub record FsStat : Type 0 where
  pub fs_type : ℕ
  pub blocks : ℕ
  pub bsize : ℕ

-- what the calls that only look at the machine return, none where they fail: syscall.Statfs of the
-- volumes directory, kernel.CheckKernelVersion(4, 0, 0), os.Open of /proc/filesystems with its lines,
-- and exec.LookPath
pub record Host : Type 0 where
  pub statfs : Option FsStat
  pub kernel_supports_overlay : Option Bool
  pub filesystems : Option Listing
  pub look_path : String → Bool

-- the fields of `BaggageclaimCommand` that `driver` reads
pub record BaggageclaimCommand : Type 0 where
  pub volumes_dir : String
  pub driver : String
  pub btrfs_bin : String
  pub mkfs_bin : String
  pub overlays_dir : String

pub data StartDriver : Type 0 where
  overlay_driver : (overlays_dir : String) → StartDriver
  btrfs_driver : (btrfs_bin : String) → StartDriver
  naive_driver : StartDriver

pub data StartError : Type 0 where
  stat_failed check_failed detect_failed create_failed kernel_too_old : StartError
  unknown_driver : String → StartError

pub data Selected : Type 0 where
  using : StartDriver → Selected
  failed : StartError → Selected

-- btrfsFSType
abbrev pub btrfs_fs_type : ℕ
btrfs_fs_type = 0x9123683e

-- 10 * 1024 * 1024 * 1024
abbrev pub reserve : ℕ
reserve = 10737418240

-- bytes.HasPrefix and bytes.Contains
abbrev pub starts_with : Bytes → Bytes → Bool
starts_with bs [] = true
starts_with [] (m ∷ ms) = false
starts_with (b ∷ bs) (m ∷ ms) = nat_eq b m && starts_with bs ms

abbrev pub contains : Bytes → Bytes → Bool
contains [] ms = starts_with [] ms
contains (b ∷ bs) ms = starts_with (b ∷ bs) ms || contains bs ms

abbrev pub scan : Bytes → Listing → Option Bool
scan fs_match end_of_file = some false
scan fs_match read_failed = none
scan fs_match (line bs rest) = if contains bs fs_match then some true else scan fs_match rest

-- `supportsFilesystem`
abbrev pub supports_filesystem : Bytes → Option Listing → Option Bool
supports_filesystem fs none = none
supports_filesystem fs (some lines) = scan fs lines

-- "btrfs"
abbrev pub btrfs_bytes : Bytes
btrfs_bytes = 98 ∷ 116 ∷ 114 ∷ 102 ∷ 115 ∷ []

-- the arithmetic of uint64
unfoldable pub disk_size : FsStat → ℕ
disk_size stat = (stat.blocks * stat.bsize) % 2 ^ 64

-- int64 of a word is negative where its highest bit is set.
unfoldable pub mount_size : ℕ → ℕ
mount_size size =
    let rest = (size + 2 ^ 64 - reserve) % 2 ^ 64 in if ltb rest (2 ^ 63) then rest else size

-- what the value "detect" of cmd.Driver is replaced by
abbrev pub detected : Bool → Bool → String
detected supports_btrfs kernel_supports_overlay =
    if supports_btrfs then "btrfs" else if kernel_supports_overlay then "overlay" else "naive"

abbrev pub driver_name : String → Bool → Bool → String
driver_name configured supports_btrfs kernel_supports_overlay =
    if configured == "detect" then detected supports_btrfs kernel_supports_overlay else configured

module _ (machine : Shell) (cmd : BaggageclaimCommand) where
  abbrev pub image : BtrfsFilesystem
  image = record {
    image_path = cmd.volumes_dir ++ ".img";
    mount_path = cmd.volumes_dir;
    mkfs_bin = cmd.mkfs_bin;
  }

  abbrev pub pick : String → Bool → Selected
  pick name kernel_supports_overlay =
      if (name == "overlay") && not kernel_supports_overlay
      then failed kernel_too_old
      else if name == "overlay"
      then using (overlay_driver cmd.overlays_dir)
      else if name == "btrfs"
      then using (btrfs_driver cmd.btrfs_bin)
      else if name == "naive"
      then using naive_driver
      else failed (unknown_driver name)

  abbrev pub if_created :
      String → Bool → Option (Unit {0}) × List MachineRequest → Selected × List MachineRequest
  if_created name kernel_supports_overlay (none, asked) = (failed create_failed, asked)
  if_created name kernel_supports_overlay (some _, asked) =
      (pick name kernel_supports_overlay, asked)

  abbrev pub prepare : String → FsStat → Bool → List MachineRequest → Selected × List MachineRequest
  prepare name stat kernel_supports_overlay asked =
      if (name == "btrfs") && not (nat_eq (stat.fs_type % 2 ^ 32) btrfs_fs_type)
      then if_created name kernel_supports_overlay
          (create machine image (mount_size (disk_size stat)) asked)
      else (pick name kernel_supports_overlay, asked)

  abbrev pub if_supported :
      Host → FsStat → Bool → Option Bool → List MachineRequest → Selected × List MachineRequest
  if_supported host stat kernel_supports_overlay none asked = (failed detect_failed, asked)
  if_supported host stat kernel_supports_overlay (some listed) asked =
      let supports_btrfs = listed && host.look_path cmd.btrfs_bin && host.look_path cmd.mkfs_bin in
      prepare (driver_name cmd.driver supports_btrfs kernel_supports_overlay) stat
        kernel_supports_overlay asked

  -- what modprobe gives is not looked at
  abbrev pub if_checked :
      Host → FsStat → Option Bool → List MachineRequest → Selected × List MachineRequest
  if_checked host stat none asked = (failed check_failed, asked)
  if_checked host stat (some kernel_supports_overlay) asked =
      if_supported host stat kernel_supports_overlay
        (supports_filesystem btrfs_bytes host.filesystems) (run machine (modprobe "btrfs") asked).1

  abbrev pub if_stat : Host → Option FsStat → List MachineRequest → Selected × List MachineRequest
  if_stat host none asked = (failed stat_failed, asked)
  if_stat host (some stat) asked = if_checked host stat host.kernel_supports_overlay asked

  unfoldable pub select_driver : Host → List MachineRequest → Selected × List MachineRequest
  select_driver host asked = if_stat host host.statfs asked
