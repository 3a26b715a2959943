-- ===== src/Volume/Strategy/Host.antt =====
-- What is not part of the program: the host's own files, and the commands `cp` and `tar`.
use baggageclaim.Prelude.{String, Bool, Option, List}
use baggageclaim.Disk.World.{Bytes, File, BaseVolume, World}
use baggageclaim.Disk.Action.{Error, Action}

pub data HostNode : Type 0 where
  missing : HostNode
  host_dir : List File → HostNode
  host_file : Bytes → HostNode

pub data Encoding : Type 0 where
  gzip zstd : Encoding

-- how `exec.Cmd.Run` of tar ends: well, with an *exec.ExitError, or with another error
pub data TarExit : Type 0 where
  exit_ok exit_error not_started : TarExit

pub record Host : Type 0 where
  pub files : String → HostNode
  -- what `cp -a` or, following symbolic links, `cp -Lr` makes of a directory
  pub cp : Bool → List File → List File
  -- os.Stat and os.MkdirAll of a path below a data directory
  pub has_path : String → List File → Bool
  pub make_path : String → List File → List File
  -- `tar -x` at a path, in a user namespace or not; what it has written before it failed stays
  pub untar : Encoding → Bool → String → Bytes → List File → TarExit × List File
  pub tar : Encoding → Bool → String → List File → TarExit × Bytes
  -- Whether filepath.Join of a data directory and a path, with symbolic links followed, is a place of
  -- that directory; the path may hold `..`, and then it may be any place of the host.
  pub stays : BaseVolume → String → World → Bool
  -- os.MkdirAll, `tar -x` and `tar -c` at a path that leads elsewhere
  pub make_elsewhere : BaseVolume → String → Action Unit
  pub untar_elsewhere : Encoding → Bool → BaseVolume → String → Bytes → Action (Bool × Option Error)
  pub tar_elsewhere : Encoding → Bool → BaseVolume → String → World → TarExit × Bytes
