-- ===== src/Volume/Strategy/Defs.antt =====
-- `Materialize` of the three strategies, and the streamer that the import strategy unpacks with.
use baggageclaim.Prelude.{
  String, Bool, true, false, not, Option, none, some, List, ◌==◌, if◌then◌else◌,
}
use baggageclaim.Disk.World.{Bytes, File, BaseVolume}
use baggageclaim.Disk.Action.{
  Error, not_exist, tar_failed, no_parent_volume_provided, parent_volume_not_found, Result, ok, err,
  Action, pure, raise, done, attempt, call, ◌>>=◌, ◌>>◌,
}
use baggageclaim.Disk.Calls.{get_dir, put_dir}
use baggageclaim.Volume.Metadata.Json.{Json}
use baggageclaim.Volume.Filesystem.{Driver, lookup_volume, new_volume, new_subvolume}
use baggageclaim.Volume.Strategy.Host.{
  HostNode, missing, host_dir, host_file, Encoding, gzip, zstd, TarExit, exit_ok, exit_error,
  not_started, Host,
}
use baggageclaim.Volume.Strategy.Strategerizer.{
  Strategy, empty_strategy, cow_strategy, import_strategy,
}

-- the files below a data directory, where there is one
abbrev pub as_files : Option (List File) → Result (List File)
as_files none = err not_exist
as_files (some fs) = ok fs

module _ (host : Host) where
  abbrev pub at_path : String → List File → Result (List File)
  at_path path fs = if host.has_path path fs then ok fs else err not_exist

  -- `tarCmd` opens the directory that tar works in.
  unfoldable pub open_path : BaseVolume → String → Action (List File)
  open_path v path = do call; d ← get_dir v; fs ← done (as_files d.files); done (at_path path fs)

  -- The pair of a Boolean and an error that `In` returns: whether the stream was to blame.
  abbrev pub exit_pair : TarExit → Bool × Option Error
  exit_pair exit_ok = (false, none)
  exit_pair exit_error = (true, some tar_failed)
  exit_pair not_started = (false, some tar_failed)

  unfoldable pub run_untar :
      Encoding → Bool → BaseVolume → String → Bytes → List File → Action (Bool × Option Error)
  run_untar encoding privileged v path stream fs = do
    d ← get_dir v
    let (exit, gs) = host.untar encoding (not privileged) path stream fs
    put_dir v (record d { files = some gs })
    pure (exit_pair exit)

  -- zstd.NewReader can fail; the gzip streamer has no such step
  abbrev pub new_reader : Encoding → Action Unit
  new_reader gzip = pure tt
  new_reader zstd = call

  abbrev pub or_failed : Result (Bool × Option Error) → Action (Bool × Option Error)
  or_failed (ok p) = pure p
  or_failed (err e) = pure (false, some e)

  unfoldable pub unpack :
      Encoding → BaseVolume → String → Bytes → Bool → Action (Bool × Option Error)
  unpack encoding v path stream privileged = do
    fs ← open_path v path
    new_reader encoding
    run_untar encoding privileged v path stream fs

  -- `In` of tarGzipStreamer and tarZstdStreamer
  unfoldable pub stream_to :
      Encoding → BaseVolume → String → Bytes → Bool → Action (Bool × Option Error)
  stream_to encoding v path stream privileged = do
    outcome ← attempt (unpack encoding v path stream privileged)
    or_failed outcome

  unfoldable pub copy_into_volume : Bool → List File → BaseVolume → Action Unit
  copy_into_volume follow fs v = do
    call
    d ← get_dir v
    put_dir v (record d { files = some (host.cp follow fs) })

  abbrev pub if_unpacked : Bool × Option Error → Action Unit
  if_unpacked (_, none) = pure tt
  if_unpacked (_, some e) = raise e

  abbrev pub import_node : Bool → BaseVolume → HostNode → Action Unit
  import_node follow v missing = raise not_exist
  import_node follow v (host_dir fs) = copy_into_volume follow fs v
  import_node follow v (host_file stream) = do
    call
    result ← stream_to gzip v "" stream true
    if_unpacked result

module _ (json : Json) (driver : Driver) (host : Host) where
  abbrev pub if_found : String → Option BaseVolume → Action BaseVolume
  if_found h none = raise parent_volume_not_found
  if_found h (some above) = new_subvolume json driver above h

  unfoldable pub materialize_cow : String → String → Action BaseVolume
  materialize_cow parent_handle h =
      if parent_handle == ""
      then raise no_parent_volume_provided
      else do found ← lookup_volume parent_handle; if_found h found

  -- An error after the volume is made leaves it in init/.
  unfoldable pub materialize_import : String → Bool → String → Action BaseVolume
  materialize_import path follow h = do
    v ← new_volume json driver h
    call
    import_node host follow v (host.files path)
    pure v

  unfoldable pub materialize : Strategy → String → Action BaseVolume
  materialize empty_strategy h = new_volume json driver h
  materialize (cow_strategy parent_handle) h = materialize_cow parent_handle h
  materialize (import_strategy path follow) h = materialize_import path follow h
