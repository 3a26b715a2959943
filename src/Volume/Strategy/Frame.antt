-- ===== src/Volume/Strategy/Frame.antt =====
-- Which entries the strategies may change.
use baggageclaim.Prelude.{String, ◌≡◌, Bool, Option, none, some, List, ◌==◌, Bool-cases, inl, inr}
use baggageclaim.Disk.World.{Bytes, File, init, dead, BaseVolume}
use baggageclaim.Disk.Action.{Error, Result, ok, err}
use baggageclaim.Disk.Frame.{
  Places, Keeps, Ensures, frame_rules, value_rules, Keeps-bind_ensured, Ensures-bind_ensured,
}
use baggageclaim.Disk.FrameCalls.{get_dir-Keeps, put_dir-Keeps}
use baggageclaim.Volume.Metadata.Json.{Json}
use baggageclaim.Volume.Filesystem.{Driver, volume_at}
use baggageclaim.Volume.Filesystem.Values.{new_volume-Ensures, new_subvolume-Ensures}
use baggageclaim.Volume.Filesystem.Frame.{
  IsConfined, lookup_volume-Keeps, new_volume-Keeps, new_subvolume-Keeps,
}
use baggageclaim.Volume.Strategy.Host.{
  HostNode, missing, host_dir, host_file, Encoding, gzip, zstd, Host,
}
use baggageclaim.Volume.Strategy.Strategerizer.{
  Strategy, empty_strategy, cow_strategy, import_strategy,
}
use baggageclaim.Volume.Strategy.Defs.{
  open_path, run_untar, new_reader, or_failed, unpack, stream_to, copy_into_volume, if_unpacked,
  import_node, if_found, materialize_cow, materialize_import, materialize,
}

module _ {P : Places} (host : Host) where
  pub open_path-Keeps : (v : BaseVolume) (path : String) → Keeps P (open_path host v path)
  unfolding open_path
  open_path-Keeps v path = search (frame_rules, get_dir-Keeps) depth 12

  pub new_reader-Keeps : (e : Encoding) → Keeps P (new_reader host e)
  new_reader-Keeps gzip = search frame_rules
  new_reader-Keeps zstd = search frame_rules

  or_failed-Keeps : (r : Result (Bool × Option Error)) → Keeps P (or_failed host r)
  or_failed-Keeps (ok p) = search frame_rules
  or_failed-Keeps (err e) = search frame_rules

  if_unpacked-Keeps : (p : Bool × Option Error) → Keeps P (if_unpacked host p)
  if_unpacked-Keeps (_, none) = search frame_rules
  if_unpacked-Keeps (_, some e) = search frame_rules

  module _ (v : BaseVolume) (out : ¬ P v.stage v.handle) where
    run_untar-Keeps :
        (e : Encoding) (b : Bool) (path : String) (stream : Bytes) (fs : List File)
        → Keeps P (run_untar host e b v path stream fs)
    unfolding run_untar
    run_untar-Keeps e b path stream fs = search (frame_rules, get_dir-Keeps, put_dir-Keeps) depth 12

    unpack-Keeps :
        (e : Encoding) (path : String) (stream : Bytes) (b : Bool)
        → Keeps P (unpack host e v path stream b)
    unfolding unpack
    unpack-Keeps e path stream b =
        search (frame_rules, open_path-Keeps, new_reader-Keeps, run_untar-Keeps) depth 12

    -- Unpacking a stream into a volume changes no other one.
    pub stream_to-Keeps :
        (e : Encoding) (path : String) (stream : Bytes) (b : Bool)
        → Keeps P (stream_to host e v path stream b)
    unfolding stream_to
    stream_to-Keeps e path stream b = search (frame_rules, unpack-Keeps, or_failed-Keeps) depth 12

    copy_into_volume-Keeps :
        (follow : Bool) (fs : List File) → Keeps P (copy_into_volume host follow fs v)
    unfolding copy_into_volume
    copy_into_volume-Keeps follow fs = search (frame_rules, get_dir-Keeps, put_dir-Keeps) depth 12

    import_node-Keeps : (follow : Bool) (n : HostNode) → Keeps P (import_node host follow v n)
    import_node-Keeps follow missing = search frame_rules
    import_node-Keeps follow (host_dir fs) = copy_into_volume-Keeps follow fs
    import_node-Keeps follow (host_file stream) =
        search (frame_rules, stream_to-Keeps, if_unpacked-Keeps) depth 12

module _ (json : Json) (driver : Driver) (host : Host) (h : String) where
  if_found-Ensures :
      (o : Option BaseVolume) → Ensures (λ v. v ≡ volume_at init h) (if_found json driver host h o)
  if_found-Ensures none = search value_rules
  if_found-Ensures (some above) = new_subvolume-Ensures json driver h above

  materialize_cow-Ensures :
      (parent_handle : String)
      → Ensures (λ v. v ≡ volume_at init h) (materialize_cow json driver host parent_handle h)
  unfolding materialize_cow
  materialize_cow-Ensures parent_handle = elim (Bool-cases (parent_handle == "")) [
    | inl without ↦ rw without (search value_rules)
    | inr given ↦ rw given (search (value_rules, if_found-Ensures))
  ]

  -- The volume that a strategy returns is that of its handle in init/.
  pub materialize-Ensures :
      (s : Strategy) → Ensures (λ v. v ≡ volume_at init h) (materialize json driver host s h)
  unfolding materialize materialize_import
  materialize-Ensures empty_strategy = new_volume-Ensures json driver h
  materialize-Ensures (cow_strategy parent_handle) = materialize_cow-Ensures parent_handle
  materialize-Ensures (import_strategy path follow) =
      Ensures-bind_ensured (λ v. v ≡ volume_at init h) _ _ (new_volume-Ensures json driver h)
        (λ v e. search value_rules depth 9)

module _ {P : Places} (json : Json) (driver : Driver) (host : Host) (confined : IsConfined driver)
    (h : String) (out_init : ¬ P init h) (out_dead : ¬ P dead h) where
  if_found-Keeps : (o : Option BaseVolume) → Keeps P (if_found json driver host h o)
  if_found-Keeps none = search frame_rules
  if_found-Keeps (some above) = new_subvolume-Keeps json driver confined above h out_init out_dead

  materialize_cow-Keeps :
      (parent_handle : String) → Keeps P (materialize_cow json driver host parent_handle h)
  unfolding materialize_cow
  materialize_cow-Keeps parent_handle = elim (Bool-cases (parent_handle == "")) [
    | inl without ↦ rw without (search frame_rules)
    | inr given ↦ rw given (search (frame_rules, lookup_volume-Keeps, if_found-Keeps) depth 9)
  ]

  -- A strategy changes at most the entries of its handle in init/ and dead/.
  pub materialize-Keeps : (s : Strategy) → Keeps P (materialize json driver host s h)
  unfolding materialize materialize_import
  materialize-Keeps empty_strategy = new_volume-Keeps json driver confined h out_init
  materialize-Keeps (cow_strategy parent_handle) = materialize_cow-Keeps parent_handle
  materialize-Keeps (import_strategy path follow) =
      Keeps-bind_ensured (λ v. v ≡ volume_at init h) _ _ (new_volume-Ensures json driver h)
        (new_volume-Keeps json driver confined h out_init)
        (λ v e. rw e (search (frame_rules, import_node-Keeps) depth 9))
