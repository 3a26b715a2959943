-- ===== src/Volume/Repository/Streaming.antt =====
-- `StreamIn`, `StreamOut` and `StreamP2pOut` of `repository`, and `Out` of the streamers.
use baggageclaim.Prelude.{
  String, Bool, true, false, not, Option, none, some, List, [], ◌==◌, if◌then◌else◌,
}
use baggageclaim.Disk.World.{Bytes, File, BaseVolume}
use baggageclaim.Disk.Action.{
  Error, unsupported_stream_encoding, tar_failed, peer_refused, Result, ok, err, Action, pure,
  raise, attempt, call, read, ◌>>=◌, ◌>>◌,
}
use baggageclaim.Disk.Calls.{get_dir, put_dir}
use baggageclaim.Uidgid.Walk.{namespace_path}
use baggageclaim.Volume.Metadata.{load_privileged}
use baggageclaim.Volume.Strategy.Host.{
  Encoding, gzip, zstd, TarExit, exit_ok, exit_error, not_started, Host,
}
use baggageclaim.Volume.Strategy.{open_path, new_reader, stream_to}
use baggageclaim.Volume.Repository.Defs.{Repository, namespacer, find}

-- `switch encoding`
unfoldable pub parse_encoding : String → Option Encoding
parse_encoding s = if s == "zstd" then some zstd else if s == "gzip" then some gzip else none

abbrev pub files_or_none : Option (List File) → List File
files_or_none none = []
files_or_none (some fs) = fs

-- what a streamer has written, and the error that it returns
abbrev pub error_of : Result Unit → Option Error
error_of (ok _) = none
error_of (err e) = some e

abbrev pub or_nothing : Result (Bytes × Option Error) → Action (Bytes × Option Error)
or_nothing (ok p) = pure p
or_nothing (err e) = pure ([], some e)

-- `inside` where the path leads into the data directory of the volume, and `outside` where it does not
abbrev pub at_place : {A : Type 0} → Host → BaseVolume → String → Action A → Action A → Action A
at_place host v path inside outside = do
  stays ← read (host.stays v path)
  if stays then inside else outside

module _ (host : Host) where
  -- zstd.NewWriter and Close can fail; the gzip streamer has no such steps
  abbrev pub closed : Encoding → TarExit × Bytes → Action (Bytes × Option Error)
  closed encoding (exit_ok, bs) = do r ← attempt (new_reader host encoding); pure (bs, error_of r)
  closed encoding (exit_error, bs) = pure (bs, some tar_failed)
  closed encoding (not_started, bs) = pure (bs, some tar_failed)

  abbrev pub pack_below : Encoding → BaseVolume → String → Bool → Action (Bytes × Option Error)
  pack_below encoding v path privileged = do
    fs ← open_path host v path
    new_reader host encoding
    closed encoding (host.tar encoding (not privileged) path fs)

  abbrev pub pack_elsewhere : Encoding → BaseVolume → String → Bool → Action (Bytes × Option Error)
  pack_elsewhere encoding v path privileged = do
    new_reader host encoding
    packed ← read (host.tar_elsewhere encoding (not privileged) v path)
    closed encoding packed

  unfoldable pub pack : Encoding → BaseVolume → String → Bool → Action (Bytes × Option Error)
  pack encoding v path privileged = do
    call
    at_place host v path (pack_below encoding v path privileged)
        (pack_elsewhere encoding v path privileged)

  -- `Out` of tarGzipStreamer and tarZstdStreamer
  unfoldable pub stream_from : Encoding → BaseVolume → String → Bool → Action (Bytes × Option Error)
  stream_from encoding v path privileged = do
    packed ← attempt (pack encoding v path privileged)
    or_nothing packed

  abbrev pub make_below : BaseVolume → String → Action Unit
  make_below v path = do
    d ← get_dir v
    put_dir v (record d { files = some (host.make_path path (files_or_none d.files)) })

  -- os.MkdirAll of the data directory joined with the path, which is not checked
  unfoldable pub make_path : BaseVolume → String → Action Unit
  make_path v path = do call; at_place host v path (make_below v path) (host.make_elsewhere v path)

module _ (repo : Repository) where
  abbrev pub stream_in_as :
      BaseVolume → String → Bytes → Bool → Option Encoding → Action (Bool × Option Error)
  stream_in_as v path stream privileged none = raise unsupported_stream_encoding
  stream_in_as v path stream privileged (some encoding) =
      at_place repo.host v path (stream_to repo.host encoding v path stream privileged)
        (repo.host.untar_elsewhere encoding (not privileged) v path stream)

  -- An error that is raised here is returned beside false: the stream was not to blame.
  unfoldable pub stream_in : String → String → String → Bytes → Action (Bool × Option Error)
  stream_in h path encoding stream = do
    v ← find h
    make_path repo.host v path
    privileged ← load_privileged repo.json v
    namespace_path (namespacer repo privileged) v
    stream_in_as v path stream privileged (parse_encoding encoding)

  abbrev pub stream_out_as :
      BaseVolume → String → Bool → Option Encoding → Action (Bytes × Option Error)
  stream_out_as v path privileged none = raise unsupported_stream_encoding
  stream_out_as v path privileged (some encoding) = stream_from repo.host encoding v path privileged

  -- An error that is raised here is returned before anything is written.
  unfoldable pub stream_out : String → String → String → Action (Bytes × Option Error)
  stream_out h path encoding = do
    v ← find h
    privileged ← load_privileged repo.json v
    stream_out_as v path privileged (parse_encoding encoding)

  -- the peer's answer to the PUT: no content, or a refusal
  abbrev pub if_sent : Bool → Action Unit
  if_sent true = pure tt
  if_sent false = raise peer_refused

  abbrev pub send_packed : (Bytes → Bool) → Bytes × Option Error → Action Unit
  send_packed answer (bs, some e) = raise e
  send_packed answer (bs, none) = do call; if_sent (answer bs)

  -- `answer` is whether the peer at the URL answers 204 to these bytes; the request itself can fail.
  unfoldable pub stream_p2p_out : String → String → String → (Bytes → Bool) → Action Unit
  stream_p2p_out h path encoding answer = do
    packed ← stream_out h path encoding
    send_packed answer packed
