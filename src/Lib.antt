-- ===== src/Lib.antt =====
-- The volumes of baggageclaim, a server that keeps directories with properties for a CI system.
--
-- A request names a volume by its handle. The repository (volume/repository.go) looks the volume up in
-- the file system (volume/filesystem.go), which keeps each volume as a directory of init/, live/ or
-- dead/ with two metadata files (volume/metadata.go) and a data directory that a driver
-- (volume/driver/) makes. New volumes get their contents by a strategy, are given their properties and
-- the owners of their files (uidgid/), and are then renamed from init/ into live/; volumes that go are
-- renamed into dead/ first. Requests on the same handle wait for each other at the lock manager
-- (volume/locker.go), and a creation that goes on in the background hands its outcome over in a
-- promise (volume/promise.go, volume/promise_list.go).
--
-- Which file models what:
--
--   Prelude             shared names, Boolean tests, tables for Go maps and directories
--   Disk                the state of the disk and the calls of Go's package os. An operation is a
--                       function from a world to a result and a world (Disk/Action), since what was
--                       done before an error stays done. Disk/Frame says what it means that an
--                       operation leaves some entries alone, Disk/Failing the same of failing runs
--   Uidgid              uidgid/mapper_linux.go, mapper_nonlinux.go, translator.go, namespace.go and
--                       max_valid_uid.go: Mapper, Translator, Walk, MaxValid
--   Volume/Properties   volume/properties.go, and api/query.go in Query
--   Volume/Metadata     volume/metadata.go
--   Volume/Filesystem   volume/filesystem.go; the record Driver is volume/driver.go
--   Volume/Strategy     volume/strategerizer.go, empty_strategy.go, cow_strategy.go,
--                       import_strategy.go, copy/copy_unix.go, the In half of
--                       stream_in_out_linux.go, and Encode of the strategies of client.go
--   Volume/Driver       volume/driver/naive.go; volume/driver/overlay_linux.go in Overlay, on a state of its
--                       own beside the disk: the mounts, the layers and the work directories; and
--                       volume/driver/btrfs.go with is_subvolume_linux.go in Btrfs, on the tree that
--                       filepath.Walk finds
--   Volume/Repository   volume/repository.go: Defs and, with the Out half of the streamers, Streaming;
--                       Descendants has DestroyVolumeAndDescendants
--   Volume/Spec         the repository as a map from handles to properties, flags and parents: Meaning
--                       has the map, the commands and what each is meant to do and to reply,
--                       Represents when a disk stands for a map; New, SetUp, Create, Made, Creates,
--                       Steps and Parents what the operations do on such a disk, and Listed what is
--                       listed there
--   Volume/Promise      volume/promise.go and volume/promise_list.go
--   Volume/Locker       volume/locker.go, as steps of goroutines in any interleaving
--   Startup             baggageclaimcmd/driver_linux.go in Selection, and fs/btrfs.go in Image
--   Api                 api/volume_server.go: Server has the handlers, from what is decoded of a
--                       request to the answer; the goroutines of DestroyVolumes run one after the
--                       other, in the order of the list. Async has the background creation with its
--                       check and cancel
--   Api/P2p             api/p2p_server.go
--   Client              client/client.go and volume.go (Defs), volume_future.go with CreateVolume
--                       (Future), and in Serve the responses of api/handler.go and of the handlers, so
--                       that a client can be run against a server: Wire has what goes between them,
--                       Routes the table of routes.go, Router the handlers by their routes with
--                       the goroutines they start, Commands the calls on volumes beside the
--                       operations of the repository,
--                       Background and Creation a creation with its goroutine, and P2p where a peer is
--                       to stream to
--   Examples            runs at concrete inputs, with a host, a driver and JSON made up for them
--
-- Go's names are kept in snake_case: CreateVolume is create_volume, initRawVolume is init_raw_volume. An
-- early return of an error is the error case of the block; an error that the code drops is an attempt
-- whose result is not looked at. Names like if_dir and or_cleanup are the part of a function after a
-- call, by the result of that call.
--
-- Parameters, and what is taken of them:
--
--   faults      every call of the system asks a schedule, an arbitrary function, whether it fails and
--               with what errno. Only where a statement says that no call fails is it empty. A write
--               that fails may have written any part of its bytes
--   wire        encoding/json between a client and a server: a decoder reads back what was encoded, and
--               the decoder of an error fails on an empty body
--   send        net/http, with its retries: what comes back of a request is any function of the
--               request and the state of the server
--   rata        fills in the parameters of a route to make the path of a request, and gives a request
--               to the first route of the table that has its method and fits its path: both are
--               written out in Client/Routes, for this table only
--   json        encoding/json: a decoder reads back what the encoder wrote, whatever stands after it
--   host        the host's files, cp, and tar with gzip or zstd: any functions at all. A path of a stream
--               is joined to the data directory unchecked: whether it stays there is any function, and
--               what MkdirAll and tar do elsewhere any actions
--   driver      any operations on the world; where a statement needs it, they touch only the entry of
--               the volume that they work on, as those of the naive driver do
--   btrfs       the program btrfs: any function, and where a statement needs it, `subvolume delete` deletes
--               a subvolume that has no other below it, and nothing else (IsBtrfs)
--   machine     when the server starts, what a command prints or whether it fails is any function of the
--               commands so far; what the calls return that only look at the machine is the record Host
--
-- The greatest id of the mappings, which NewPrivilegedMapper and NewUnprivilegedMapper read from the
-- machine, is an argument of theirs here.
--
-- Bounds: ids are natural numbers below the greatest one, as user ids are; the arithmetic of
-- max_valid_uid.go and the size of a btrfs image are on words of 64 bits with the wrap-around
-- written out. The recursion of DestroyVolumeAndDescendants, the loop of a future's Wait and the
-- loop of findRootParent run on fuel, one unit for a level, a check and a volume; every other loop
-- is over a list or a tree. In any ranking in which the links to parents go up, fuel above the
-- rank of the volume is enough for the first and fuel up to the greatest rank for the last; fuel
-- above the number of checks that are answered 204 is enough for the second. The digits of a port
-- run on five units, since a port is below 65536.
--
-- Not modelled: a handle is taken to be one path component, and so is the name of a property in a
-- URL, so what a handle with a slash or dots does is outside; that GetValue of a promise takes its
-- read lock twice, and so may wait for ever beside a writer; the order in which a Go map or a
-- directory is listed (a table has one); log lines and metrics; the mode bits of directories;
-- NewFilesystem, which makes the three directories once. The files of a directory under a mount of
-- the overlay driver are not followed. The commands that wire the server together are not
-- modelled, but for the choice of a driver; kernel/ is another project's package, whose
-- CheckKernelVersion is a parameter. A request holds its locks in the world (held) where
-- operations run one at a time; that goroutines exclude each other is the subject of
-- Volume/Locker.
mod Prelude
pub mod Disk
pub mod Uidgid
pub mod Volume
pub mod Startup
pub mod Api
pub mod Client
mod Examples
