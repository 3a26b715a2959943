-- ===== src/Client/Remote.antt =====
-- Volumes behind a client, and the same volumes in the repository of its server.
use baggageclaim.Prelude.{Option}
use baggageclaim.Disk.World.{World}
use baggageclaim.Disk.Action.{Result}
use baggageclaim.Volume.Properties.{Properties}
use baggageclaim.Volume.Repository
use baggageclaim.Volume.Repository.{Volume, Repository}
use baggageclaim.Api.{Promises}
use baggageclaim.Client.Wire.{IsWire, Reply, volume_response}
use baggageclaim.Client.Defs
use baggageclaim.Client.Defs.{ClientVolume, new_volume, map_reply, map_option}
use baggageclaim.Client.Serve.{Server}
use baggageclaim.Client.Replies.{looked_up}
use baggageclaim.Client.Commands.{Outcome}

abbrev found_of : Result (Option Volume) → Reply (Option ClientVolume)
found_of r = map_reply (map_option new_volume) (looked_up volume_response r)

module _ (server : Server) (laws : IsWire server.wire) (s : Promises) where
  -- the same outcome in the same state
  abbrev ended : Outcome → World → Outcome × (Promises × World)
  ended o w = (o, (s, w))
