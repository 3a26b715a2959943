-- ===== src/Examples/Volumes.antt =====
-- Volumes made, changed, streamed and destroyed on small disks.
use baggageclaim.Prelude.{
  ℕ, String, ◌≡◌, ◌==◌, ◌≢◌, refl, ap, true, false, Option, none, some, [], ◌∷◌, nat_eq,
  if◌then◌else◌,
}
use baggageclaim.Prelude.Table.{Table, get, put, delete, IsMap}
use baggageclaim.Disk.World.{
  Fault, World, NoFaults, Stage, live, Dir, empty_dir, Node, directory, node,
}
use baggageclaim.Disk.Action.{call, syscall, ok, err, ◌>>◌}
use baggageclaim.Disk.Calls.{
  get_dir, put_dir, mkdir, stat, rename, move, mkdir_files, remove_files, remove_all, root_file,
}
use baggageclaim.Uidgid.Mapper.{find_mapping, map_ids, new_unprivileged_mapper}
use baggageclaim.Uidgid.Translator.{translate_path, chown_file, restore_mode}
use baggageclaim.Uidgid.Walk.{namespace_path, walk}
use baggageclaim.Volume.Properties.{Properties}
use baggageclaim.Volume.Metadata.{
  as_value, write_metadata_file, open_write, write, store_properties, store_privileged,
  load_properties, load_privileged,
}
use baggageclaim.Volume.Metadata.Stored.{load-store_properties}
use baggageclaim.Volume.Filesystem.{
  volume_at, init_raw_volume, new_volume, initialize, lookup_volume, destroy, destroy_dead, cleanup,
}
use baggageclaim.Volume.Driver.Naive.{naive-IsConfined}
use baggageclaim.Volume.Strategy.Strategerizer.{
  empty_strategy, import_strategy, strategy_for, encode, strategy_for-encode,
}
use baggageclaim.Volume.Strategy.{materialize}
use baggageclaim.Volume.Repository.{
  Volume, locked, find, namespacer, set_up, create_volume, get_volume, set_property, set_privileged,
  destroy_volume, stream_out, stream_p2p_out,
}
use baggageclaim.Volume.Repository.Reads.{Holds}
use baggageclaim.Volume.Repository.Create.{create_volume_failing}
use baggageclaim.Volume.Repository.Created.{get_volume-create_volume}
use baggageclaim.Volume.Repository.Destroy.{destroy_volume_visible}
use baggageclaim.Volume.Repository.Update.{get_volume-set_property, get_volume-set_privileged}
use baggageclaim.Volume.Repository.Streams.{stream_out_reads}
use baggageclaim.Examples.Setting.{json, read_whole, json-IsJson, objects, host, repo, empty_world}

abbrev pub base_dir : Dir
base_dir = record {
  properties = some (json.properties.encode (("team", "main") ∷ []));
  privileged = some (json.flag.encode false);
  parent = none;
  files = some (root_file ∷ []);
}

abbrev pub live_base : Stage → Table Node
live_base live = ("base", directory base_dir) ∷ ("x", directory empty_dir) ∷ []
live_base _ = []

abbrev pub base_world : World
base_world = record empty_world { tables = live_base }

pub base_world-NoFaults : NoFaults base_world
base_world-NoFaults n = refl

base-Holds : Holds repo "base" (("team", "main") ∷ []) false base_world base_dir
unfolding get
base-Holds = record {
  at = refl;
  properties = ap as_value (read_whole (("team", "main") ∷ []));
  privileged = refl;
}

-- the eighth call of the system fails: the flag is not written
abbrev eighth_fails : ℕ → Option Fault
eighth_fails n = if nat_eq n 7 then some (record { errno = 28; written = 0 }) else none

abbrev full_disk : World
full_disk = record base_world { faults = eighth_fails }

failing_run : (create_volume repo "new" empty_strategy [] false full_disk).0 ≡ err (syscall 28)
unfolding create_volume materialize new_volume init_raw_volume set_up namespacer store_properties
    store_privileged write_metadata_file open_write write mkdir mkdir_files call get_dir put_dir get
    put delete namespace_path walk initialize rename move destroy destroy_dead remove_files
    remove_all cleanup
failing_run = refl

create_volume_failing_example :
    node live "base" (create_volume repo "new" empty_strategy [] false full_disk).1
    ≡ node live "base" full_disk
create_volume_failing_example =
    create_volume_failing repo (naive-IsConfined host) "new" empty_strategy [] false full_disk
      (syscall 28) failing_run "base"

abbrev pub created_volume : Volume
created_volume = record {
  handle = "new";
  path = volume_at live "new";
  properties = ("ttl", "1h") ∷ [];
  privileged = false;
}

pub creating_run :
    (create_volume repo "new" empty_strategy (("ttl", "1h") ∷ []) false base_world).0
    ≡ ok created_volume
unfolding create_volume materialize new_volume init_raw_volume set_up namespacer store_properties
    store_privileged write_metadata_file open_write write mkdir mkdir_files call get_dir put_dir get
    put delete namespace_path walk translate_path chown_file restore_mode find_mapping map_ids
    new_unprivileged_mapper initialize rename move
creating_run = refl

get_volume-create_volume_example :
    ((get_volume repo "new"
        (create_volume repo "new" empty_strategy (("ttl", "1h") ∷ []) false base_world).1).0
      ≡ ok (
          some (record {
            handle = "new";
            path = volume_at live "new";
            properties = ("ttl", "1h") ∷ [];
            privileged = false;
          })))
    × (created_volume ≡ record {
      handle = "new";
      path = volume_at live "new";
      properties = ("ttl", "1h") ∷ [];
      privileged = false;
    })
get_volume-create_volume_example =
    get_volume-create_volume repo "new" (("ttl", "1h") ∷ []) false json-IsJson
      (naive-IsConfined host) empty_strategy base_world {vol = created_volume} base_world-NoFaults
      creating_run

destroying_run : (destroy_volume repo "base" base_world).0 ≡ ok tt
unfolding destroy_volume locked find lookup_volume stat destroy rename move get_dir get put delete
    call destroy_dead remove_files put_dir cleanup remove_all
destroying_run = refl

destroy_volume_visible_example :
    ((destroy_volume repo "base" base_world).0 ≡ ok tt
      → node live "base" (destroy_volume repo "base" base_world).1 ≡ none)
    × ((k : String)
        → k ≢ "base"
        → node live k (destroy_volume repo "base" base_world).1 ≡ node live k base_world)
    × ((destroy_volume repo "base" base_world).1.held ≡ [])
destroy_volume_visible_example =
    destroy_volume_visible repo (naive-IsConfined host) "base" base_world

gone : node live "gone" base_world ≡ none
unfolding get
gone = refl

one_team-IsMap : IsMap {V = String} (("team", "main") ∷ [])
unfolding get
one_team-IsMap = (refl, tt)

get_volume-set_property_example :
    ((set_property repo "base" "ttl" "1h" base_world).0 ≡ ok tt)
    × ((q : Properties) × ((get_volume repo "base"
            (set_property repo "base" "ttl" "1h" base_world).1).0
          ≡ ok (
              some (record {
                handle = "base";
                path = volume_at live "base";
                properties = q;
                privileged = false;
              })))
        × ((j : String)
            → get j q ≡ (if "ttl" == j then some "1h" else get j (("team", "main") ∷ []))))
get_volume-set_property_example =
    get_volume-set_property repo json-IsJson "base" (("team", "main") ∷ []) false base_dir
      base_world "ttl" "1h" base_world-NoFaults base-Holds one_team-IsMap

get_volume-set_privileged_example :
    ((set_privileged repo "base" true base_world).0 ≡ ok tt)
    × ((get_volume repo "base" (set_privileged repo "base" true base_world).1).0
        ≡ ok (
            some (record {
              handle = "base";
              path = volume_at live "base";
              properties = ("team", "main") ∷ [];
              privileged = true;
            })))
get_volume-set_privileged_example =
    get_volume-set_privileged repo json-IsJson "base" (("team", "main") ∷ []) false base_dir
      base_world true base_world-NoFaults base-Holds

stream_out_reads_example :
    (node live "base" (stream_out repo "base" "." "zstd" base_world).1
      ≡ node live "base" base_world)
    × (node live "base" (stream_p2p_out repo "base" "." "zstd" (λ bs. true) base_world).1
        ≡ node live "base" base_world)
stream_out_reads_example =
    stream_out_reads repo "base" "." "zstd" (λ bs. true) base_world live "base"

load-store_properties_example :
    (((store_properties json (volume_at live "base") []
          >> load_properties json (volume_at live "base"))
        base_world).0
      ≡ ok [])
    × (((store_properties json (volume_at live "base") []
            >> load_privileged json (volume_at live "base"))
          base_world).0
        ≡ (load_privileged json (volume_at live "base") base_world).0)
load-store_properties_example =
    load-store_properties json (volume_at live "base") [] base_world base_dir json-IsJson
      base_world-NoFaults base-Holds.at

strategy_for-encode_example :
    strategy_for objects (some (encode objects (import_strategy "/tmp/rootfs" true)))
    ≡ ok (import_strategy "/tmp/rootfs" true)
strategy_for-encode_example = strategy_for-encode objects (import_strategy "/tmp/rootfs" true)
