-- ===== src/Volume/Metadata/Defs.antt =====
-- Reading and writing the metadata files.
use baggageclaim.Prelude.{Bool, Option, none, some, ◌++◌, []}
use baggageclaim.Prelude.{length, take, drop}
use baggageclaim.Disk.World.{Bytes, Dir, BaseVolume, Fault}
use baggageclaim.Disk.Action.{
  Action, Result, ok, err, volume_does_not_exist, not_exist, malformed_json, raise, done, read,
  change, attempt, call, outcome, tick, ◌>>=◌, ◌>>◌,
}
use baggageclaim.Disk.Calls.{get_dir, put_dir}
use baggageclaim.Volume.Properties.{Properties}
use baggageclaim.Volume.Metadata.Json.{Codec, Json}

-- propertiesFileName and isPrivilegedFileName
pub data MetadataFile : Type 0 where
  properties_json privileged_json : MetadataFile

abbrev pub content : MetadataFile → Dir → Option Bytes
content properties_json d = d.properties
content privileged_json d = d.privileged

abbrev pub set_content : MetadataFile → Bytes → Dir → Dir
set_content properties_json b d = record d { properties = some b }
set_content privileged_json b d = record d { privileged = some b }

abbrev pub as_file : Option Bytes → Result Bytes
as_file none = err not_exist
as_file (some b) = ok b

-- os.Open
unfoldable pub open_read : BaseVolume → MetadataFile → Action Bytes
unfolding call get_dir
open_read v f = do call; d ← get_dir v; done (as_file (content f d))

abbrev pub as_value : {A : Type 0} → Option A → Result A
as_value none = err malformed_json
as_value (some a) = ok a

-- An *os.PathError, which is what any failure of os.Open is, means that there is no volume.
abbrev pub decode_opened : {A : Type 0} → Codec A → Result Bytes → Action A
decode_opened c (ok b) = do call; done (as_value (c.decode b))
decode_opened c (err e) = raise volume_does_not_exist

unfoldable pub read_metadata_file : {A : Type 0} → BaseVolume → MetadataFile → Codec A → Action A
unfolding call open_read
read_metadata_file v f c = do opened ← attempt (open_read v f); decode_opened c opened

-- What os.O_CREATE makes of a file that may be there: nothing is cut off, since there is no
-- os.O_TRUNC.
abbrev pub created : Option Bytes → Bytes
created none = []
created (some b) = b

unfoldable pub open_write : BaseVolume → MetadataFile → Action Unit
unfolding call get_dir put_dir
open_write v f = do call; d ← get_dir v; put_dir v (set_content f (created (content f d)) d)

-- A write at the start of a file leaves the rest of what was there.
abbrev pub overwrite : Bytes → Bytes → Bytes
overwrite new old = new ++ drop (length new) old

abbrev pub written : Option Fault → Bytes → Bytes
written none b = b
written (some f) b = take f.written b

unfoldable pub write : BaseVolume → MetadataFile → Bytes → Action Unit
unfolding get_dir put_dir
write v f b = do
  failure ← read (λ w. w.faults w.clock)
  change tick
  d ← get_dir v
  put_dir v (set_content f (overwrite (written failure b) (created (content f d))) d)
  done (outcome failure)

abbrev pub encode_opened :
    {A : Type 0} → BaseVolume → MetadataFile → Codec A → A → Result Unit → Action Unit
encode_opened v f c a (ok _) = write v f (c.encode a)
encode_opened v f c a (err e) = raise volume_does_not_exist

unfoldable pub write_metadata_file :
    {A : Type 0} → BaseVolume → MetadataFile → Codec A → A → Action Unit
unfolding open_write write
write_metadata_file v f c a = do opened ← attempt (open_write v f); encode_opened v f c a opened

-- The methods of `baseVolume` and `Metadata`.
module _ (json : Json) where
  unfoldable pub load_properties : BaseVolume → Action Properties
  load_properties v = read_metadata_file v properties_json json.properties

  unfoldable pub store_properties : BaseVolume → Properties → Action Unit
  store_properties v p = write_metadata_file v properties_json json.properties p

  unfoldable pub load_privileged : BaseVolume → Action Bool
  load_privileged v = read_metadata_file v privileged_json json.flag

  unfoldable pub store_privileged : BaseVolume → Bool → Action Unit
  store_privileged v b = write_metadata_file v privileged_json json.flag b
