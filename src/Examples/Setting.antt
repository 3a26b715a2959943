-- ===== src/Examples/Setting.antt =====
-- A concrete host, driver and JSON, and disks to run the code on.
use baggageclaim.Prelude.{
  ℕ, zero, suc, String, ◌≡◌, refl, Bool, true, false, Option, none, some, ◌==◌, ◌||◌, if◌then◌else◌,
  List, [], ◌∷◌, ◌++◌,
}
use baggageclaim.Prelude.Table.{Table}
use baggageclaim.Disk.World.{Bytes, Fault, World}
use baggageclaim.Disk.Action.{ok}
use baggageclaim.Uidgid.Walk.{uid_namespacer}
use baggageclaim.Volume.Properties.{Properties}
use baggageclaim.Volume.Metadata.Json.{Codec, IsCodec, Json, IsJson}
use baggageclaim.Volume.Strategy.Host.{Host, missing, exit_ok}
use baggageclaim.Volume.Strategy.Strategerizer.{Value, text, boolean, other, ObjectCodec}
use baggageclaim.Uidgid.Mapper.{new_privileged_mapper, new_unprivileged_mapper}
use baggageclaim.Volume.Driver.Naive.{naive}
use baggageclaim.Volume.Repository.{Repository}
use baggageclaim.Examples.Wire.{put_texts, read_texts, read_texts-put_texts, put_texts-append}

abbrev pub flatten : Table String → List String
flatten [] = []
flatten ((k, v) ∷ t) = k ∷ v ∷ flatten t

abbrev pub pair_up : List String → Table String
pair_up (k ∷ v ∷ ss) = (k, v) ∷ pair_up ss
pair_up _ = []

pair_up-flatten : (t : Table String) → pair_up (flatten t) ≡ t
pair_up-flatten [] = refl
pair_up-flatten ((k, v) ∷ t) = rw (pair_up-flatten t) refl

abbrev pub table_of : Option (String × List String) → Option (Table String)
table_of (some (s, ss)) = some (pair_up ss)
table_of none = none

abbrev pub properties_codec : Codec Properties
properties_codec = record {
  encode = λ t. put_texts (flatten t) [];
  decode = λ bs. table_of (read_texts bs);
}

properties_codec-IsCodec : IsCodec properties_codec
properties_codec-IsCodec = record {
  decode-encode = λ t rest.
      rw
        (
          put_texts-append (flatten t) [] rest,
          read_texts-put_texts (flatten t) rest,
          pair_up-flatten t,
        )
        refl;
}

-- A file that holds nothing else is read back too.
pub read_whole : (t : Properties) → properties_codec.decode (properties_codec.encode t) ≡ some t
read_whole t = rw (read_texts-put_texts (flatten t) [], pair_up-flatten t) refl

abbrev pub flag_bytes : Bool → Bytes
flag_bytes true = 1 ∷ []
flag_bytes false = 0 ∷ 0 ∷ []

abbrev pub read_flag : Bytes → Option Bool
read_flag (suc _ ∷ _) = some true
read_flag (zero ∷ zero ∷ _) = some false
read_flag _ = none

flag_law_lem : (b : Bool) (rest : Bytes) → read_flag (flag_bytes b ++ rest) ≡ some b
flag_law_lem true rest = refl
flag_law_lem false rest = refl

abbrev pub json : Json
json = record {
  properties = properties_codec;
  flag = record { encode = flag_bytes; decode = read_flag };
}

pub json-IsJson : IsJson json
json-IsJson = record {
  properties_law = properties_codec-IsCodec;
  flag_law = record { decode-encode = flag_law_lem };
}

abbrev pub value_texts : Value → String × String
value_texts (text s) = ("text", s)
value_texts (boolean true) = ("true", "")
value_texts (boolean false) = ("false", "")
value_texts other = ("other", "")

abbrev pub value_of : String → String → Value
value_of tag s =
    if tag == "text"
    then text s
    else if tag == "true"
    then boolean true
    else if tag == "false"
    then boolean false
    else other

value_of-value_texts : (v : Value) → value_of (value_texts v).0 (value_texts v).1 ≡ v
value_of-value_texts (text s) = refl
value_of-value_texts (boolean true) = refl
value_of-value_texts (boolean false) = refl
value_of-value_texts other = refl

abbrev pub object_texts : Table Value → List String
object_texts [] = []
object_texts ((k, v) ∷ t) = k ∷ (value_texts v).0 ∷ (value_texts v).1 ∷ object_texts t

abbrev pub object_of : List String → Table Value
object_of (k ∷ tag ∷ s ∷ ss) = (k, value_of tag s) ∷ object_of ss
object_of _ = []

pub object_of-object_texts : (t : Table Value) → object_of (object_texts t) ≡ t
object_of-object_texts [] = refl
object_of-object_texts ((k, v) ∷ t) = rw (value_of-value_texts v, object_of-object_texts t) refl

abbrev pub object_from : Option (String × List String) → Option (Table Value)
object_from (some (s, ss)) = some (object_of ss)
object_from none = none

abbrev pub objects : ObjectCodec
objects = record {
  marshal = λ t. put_texts (object_texts t) [];
  unmarshal = λ bs. object_from (read_texts bs);
  unmarshal-marshal =
      λ t. rw (read_texts-put_texts (object_texts t) [], object_of-object_texts t) refl;
}

-- a host with no files, where cp copies, tar does nothing, and only the empty path and the point are
-- known to lead into a data directory
abbrev pub host : Host
host = record {
  files = λ p. missing;
  cp = λ follow fs. fs;
  has_path = λ p fs. true;
  make_path = λ p fs. fs;
  untar = λ e ns p stream fs. (exit_ok, fs);
  tar = λ e ns p fs. (exit_ok, []);
  stays = λ v path w. path == "" || path == ".";
  make_elsewhere = λ v path w. (ok tt, w);
  untar_elsewhere = λ e ns v path stream w. (ok (false, none), w);
  tar_elsewhere = λ e ns v path w. (exit_ok, []);
}

abbrev pub repo : Repository
repo = record {
  json = json;
  driver = naive host;
  host = host;
  privileged_namespacer = uid_namespacer (new_privileged_mapper 1000);
  unprivileged_namespacer = uid_namespacer (new_unprivileged_mapper 1000);
}

abbrev pub no_faults : ℕ → Option Fault
no_faults _ = none

abbrev pub empty_world : World
empty_world = record { tables = λ s. []; clock = 0; held = []; faults = no_faults }
