-- ===== src/Examples/Rows.antt =====
-- A wire format for what a server and its client send, such as JSON could be.
use baggageclaim.Prelude.{
  String, ◌≡◌, refl, Bool, true, false, Option, none, some, List, [], ◌∷◌, ◌==◌, if◌then◌else◌,
}
use baggageclaim.Disk.World.{Stage, init, live, dead}
use baggageclaim.Volume.Filesystem.{volume_at}
use baggageclaim.Volume.Properties.{Properties}
use baggageclaim.Volume.Repository.{Volume}
use baggageclaim.Client.Wire.{Wire, IsWire, VolumeResponse, volume_responses}
use baggageclaim.Examples.Wire.{put_texts, read_texts, read_texts-put_texts}
use baggageclaim.Examples.Setting.{flag_bytes, read_flag}

abbrev stage_text : Stage → String
stage_text init = "init"
stage_text live = "live"
stage_text dead = "dead"

abbrev stage_of : String → Stage
stage_of s = if s == "init" then init else if s == "live" then live else dead

stage_of-stage_text : (s : Stage) → stage_of (stage_text s) ≡ s
stage_of-stage_text init = refl
stage_of-stage_text live = refl
stage_of-stage_text dead = refl

-- Each property is a row of four texts, and each volume is a row before those of its properties.
abbrev property_rows : Properties → List String → List String
property_rows [] rest = rest
property_rows ((k, v) ∷ p) rest = "p" ∷ k ∷ v ∷ "" ∷ property_rows p rest

abbrev rows : List Volume → List String
rows [] = []
rows (v ∷ vs) =
    stage_text v.path.stage ∷ v.path.handle ∷ v.handle ∷ "" ∷ property_rows v.properties (rows vs)

abbrev add_row :
    String → String → String → Properties × List VolumeResponse → Properties × List VolumeResponse
add_row tag a b (p, vs) =
    if tag == "p"
    then ((a, b) ∷ p, vs)
    else ([], (record { handle = b; path = volume_at (stage_of tag) a; properties = p }) ∷ vs)

abbrev read_rows : List String → Properties × List VolumeResponse
read_rows (tag ∷ a ∷ b ∷ c ∷ ss) = add_row tag a b (read_rows ss)
read_rows _ = ([], [])

read_rows-property_rows :
    (p : Properties) (ss : List String) (vs : List VolumeResponse)
    → read_rows ss ≡ ([], vs)
    → read_rows (property_rows p ss) ≡ (p, vs)
read_rows-property_rows [] ss vs e = e
read_rows-property_rows ((k, v) ∷ p) ss vs e = rw (read_rows-property_rows p ss vs e) refl

read_rows-volume :
    (s : Stage) (a b : String) (ss : List String) (p : Properties) (vs : List VolumeResponse)
    → read_rows ss ≡ (p, vs)
    → read_rows (stage_text s ∷ a ∷ b ∷ "" ∷ ss)
      ≡ ([], (record { handle = b; path = volume_at s a; properties = p }) ∷ vs)
read_rows-volume init a b ss p vs e = rw e refl
read_rows-volume live a b ss p vs e = rw e refl
read_rows-volume dead a b ss p vs e = rw e refl

read_rows-rows : (vs : List Volume) → read_rows (rows vs) ≡ ([], volume_responses vs)
read_rows-rows [] = refl
read_rows-rows (v ∷ vs) =
    read_rows-volume v.path.stage v.path.handle v.handle (property_rows v.properties (rows vs))
      v.properties (volume_responses vs)
      (read_rows-property_rows v.properties (rows vs) (volume_responses vs) (read_rows-rows vs))

abbrev volumes_from : Option (String × List String) → Option (List VolumeResponse)
volumes_from (some (s, ss)) = some (read_rows ss).1
volumes_from none = none

abbrev one_of : Option (List VolumeResponse) → Option VolumeResponse
one_of (some (v ∷ vs)) = some v
one_of _ = none

abbrev text_from : Option (String × List String) → Option String
text_from (some (s, t ∷ ss)) = some t
text_from _ = none

abbrev error_from : Option String → Option (Option String)
error_from (some m) = some (some m)
error_from none = none

abbrev pub texts_wire : Wire
texts_wire = record {
  encode_volume = λ v. put_texts (rows (v ∷ [])) [];
  decode_volume = λ bs. one_of (volumes_from (read_texts bs));
  encode_volumes = λ vs. put_texts (rows vs) [];
  decode_volumes = λ bs. volumes_from (read_texts bs);
  encode_future = λ h. put_texts (h ∷ []) [];
  decode_future = λ bs. text_from (read_texts bs);
  encode_flag = flag_bytes;
  decode_flag = read_flag;
  encode_error = λ m. put_texts (m ∷ []) [];
  decode_error = λ bs. error_from (text_from (read_texts bs));
  sniffed = λ bs. "text/plain; charset=utf-8";
}

flag_read : (b : Bool) → read_flag (flag_bytes b) ≡ some b
flag_read true = refl
flag_read false = refl

pub texts_wire-IsWire : IsWire texts_wire
unfolding read_texts
texts_wire-IsWire = record {
  volume_law =
      λ v. rw (read_texts-put_texts (rows (v ∷ [])) []) (rw (read_rows-rows (v ∷ [])) refl);
  volumes_law = λ vs. rw (read_texts-put_texts (rows vs) []) (rw (read_rows-rows vs) refl);
  future_law = λ h. rw (read_texts-put_texts (h ∷ []) []) refl;
  flag_law = flag_read;
  error_law = λ m. rw (read_texts-put_texts (m ∷ []) []) refl;
  no_body = refl;
}
