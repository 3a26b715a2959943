-- ===== src/Volume/Metadata/Json.antt =====
-- Go's encoding/json, as far as the metadata files need it: a parameter of the model.
use baggageclaim.Prelude.{◌≡◌, Option, some, Bool, ◌++◌}
use baggageclaim.Disk.World.{Bytes}
use baggageclaim.Volume.Properties.{Properties}

pub record Codec (A : Type 0) : Type 0 where
  pub encode : A → Bytes
  pub decode : Bytes → Option A

-- A decoder reads the first value of a stream and leaves what stands after it.
pub record IsCodec {A : Type 0} (c : Codec A) : Type 0 where
  pub decode-encode : (a : A) (rest : Bytes) → c.decode (c.encode a ++ rest) ≡ some a

pub record Json : Type 0 where
  pub properties : Codec Properties
  pub flag : Codec Bool

pub record IsJson (j : Json) : Type 0 where
  pub properties_law : IsCodec j.properties
  pub flag_law : IsCodec j.flag
