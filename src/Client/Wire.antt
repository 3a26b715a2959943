-- ===== src/Client/Wire.antt =====
-- Requests and responses, and the errors of a client. net/http, rata and encoding/json are
-- parameters.
use baggageclaim.Prelude.{ℕ, String, ◌≡◌, Bool, Option, none, some, List, [], map}
use baggageclaim.Disk.World.{Bytes, BaseVolume}
use baggageclaim.Volume.Properties.{Properties}
use baggageclaim.Volume.Repository.{Volume}
use baggageclaim.Api.{VolumeRequest}

-- What the client asks for; the body of a request is what the server decodes from it.
pub data Request : Type 0 where
  create_volume_async : VolumeRequest → Request
  create_volume_async_check : String → Request
  create_volume_async_cancel : String → Request
  list_volumes : (query : List (String × List String)) → Request
  get_volume : String → Request
  destroy_volumes : List String → Request
  destroy_volume : String → Request
  set_property : (handle name value : String) → Request
  get_privileged : String → Request
  set_privileged : String → Bool → Request
  stream_in : (handle path encoding : String) → Bytes → Request
  stream_out : (handle path encoding : String) → Request
  stream_p2p_out : (handle path url encoding : String) → Request

pub record Response : Type 0 where
  pub status : ℕ
  pub content_type : String
  pub body : Bytes

-- `baggageclaim.VolumeResponse`
pub record VolumeResponse : Type 0 where
  pub handle : String
  pub path : BaseVolume
  pub properties : Properties

-- The server writes a `volume.Volume`; the client reads all of it but the flag.
abbrev pub volume_response : Volume → VolumeResponse
volume_response vol = record { handle = vol.handle; path = vol.path; properties = vol.properties }

abbrev pub volume_responses : List Volume → List VolumeResponse
volume_responses vols = map volume_response vols

-- What encoding/json writes and reads of each type that is sent, and the content type that net/http
-- gives a body whose handler sets none. The JSON of an error may be null, which is a nil pointer.
pub record Wire : Type 0 where
  pub encode_volume : Volume → Bytes
  pub decode_volume : Bytes → Option VolumeResponse
  pub encode_volumes : List Volume → Bytes
  pub decode_volumes : Bytes → Option (List VolumeResponse)
  pub encode_future : String → Bytes
  pub decode_future : Bytes → Option String
  pub encode_flag : Bool → Bytes
  pub decode_flag : Bytes → Option Bool
  pub encode_error : (message : String) → Bytes
  pub decode_error : Bytes → Option (Option String)
  pub sniffed : Bytes → String

-- A decoder reads back what was encoded, and fails at the end of the body.
pub record IsWire (wire : Wire) : Type 0 where
  pub volume_law :
      (v : Volume) → wire.decode_volume (wire.encode_volume v) ≡ some (volume_response v)
  pub volumes_law :
      (vs : List Volume) → wire.decode_volumes (wire.encode_volumes vs) ≡ some (volume_responses vs)
  pub future_law : (h : String) → wire.decode_future (wire.encode_future h) ≡ some h
  pub flag_law : (b : Bool) → wire.decode_flag (wire.encode_flag b) ≡ some b
  pub error_law : (m : String) → wire.decode_error (wire.encode_error m) ≡ some (some m)
  pub no_body : wire.decode_error [] ≡ none

-- The errors of the package client and the two of errors.go; `volume_missing` is ErrVolumeDoesNotExist
-- of the package volume. `transport` is any error of rata or net/http, `undecodable` one of
-- encoding/json. A `nil_pointer` that is followed panics. `fuel_spent` is no error of the code: it
-- says that a loop has not ended yet.
pub data ClientError : Type 0 where
  volume_deletion volume_not_found file_not_found volume_missing : ClientError
  undecodable nil_pointer fuel_spent : ClientError
  transport : ℕ → ClientError
  future_not_found : (handle : String) → ClientError
  unexpected_content_type : String → ClientError
  message : String → ClientError

pub data Reply (A : Type 0) : Type 0 where
  got : A → Reply A
  gave_up : ClientError → Reply A

-- what `httpClient.Do` returns
pub data Sent : Type 0 where
  received : Response → Sent
  lost : ℕ → Sent

-- A client of a server in a state `S`: what rata makes of a request (none: the request; some: an
-- error), and what comes back of it, retries included.
pub record Client (S : Type 0) : Type 0 where
  pub wire : Wire
  pub request_error : Request → Option ℕ
  pub send : Request → S → Sent × S
