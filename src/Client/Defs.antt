-- ===== src/Client/Defs.antt =====
-- client/client.go and client/volume.go.
use baggageclaim.Prelude.{
  ℕ, String, Bool, Option, none, some, List, [], ◌∷◌, map, ◌==◌, nat_eq, if◌then◌else◌,
}
use baggageclaim.Disk.World.{Bytes, BaseVolume}
use baggageclaim.Volume.Properties.{Properties}
use baggageclaim.Client.Wire.{
  Request, Response, VolumeResponse, Wire, ClientError, volume_deletion, volume_not_found,
  file_not_found, volume_missing, undecodable, nil_pointer, transport, unexpected_content_type,
  message, Reply, got, gave_up, Sent, received, lost, Client,
}

-- A call of a client, from the state of the server to a reply and its state then.
abbrev pub Call : Type 0 → Type 0 → Type 0
Call S A = S → Reply A × S

-- `clientVolume`, less its client
pub record ClientVolume : Type 0 where
  pub handle : String
  pub path : BaseVolume

-- `newVolume`
abbrev pub new_volume : VolumeResponse → ClientVolume
new_volume r = record { handle = r.handle; path = r.path }

-- `getError`; "no such file or directory" is the text of api.ErrStreamOutNotFound.
abbrev pub error_of : ℕ → Option (Option String) → ClientError
error_of status none = undecodable
error_of status (some none) = nil_pointer
error_of status (some (some m)) =
    if m == "no such file or directory"
    then file_not_found
    else if nat_eq status 404
    then volume_not_found
    else message m

unfoldable pub get_error : Wire → Response → ClientError
get_error wire r = error_of r.status (wire.decode_error r.body)

abbrev pub if_decoded : {A : Type 0} → Option A → Reply A
if_decoded none = gave_up undecodable
if_decoded (some a) = got a

-- the test of the content type, and the decoder after it
unfoldable pub json_body : {A : Type 0} → (Bytes → Option A) → Response → Reply A
json_body decode r =
    if r.content_type == "application/json"
    then if_decoded (decode r.body)
    else gave_up (unexpected_content_type r.content_type)

-- what each method makes of a response
module _ (wire : Wire) where
  abbrev pub with_status : {A : Type 0} → ℕ → (Response → Reply A) → Response → Reply A
  with_status status f r = if nat_eq r.status status then f r else gave_up (get_error wire r)

  abbrev pub of_change : Response → Reply Unit
  of_change = with_status 204 (λ r. got tt)

  abbrev pub of_p2p : Response → Reply Unit
  of_p2p = with_status 200 (λ r. got tt)

  abbrev pub of_stream : Response → Reply Bytes
  of_stream = with_status 200 (λ r. got r.body)

  abbrev pub of_flag : Response → Reply Bool
  of_flag = with_status 200 (λ r. if_decoded (wire.decode_flag r.body))

  abbrev pub of_volumes : Response → Reply (List VolumeResponse)
  of_volumes = with_status 200 (json_body wire.decode_volumes)

abbrev pub of_deletion : Response → Reply Unit
of_deletion r = if nat_eq r.status 204 then got tt else gave_up volume_deletion

module _ {A B : Type 0} where
  abbrev pub map_reply : (A → B) → Reply A → Reply B
  map_reply f (got a) = got (f a)
  map_reply f (gave_up e) = gave_up e

  abbrev pub map_option : (A → B) → Option A → Option B
  map_option f none = none
  map_option f (some a) = some (f a)

abbrev pub of_get : Wire → Response → Reply (Option VolumeResponse)
of_get wire r =
    if nat_eq r.status 200
    then map_reply some (json_body wire.decode_volume r)
    else if nat_eq r.status 404
    then got none
    else gave_up (get_error wire r)

-- `Properties` of a volume
abbrev pub if_found : Reply (Option VolumeResponse) → Reply Properties
if_found (got none) = gave_up volume_missing
if_found (got (some r)) = got r.properties
if_found (gave_up e) = gave_up e

abbrev pub if_sent : {A : Type 0} → (Response → Reply A) → Sent → Reply A
if_sent judge (lost n) = gave_up (transport n)
if_sent judge (received r) = judge r

-- Each property is a parameter of the query, with one value.
unfoldable pub query_of : Properties → List (String × List String)
query_of [] = []
query_of ((name, value) ∷ properties) = (name, value ∷ []) ∷ query_of properties

module _ {S : Type 0} (client : Client S) where
  -- a request is made, sent, and what comes back is judged
  unfoldable pub exchange : {A : Type 0} → Request → (Response → Reply A) → Call S A
  exchange request judge s = elim (client.request_error request) [
    | some n ↦ (gave_up (transport n), s)
    | none ↦ let (sent, s') = client.send request s in (if_sent judge sent, s')
  ]

  -- The same where the request is used before the error of making it is looked at.
  unfoldable pub exchange_unchecked : {A : Type 0} → Request → (Response → Reply A) → Call S A
  exchange_unchecked request judge s = elim (client.request_error request) [
    | some n ↦ (gave_up nil_pointer, s)
    | none ↦ let (sent, s') = client.send request s in (if_sent judge sent, s')
  ]

  unfoldable pub list_volumes : Option Properties → Call S (List ClientVolume)
  list_volumes none s =
      let (reply, s') = exchange (Request.list_volumes []) (of_volumes client.wire) s in
      (map_reply (map new_volume) reply, s')
  list_volumes (some properties) s =
      let (reply, s') =
        exchange (Request.list_volumes (query_of properties)) (of_volumes client.wire) s in
      (map_reply (map new_volume) reply, s')

  unfoldable pub get_volume_response : String → Call S (Option VolumeResponse)
  get_volume_response h = exchange (Request.get_volume h) (of_get client.wire)

  unfoldable pub lookup_volume : String → Call S (Option ClientVolume)
  lookup_volume h s =
      let (reply, s') = get_volume_response h s in (map_reply (map_option new_volume) reply, s')

  unfoldable pub get_properties : String → Call S Properties
  get_properties h s = let (reply, s') = get_volume_response h s in (if_found reply, s')

  unfoldable pub destroy_volumes : List String → Call S Unit
  destroy_volumes hs = exchange (Request.destroy_volumes hs) of_deletion

  -- `DestroyVolume` of the client
  unfoldable pub destroy_volume : String → Call S Unit
  destroy_volume h = exchange (Request.destroy_volume h) of_deletion

  -- `destroy`, the method of a volume
  unfoldable pub destroy : String → Call S Unit
  destroy h = exchange (Request.destroy_volume h) (of_change client.wire)

  unfoldable pub get_privileged : String → Call S Bool
  get_privileged h = exchange (Request.get_privileged h) (of_flag client.wire)

  unfoldable pub set_privileged : String → Bool → Call S Unit
  set_privileged h b = exchange (Request.set_privileged h b) (of_change client.wire)

  unfoldable pub set_property : String → String → String → Call S Unit
  set_property h name value = exchange (Request.set_property h name value) (of_change client.wire)

  unfoldable pub stream_in : String → String → String → Bytes → Call S Unit
  stream_in h path encoding content =
      exchange_unchecked (Request.stream_in h path encoding content) (of_change client.wire)

  unfoldable pub stream_out : String → String → String → Call S Bytes
  stream_out h encoding path =
      exchange_unchecked (Request.stream_out h path encoding) (of_stream client.wire)

  unfoldable pub stream_p2p_out : String → String → String → String → Call S Unit
  stream_p2p_out h encoding path url =
      exchange_unchecked (Request.stream_p2p_out h path url encoding) (of_p2p client.wire)
