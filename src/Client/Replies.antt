-- ===== src/Client/Replies.antt =====
-- A client of a server does to the volumes what the repository does, and says how it went.
use baggageclaim.Prelude.{
  String, ◌≡◌, refl, Bool, true, false, Option, none, some, List, [], ◌∷◌, ◌++◌, map, ◌==◌,
  if◌then◌else◌,
}
use baggageclaim.Disk.World.{Bytes}
use baggageclaim.Disk.Action.{
  Error, volume_does_not_exist, unsupported_stream_encoding, not_exist, Result, ok, err,
}
use baggageclaim.Volume.Properties.{Properties}
use baggageclaim.Volume.Repository.{Volume}
use baggageclaim.Api.{
  failed, p2p_answer, change_answer, get_answer, list_answer, privileged_answer, stream_in_answer,
  stream_in_failed, stream_out_answer, stream_out_failed,
}
use baggageclaim.Client.Wire.{
  Wire, IsWire, volume_response, volume_responses, ClientError, volume_deletion, volume_not_found,
  file_not_found, volume_missing, message, Reply, got, gave_up,
}
use baggageclaim.Client.Defs.{
  ClientVolume, new_volume, map_reply, get_error, json_body, of_change, of_p2p, of_get, of_flag,
  of_volumes, of_stream, if_sent,
}
use baggageclaim.Client.Serve.{
  Server, respond, no_body, stream_out_text, stream_out_message, p2p_message,
}

-- the volume that a client makes of one of the repository
abbrev pub seen : Volume → ClientVolume
seen vol = record { handle = vol.handle; path = vol.path }

-- What a client is told of the result of an operation: a volume that does not exist, or else the text
-- of the handler.
abbrev pub failure : String → Error → ClientError
failure text volume_does_not_exist = volume_not_found
failure text _ = message text

abbrev pub told : {A : Type 0} → String → Result A → Reply A
told text (ok a) = got a
told text (err e) = gave_up (failure text e)

-- a lookup, where every error but a missing volume is the text of the handler
abbrev pub looked_up : {A : Type 0} → (Volume → A) → Result (Option Volume) → Reply (Option A)
looked_up f (ok none) = got none
looked_up f (ok (some vol)) = got (some (f vol))
looked_up f (err e) = gave_up (message "failed to get volume")

abbrev pub listed : Result (List Volume × List String) → Reply (List ClientVolume)
listed (ok (vols, corrupted)) = got (map seen vols)
listed (err e) = gave_up (message "failed to list volumes")

abbrev pub deleted : Bool → Reply Unit
deleted b = if b then gave_up volume_deletion else got tt

abbrev pub streamed_in : Result (Bool × Option Error) → Reply Unit
streamed_in (ok (bad, none)) = got tt
streamed_in (ok (bad, some e)) = gave_up (failure "failed to stream in to volume" e)
streamed_in (err e) = gave_up (failure "failed to stream in to volume" e)

abbrev pub stream_failure : Error → ClientError
stream_failure not_exist = file_not_found
stream_failure e = failure "failed to stream out from volume" e

-- An error after the first bytes of a stream is one more part of the stream.
abbrev pub streamed_out : Wire → Result (Bytes × Option Error) → Reply Bytes
streamed_out wire (ok (bs, none)) = got bs
streamed_out wire (ok ([], some e)) = gave_up (stream_failure e)
streamed_out wire (ok (b ∷ bs, some e)) = got ((b ∷ bs) ++ wire.encode_error (stream_out_text e))
streamed_out wire (err e) = gave_up (stream_failure e)

-- A volume that does not exist is told as a missing file here.
abbrev pub p2p_streamed : Result Unit → Reply Unit
p2p_streamed (ok u) = got tt
p2p_streamed (err volume_does_not_exist) = gave_up file_not_found
p2p_streamed (err not_exist) = gave_up file_not_found
p2p_streamed (err e) = gave_up (message "failed to stream p2p out from volume")

abbrev pub properties_of : Result (Option Volume) → Reply Properties
properties_of (ok none) = gave_up volume_missing
properties_of (ok (some vol)) = got vol.properties
properties_of (err e) = gave_up (message "failed to get volume")

map-seen : (vols : List Volume) → map new_volume (volume_responses vols) ≡ map seen vols
map-seen [] = refl
map-seen (v ∷ vols) = rw (map-seen vols) refl

module _ (server : Server) (laws : IsWire server.wire) where
  pub change_told :
      (json : Bool) (text : String) (r : Result Unit)
      → (text == "no such file or directory") ≡ false
      → if_sent (of_change server.wire) (respond server json text no_body (change_answer r))
        ≡ told text r
  unfolding get_error
  change_told json text (ok u) other = refl
  change_told json text (err volume_does_not_exist) other = rw (laws.error_law text) (rw other refl)
  change_told json text (err _) other = rw (laws.error_law text) (rw other refl)

  pub get-looked_up :
      (r : Result (Option Volume))
      → if_sent
          (of_get server.wire)
          (respond server true "failed to get volume" server.wire.encode_volume (get_answer r))
        ≡ looked_up volume_response r
  unfolding get_error json_body
  get-looked_up (ok none) = refl
  get-looked_up (ok (some vol)) = rw (laws.volume_law vol) refl
  get-looked_up (err e) = rw (laws.error_law "failed to get volume") refl

  pub flag_told :
      (r : Result Bool)
      → let text : String = "failed to get privileged status of volume" in
        if_sent
          (of_flag server.wire)
          (respond server true text server.wire.encode_flag (privileged_answer r))
        ≡ told text r
  unfolding get_error
  flag_told (ok b) = rw (laws.flag_law b) refl
  flag_told (err volume_does_not_exist) =
      rw (laws.error_law "failed to get privileged status of volume") refl
  flag_told (err _) = rw (laws.error_law "failed to get privileged status of volume") refl

  pub list_listed :
      (r : Result (List Volume × List String))
      → map_reply (map new_volume) (
          if_sent (of_volumes server.wire) (
            respond server true "failed to list volumes" server.wire.encode_volumes
              (list_answer r)))
        ≡ listed r
  unfolding get_error json_body
  list_listed (ok (vols, corrupted)) = rw (laws.volumes_law vols) (rw (map-seen vols) refl)
  list_listed (err e) = rw (laws.error_law "failed to list volumes") refl

  stream_in_refused :
      (bad : Bool) (e : Error)
      → if_sent
          (of_change server.wire)
          (respond server false "failed to stream in to volume" no_body (stream_in_failed bad e))
        ≡ gave_up (failure "failed to stream in to volume" e)
  unfolding get_error
  stream_in_refused bad volume_does_not_exist =
      rw (laws.error_law "failed to stream in to volume") refl
  stream_in_refused bad unsupported_stream_encoding =
      rw (laws.error_law "failed to stream in to volume") refl
  stream_in_refused true _ = rw (laws.error_law "failed to stream in to volume") refl
  stream_in_refused false _ = rw (laws.error_law "failed to stream in to volume") refl

  pub stream_in_streamed :
      (r : Result (Bool × Option Error))
      → if_sent
          (of_change server.wire)
          (respond server false "failed to stream in to volume" no_body (stream_in_answer r))
        ≡ streamed_in r
  stream_in_streamed (ok (bad, none)) = refl
  stream_in_streamed (ok (bad, some e)) = stream_in_refused bad e
  stream_in_streamed (err e) = stream_in_refused false e

  stream_out_refused :
      (e : Error)
      → if_sent
          (of_stream server.wire)
          (respond server false (stream_out_text e) (λ bs. bs) (stream_out_failed e))
        ≡ gave_up (stream_failure e)
  unfolding get_error
  stream_out_refused volume_does_not_exist =
      rw (laws.error_law "failed to stream out from volume") refl
  stream_out_refused unsupported_stream_encoding =
      rw (laws.error_law "failed to stream out from volume") refl
  stream_out_refused not_exist = rw (laws.error_law "no such file or directory") refl
  stream_out_refused _ = rw (laws.error_law "failed to stream out from volume") refl

  pub stream_out_streamed :
      (r : Result (Bytes × Option Error))
      → if_sent
          (of_stream server.wire)
          (respond server false (stream_out_message r) (λ bs. bs) (stream_out_answer r))
        ≡ streamed_out server.wire r
  stream_out_streamed (ok (bs, none)) = refl
  stream_out_streamed (ok ([], some e)) = stream_out_refused e
  stream_out_streamed (ok (b ∷ bs, some e)) = refl
  stream_out_streamed (err e) = stream_out_refused e

  pub p2p_refused :
      if_sent
        (of_p2p server.wire)
        (respond server false "failed to stream p2p out from volume" no_body (failed 400))
      ≡ gave_up (message "failed to stream p2p out from volume")
  unfolding get_error
  p2p_refused = rw (laws.error_law "failed to stream p2p out from volume") refl

  pub p2p_told :
      (r : Result Unit)
      → if_sent (of_p2p server.wire) (respond server false (p2p_message r) no_body (p2p_answer r))
        ≡ p2p_streamed r
  unfolding get_error
  p2p_told (ok tt) = refl
  p2p_told (err volume_does_not_exist) = rw (laws.error_law "no such file or directory") refl
  p2p_told (err not_exist) = rw (laws.error_law "no such file or directory") refl
  p2p_told (err unsupported_stream_encoding) =
      rw (laws.error_law "failed to stream p2p out from volume") refl
  p2p_told (err _) = rw (laws.error_law "failed to stream p2p out from volume") refl
