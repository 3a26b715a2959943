-- ===== src/Api/Server.antt =====
-- The handlers of `VolumeServer`, over what is decoded from a request.
use baggageclaim.Prelude.{
  ℕ, String, Bool, true, false, Option, none, some, List, [], ◌∷◌, ◌==◌, ◌||◌, if◌then◌else◌,
}
use baggageclaim.Disk.World.{Bytes}
use baggageclaim.Disk.Action.{
  Error, volume_does_not_exist, unsupported_stream_encoding, no_parent_volume_provided,
  parent_volume_not_found, not_exist, Result, ok, err, Action, pure, attempt, ◌>>=◌,
}
use baggageclaim.Volume.Properties.{Properties}
use baggageclaim.Volume.Properties.Query.{
  Converted, properties, many_values, index_panic, convert_query_to_properties,
}
use baggageclaim.Volume.Strategy.Strategerizer.{Strategy, ObjectCodec, strategy_for}
use baggageclaim.Volume.Repository.{
  Repository, Volume, create_volume, destroy_volume, get_volume, list_volumes, set_property,
  get_privileged, set_privileged, stream_in, stream_out, stream_p2p_out,
}

-- The answer to a request. RespondWithError after the first bytes of a body cannot change the status
-- that was sent with them.
pub data Answer (A : Type 0) : Type 0 where
  created : A → Answer A  -- 201
  found : A → Answer A  -- 200
  no_content : Answer A  -- 204
  failed : (status : ℕ) → Answer A
  cut_off : A → Answer A  -- 200, and then an error
  aborted : Answer A  -- the handler panics

-- what is decoded from the body of a request to create a volume
pub record VolumeRequest : Type 0 where
  pub handle : String
  pub strategy : Option Bytes
  pub properties : Properties
  pub privileged : Bool

-- `creationFailed`
abbrev pub creation_failed : Error → Answer Volume
creation_failed parent_volume_not_found = failed 422
creation_failed no_parent_volume_provided = failed 422
creation_failed _ = failed 500

abbrev pub creation_answer : Result Volume → Answer Volume
creation_answer (ok volume) = created volume
creation_answer (err e) = creation_failed e

-- DestroyVolume, SetProperty and SetPrivileged answer an error alike.
abbrev pub change_answer : Result Unit → Answer Unit
change_answer (ok _) = no_content
change_answer (err volume_does_not_exist) = failed 404
change_answer (err _) = failed 500

abbrev pub get_answer : Result (Option Volume) → Answer Volume
get_answer (ok none) = failed 404
get_answer (ok (some volume)) = found volume
get_answer (err _) = failed 500

abbrev pub list_answer : Result (List Volume × List String) → Answer (List Volume)
list_answer (ok (volumes, corrupted)) = found volumes
list_answer (err _) = failed 500

abbrev pub privileged_answer : Result Bool → Answer Bool
privileged_answer (ok b) = found b
privileged_answer (err volume_does_not_exist) = failed 404
privileged_answer (err _) = failed 500

abbrev pub stream_in_failed : Bool → Error → Answer Unit
stream_in_failed bad volume_does_not_exist = failed 404
stream_in_failed bad unsupported_stream_encoding = failed 400
stream_in_failed bad _ = if bad then failed 400 else failed 500

abbrev pub stream_in_answer : Result (Bool × Option Error) → Answer Unit
stream_in_answer (ok (_, none)) = no_content
stream_in_answer (ok (bad, some e)) = stream_in_failed bad e
stream_in_answer (err e) = stream_in_failed false e

abbrev pub stream_out_failed : {A : Type 0} → Error → Answer A
stream_out_failed volume_does_not_exist = failed 404
stream_out_failed unsupported_stream_encoding = failed 400
stream_out_failed not_exist = failed 404
stream_out_failed _ = failed 500

abbrev pub stream_out_answer : Result (Bytes × Option Error) → Answer Bytes
stream_out_answer (ok (bs, none)) = found bs
stream_out_answer (ok ([], some e)) = stream_out_failed e
stream_out_answer (ok (b ∷ bs, some e)) = cut_off (b ∷ bs)
stream_out_answer (err e) = stream_out_failed e

abbrev pub p2p_answer : Result Unit → Answer Unit
p2p_answer (ok _) = found tt
p2p_answer (err e) = stream_out_failed e

-- whether the goroutine of a handle sends an error to the channel
abbrev pub is_failure : Result Unit → Bool
is_failure (ok _) = false
is_failure (err volume_does_not_exist) = false
is_failure (err _) = true

module _ (repo : Repository) where
  unfoldable pub destroy_volume_request : String → Action (Answer Unit)
  destroy_volume_request h = do r ← attempt (destroy_volume repo h); pure (change_answer r)

  -- The goroutines of the handles, in the order in which they come to run.
  unfoldable pub destroy_each : List String → Action Bool
  destroy_each [] = pure false
  destroy_each (h ∷ hs) =
      let rest = destroy_each hs in
      do r ← attempt (destroy_volume repo h); others ← rest; pure (is_failure r || others)

  abbrev pub any_failed : Bool → Answer Unit
  any_failed b = if b then failed 500 else no_content

  unfoldable pub destroy_volumes_request : Option (List String) → Action (Answer Unit)
  destroy_volumes_request none = pure (failed 400)
  destroy_volumes_request (some hs) = do b ← destroy_each hs; pure (any_failed b)

  unfoldable pub get_volume_request : String → Action (Answer Volume)
  get_volume_request h = do r ← attempt (get_volume repo h); pure (get_answer r)

  abbrev pub if_converted : Converted → Action (Answer (List Volume))
  if_converted (properties query) = do r ← attempt (list_volumes repo query); pure (list_answer r)
  if_converted (many_values name) = pure (failed 422)
  if_converted index_panic = pure aborted

  unfoldable pub list_volumes_request : List (String × List String) → Action (Answer (List Volume))
  list_volumes_request values = if_converted (convert_query_to_properties values)

  unfoldable pub set_property_request : String → String → Option String → Action (Answer Unit)
  set_property_request h name none = pure (failed 400)
  set_property_request h name (some value) = do
    r ← attempt (set_property repo h name value)
    pure (change_answer r)

  unfoldable pub get_privileged_request : String → Action (Answer Bool)
  get_privileged_request h = do r ← attempt (get_privileged repo h); pure (privileged_answer r)

  unfoldable pub set_privileged_request : String → Option Bool → Action (Answer Unit)
  set_privileged_request h none = pure (failed 400)
  set_privileged_request h (some b) = do
    r ← attempt (set_privileged repo h b)
    pure (change_answer r)

  unfoldable pub stream_in_request : String → String → String → Bytes → Action (Answer Unit)
  stream_in_request h path encoding stream = do
    r ← attempt (stream_in repo h path encoding stream)
    pure (stream_in_answer r)

  unfoldable pub stream_out_request : String → String → String → Action (Answer Bytes)
  stream_out_request h path encoding = do
    r ← attempt (stream_out repo h path encoding)
    pure (stream_out_answer r)

  -- A parameter of the query that is missing is empty.
  unfoldable pub stream_p2p_out_request :
      String → String → String → String → (Bytes → Bool) → Action (Answer Unit)
  stream_p2p_out_request h path url encoding answer =
      if path == "" || url == "" || encoding == ""
      then pure (failed 400)
      else do r ← attempt (stream_p2p_out repo h path encoding answer); pure (p2p_answer r)

  abbrev pub do_create : VolumeRequest → String → Result Strategy → Action (Answer Volume)
  do_create request h (err e) = pure (failed 422)
  do_create request h (ok strategy) = do
    r ← attempt (create_volume repo h strategy request.properties request.privileged)
    pure (creation_answer r)

  -- `generated` is the handle that `generateHandle` makes, or none where it fails.
  abbrev pub with_handle : ObjectCodec → VolumeRequest → Option String → Action (Answer Volume)
  with_handle codec request none = pure (failed 400)
  with_handle codec request (some h) = do_create request h (strategy_for codec request.strategy)

  unfoldable pub create_volume_request :
      ObjectCodec → Option String → Option VolumeRequest → Action (Answer Volume)
  create_volume_request codec generated none = pure (failed 400)
  create_volume_request codec generated (some request) =
      with_handle codec request (if request.handle == "" then generated else some request.handle)
