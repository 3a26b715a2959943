-- ===== src/Api/Answers.antt =====
-- What the answers of the server tell a client.
use baggageclaim.Prelude.{ℕ, String, ◌≡◌, refl, Bool, Option, none, some, List}
use baggageclaim.Disk.World.{World, NoFaults, Stage, node, live}
use baggageclaim.Disk.Frame.{Places, Keeps, frame_rules}
use baggageclaim.Prelude.Table.{Table}
use baggageclaim.Volume.Properties.Query.{
  Converted, properties, many_values, index_panic, convert_query_to_properties,
}
use baggageclaim.Volume.Repository.Frame.{
  list_volumes-Keeps_all, get_volume-Keeps, get_privileged-Keeps,
}
use baggageclaim.Disk.Action.{
  Error, parent_volume_not_found, no_parent_volume_provided, Result, ok, err,
}
use baggageclaim.Volume.Strategy.Strategerizer.{Strategy, ObjectCodec, strategy_for}
use baggageclaim.Volume.Filesystem.Frame.{IsConfined}
use baggageclaim.Volume.Metadata.Json.{IsJson}
use baggageclaim.Volume.Repository.{Repository, Volume, create_volume}
use baggageclaim.Volume.Repository.Create.{create_volume_failing}
use baggageclaim.Volume.Repository.Created.{get_volume-create_volume}
use baggageclaim.Api.Server.{
  created, found, failed, VolumeRequest, creation_failed, creation_answer, do_create, with_handle,
  create_volume_request, get_volume_request, list_volumes_request, if_converted,
  get_privileged_request,
}

creation_failed_lem : (e : Error) → (n : ℕ) × (creation_failed e ≡ failed n)
creation_failed_lem parent_volume_not_found = (422, refl)
creation_failed_lem no_parent_volume_provided = (422, refl)
creation_failed_lem _ = (500, refl)

created_of : (r : Result Volume) {vol : Volume} → creation_answer r ≡ created vol → r ≡ ok vol
created_of (ok v) h = cc h
created_of (err e) h = absurd (cc (h, (creation_failed_lem e).1))

failed_of : (r : Result Volume) {n : ℕ} → creation_answer r ≡ failed n → (e : Error) × (r ≡ err e)
failed_of (ok v) h = absurd (cc h)
failed_of (err e) h = (e, refl)

-- what `GetVolume` shows of a volume that was created with this flag
abbrev pub shown : Volume → Bool → Volume
shown vol b = record vol { privileged = b }

module _ (repo : Repository) (confined : IsConfined repo.driver) (request : VolumeRequest)
    (w : World) where
  do_create_refused :
      (h : String) (r : Result Strategy) {n : ℕ}
      → (do_create repo request h r w).0 ≡ ok (failed n)
      → (k : String) → node live k (do_create repo request h r w).1 ≡ node live k w
  do_create_refused h (err e) refused k = refl
  do_create_refused h (ok s) {n = n} refused k =
      let (e, broken) =
        failed_of (create_volume repo h s request.properties request.privileged w).0 {n = n}
          (cc refused) in
      create_volume_failing repo confined h s request.properties request.privileged w e broken k

  with_handle_refused :
      (codec : ObjectCodec) (o : Option String) {n : ℕ}
      → (with_handle repo codec request o w).0 ≡ ok (failed n)
      → (k : String) → node live k (with_handle repo codec request o w).1 ≡ node live k w
  with_handle_refused codec none refused k = refl
  with_handle_refused codec (some h) refused k =
      do_create_refused h (strategy_for codec request.strategy) refused k

  -- A request to create a volume that is answered with an error status has changed no entry of live/,
  -- whatever went wrong. The driver is taken to touch only the volume that it works on.
  pub create_request_refused :
      (codec : ObjectCodec) (generated : Option String) (n : ℕ)
      → (create_volume_request repo codec generated (some request) w).0 ≡ ok (failed n)
      → (k : String)
      → node live k (create_volume_request repo codec generated (some request) w).1 ≡ node live k w
  unfolding create_volume_request
  create_request_refused codec generated n refused k = with_handle_refused codec _ refused k

  module _ (laws : IsJson repo.json) (nf : NoFaults w) where
    do_create-created :
        (h : String) (r : Result Strategy) (vol : Volume)
        → (do_create repo request h r w).0 ≡ ok (created vol)
        → (get_volume_request repo vol.handle (do_create repo request h r w).1).0
          ≡ ok (found (shown vol request.privileged))
    unfolding get_volume_request
    do_create-created h (err e) vol done = absurd (cc done)
    do_create-created h (ok s) vol done =
        let made =
          created_of (create_volume repo h s request.properties request.privileged w).0 {vol = vol}
            (cc done) in
        let (got, reported) =
          get_volume-create_volume repo h request.properties request.privileged laws confined s w nf
            made in
        rw (reported, got)

    with_handle-created :
        (codec : ObjectCodec) (o : Option String) (vol : Volume)
        → (with_handle repo codec request o w).0 ≡ ok (created vol)
        → (get_volume_request repo vol.handle (with_handle repo codec request o w).1).0
          ≡ ok (found (shown vol request.privileged))
    with_handle-created codec none vol done = absurd (cc done)
    with_handle-created codec (some h) vol done =
        do_create-created h (strategy_for codec request.strategy) vol done

    -- When no call fails and a request to create a volume is answered 201, a request for the volume of
    -- the handle in that answer is answered 200, with the same volume but for the flag, which is the
    -- one that was asked for. The driver is taken to touch only the volume that it works on.
    pub get_request-create_request :
        (codec : ObjectCodec) (generated : Option String) (vol : Volume)
        → (create_volume_request repo codec generated (some request) w).0 ≡ ok (created vol)
        → (get_volume_request repo vol.handle
            (create_volume_request repo codec generated (some request) w).1).0
          ≡ ok (found (shown vol request.privileged))
    unfolding create_volume_request
    get_request-create_request codec generated vol done = with_handle-created codec _ vol done

module _ {P : Places} (repo : Repository) where
  list_volumes_request-Keeps :
      (values : Table (List String)) → Keeps P (list_volumes_request repo values)
  unfolding list_volumes_request
  list_volumes_request-Keeps values = if_converted-Keeps (convert_query_to_properties values)
    where
      if_converted-Keeps : (c : Converted) → Keeps P (if_converted repo c)
      if_converted-Keeps (properties query) = search (frame_rules, list_volumes-Keeps_all) depth 9
      if_converted-Keeps (many_values name) = search frame_rules
      if_converted-Keeps index_panic = search frame_rules

  get_volume_request-Keeps : (h : String) → Keeps P (get_volume_request repo h)
  unfolding get_volume_request
  get_volume_request-Keeps h = search (frame_rules, get_volume-Keeps) depth 9

  get_privileged_request-Keeps : (h : String) → Keeps P (get_privileged_request repo h)
  unfolding get_privileged_request
  get_privileged_request-Keeps h = search (frame_rules, get_privileged-Keeps) depth 9

-- A request to list volumes, to get one, or to get its flag changes no entry of the disk, however it is
-- answered, and the last of them gives back the lock that it takes.
pub get_requests_read :
    (repo : Repository) (values : Table (List String)) (h : String) (w : World) (s : Stage)
    (k : String)
    → (node s k (list_volumes_request repo values w).1 ≡ node s k w)
      × (node s k (get_volume_request repo h w).1 ≡ node s k w)
      × (node s k (get_privileged_request repo h w).1 ≡ node s k w)
      × ((get_privileged_request repo h w).1.held ≡ w.held)
get_requests_read repo values h w s k = (
  ((list_volumes_request-Keeps {P = λ s k. Unit} repo values).at w).nodes s k tt,
  ((get_volume_request-Keeps {P = λ s k. Unit} repo h).at w).nodes s k tt,
  ((get_privileged_request-Keeps {P = λ s k. Unit} repo h).at w).nodes s k tt,
  ((get_privileged_request-Keeps {P = λ s k. Unit} repo h).at w).held,
)
