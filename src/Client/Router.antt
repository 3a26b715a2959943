-- ===== src/Client/Router.antt =====
-- The router of api/handler.go, and the goroutines that its handlers start.
use baggageclaim.Prelude.{
  String, Bool, true, false, Option, none, some, List, ◌==◌, nat_eq, if◌then◌else◌,
}
use baggageclaim.Disk.World.{World}
use baggageclaim.Volume.Repository
use baggageclaim.Volume.Repository.{Repository, Volume, stream_out, stream_p2p_out}
use baggageclaim.Api.{
  Answer, failed, Promises, finish_async, check_async, cancel_async, destroy_volume_request,
  destroy_volumes_request, get_volume_request, list_volumes_request, set_property_request,
  get_privileged_request, set_privileged_request, stream_in_request, stream_out_request,
  stream_p2p_out_request,
}
use baggageclaim.Client.Routes.{route_of}
use baggageclaim.Client.Wire.{Request, Wire, Sent, Client}
use baggageclaim.Client.Serve.{
  Server, respond, handled, no_body, stream_out_message, is_missing, p2p_text, check_response,
  cancel_response, Job, create_async_request,
}

module _ (server : Server) where
  abbrev pub repo : Repository
  repo = server.repo

  abbrev pub wire : Wire
  wire = server.wire

  abbrev pub async_message : Answer String → String
  async_message (failed status) =
      if nat_eq status 500 then "promise already exists in list" else "failed to create volume"
  async_message _ = ""

  -- What the handler of the request's own route does.
  unfoldable pub handle : Request → Promises × World → Sent × (Promises × World)
  handle (Request.create_volume_async request) (s, w) =
      let (s', a, started) = create_async_request server.codec server.generated request s in
      (respond server false (async_message a) wire.encode_future a, (s', w))
  handle (Request.create_volume_async_check h) (s, w) =
      (check_response server (check_async h s), (s, w))
  handle (Request.create_volume_async_cancel h) (s, w) =
      let (s', a) = cancel_async h s in (cancel_response server a, (s', w))
  handle (Request.list_volumes query) (s, w) =
      let (sent, w') =
        handled server true "failed to list volumes" wire.encode_volumes
          (list_volumes_request repo query) w in
      (sent, (s, w'))
  handle (Request.get_volume h) (s, w) =
      let (sent, w') =
        handled server true "failed to get volume" wire.encode_volume (get_volume_request repo h)
          w in
      (sent, (s, w'))
  handle (Request.destroy_volumes hs) (s, w) =
      let (sent, w') =
        handled server true "failed to destroy volume" no_body
          (destroy_volumes_request repo (some hs)) w in
      (sent, (s, w'))
  handle (Request.destroy_volume h) (s, w) =
      let (sent, w') =
        handled server false "failed to destroy volume" no_body (destroy_volume_request repo h) w in
      (sent, (s, w'))
  handle (Request.set_property h name value) (s, w) =
      let (sent, w') =
        handled server false "failed to set property on volume" no_body
          (set_property_request repo h name (some value)) w in
      (sent, (s, w'))
  handle (Request.get_privileged h) (s, w) =
      let (sent, w') =
        handled server true "failed to get privileged status of volume" wire.encode_flag
          (get_privileged_request repo h) w in
      (sent, (s, w'))
  handle (Request.set_privileged h b) (s, w) =
      let (sent, w') =
        handled server false "failed to change privileged status of volume" no_body
          (set_privileged_request repo h (some b)) w in
      (sent, (s, w'))
  handle (Request.stream_in h path encoding content) (s, w) =
      let (sent, w') =
        handled server false "failed to stream in to volume" no_body
          (stream_in_request repo h path encoding content) w in
      (sent, (s, w'))
  handle (Request.stream_out h path encoding) (s, w) =
      let message = stream_out_message (stream_out repo h path encoding w).0 in
      let (sent, w') =
        handled server false message (λ bs. bs) (stream_out_request repo h path encoding) w in
      (sent, (s, w'))
  handle (Request.stream_p2p_out h path url encoding) (s, w) =
      let message =
        p2p_text (is_missing path url encoding)
          (stream_p2p_out repo h path encoding server.peer w).0 in
      let (sent, w') =
        handled server false message no_body
          (stream_p2p_out_request repo h path url encoding server.peer) w in
      (sent, (s, w'))

  -- the list that DestroyVolumes decodes from the body of a request, if it can
  abbrev pub handles_of : Request → Option (List String)
  handles_of (Request.destroy_volumes hs) = some hs
  handles_of _ = none

  abbrev pub destroy_listed : Option (List String) → Promises × World → Sent × (Promises × World)
  destroy_listed handles (s, w) =
      let (sent, w') =
        handled server true "failed to destroy volume" no_body
          (destroy_volumes_request repo handles) w in
      (sent, (s, w'))

  abbrev pub is_route : String → Option String → Bool
  is_route name none = false
  is_route name (some taken) = taken == name

  -- The handler of the route that the router finds. Any request that does not go to DestroyVolumes
  -- goes to the route that it was made by: see `route_of_lem`.
  unfoldable pub serve : Request → Promises × World → Sent × (Promises × World)
  unfolding handle
  serve request st =
      if is_route "DestroyVolumes" (route_of request)
      then destroy_listed (handles_of request) st
      else handle request st

  -- the goroutine that the request starts
  unfoldable pub started : Request → Promises → Option Job
  started (Request.create_volume_async request) s =
      let (s', a, job) = create_async_request server.codec server.generated request s in job
  started _ s = none

  -- `doCreate` in its goroutine
  unfoldable pub run_job : Option Job → Promises × World → Promises × World
  run_job none st = st
  run_job (some job) (s, w) =
      let (r, w') =
        Repository.create_volume repo job.handle job.strategy job.properties job.privileged w in
      finish_async repo job.promise r s w'

  -- a client of this server, over a network that loses nothing
  abbrev pub client_of : Client (Promises × World)
  client_of = record { wire = server.wire; request_error = λ request. none; send = serve }
