-- ===== src/Client/Serve.antt =====
-- The server at the other end: api/volume_server.go and RespondWithError of api/handler.go, from an
-- answer of the handlers to the response that a client gets, and what CreateVolumeAsync starts.
use baggageclaim.Prelude.{
  ℕ, String, Bool, true, false, Option, none, some, [], ◌++◌, ◌==◌, ◌||◌, nat_eq, if◌then◌else◌,
}
use baggageclaim.Disk.World.{Bytes, World}
use baggageclaim.Disk.Action.{Error, volume_does_not_exist, not_exist, Result, ok, err, Action}
use baggageclaim.Volume.Strategy.Strategerizer.{Strategy, ObjectCodec, strategy_for}
use baggageclaim.Volume.Properties.{Properties}
use baggageclaim.Volume.Repository.{Repository, Volume}
use baggageclaim.Api.{
  Answer, created, found, no_content, failed, cut_off, aborted, VolumeRequest, Promises,
  create_async,
}
use baggageclaim.Client.Wire.{Response, Wire, Sent, received, lost}

-- A server with its parameters: the handle that `generateHandle` makes, or none where it fails, the
-- peer of a stream, and the error that a client gets when a handler panics.
pub record Server : Type 0 where
  pub repo : Repository
  pub codec : ObjectCodec
  pub generated : Option String
  pub wire : Wire
  pub peer : Bytes → Bool
  pub reset : ℕ

abbrev pub content_type : Wire → (json : Bool) → Bytes → String
content_type wire json body = if json then "application/json" else wire.sniffed body

abbrev pub response : Wire → (json : Bool) → ℕ → Bytes → Response
response wire json status body = record {
  status = status;
  content_type = content_type wire json body;
  body = body;
}

-- `json`: whether the handler sets the content type before it writes. `message`: the text of the
-- error that RespondWithError is given.
module _ {A : Type 0} (server : Server) (json : Bool) (message : String) (encode : A → Bytes) where
  abbrev pub respond : Answer A → Sent
  respond (created a) = received (response server.wire true 201 (encode a))
  respond (found a) = received (response server.wire json 200 (encode a))
  respond no_content = received (response server.wire json 204 [])
  respond (failed status) =
      received (response server.wire json status (server.wire.encode_error message))
  respond (cut_off a) =
      received (response server.wire json 200 (encode a ++ server.wire.encode_error message))
  respond aborted = lost server.reset

  abbrev pub if_answered : Result (Answer A) → Sent
  if_answered (ok a) = respond a
  if_answered (err e) = lost server.reset

  abbrev pub handled : Action (Answer A) → World → Sent × World
  handled handler w = let (r, w') = handler w in (if_answered r, w')

abbrev pub no_body : Unit {0} → Bytes
no_body tt = []

-- the error that StreamOut of the server answers
abbrev pub stream_out_text : Error → String
stream_out_text not_exist = "no such file or directory"
stream_out_text _ = "failed to stream out from volume"

abbrev pub stream_out_message : Result (Bytes × Option Error) → String
stream_out_message (ok (bs, none)) = ""
stream_out_message (ok (bs, some e)) = stream_out_text e
stream_out_message (err e) = stream_out_text e

-- the same of StreamP2pOut
abbrev pub p2p_message : {A : Type 0} → Result A → String
p2p_message (err not_exist) = "no such file or directory"
p2p_message (err volume_does_not_exist) = "no such file or directory"
p2p_message _ = "failed to stream p2p out from volume"

-- a parameter of the query that is missing or empty
abbrev pub is_missing : String → String → String → Bool
is_missing path url encoding = path == "" || url == "" || encoding == ""

abbrev pub p2p_text : {A : Type 0} → Bool → Result A → String
p2p_text missing r = if missing then "failed to stream p2p out from volume" else p2p_message r

-- The check of a creation sets the content type only where it answers 200, and has no body where it
-- answers 404.
abbrev pub check_response : Server → Answer Volume → Sent
check_response server (failed status) =
    if nat_eq status 404
    then received (response server.wire false 404 [])
    else respond server false "failed to create volume" server.wire.encode_volume (failed status)
check_response server a = respond server true "" server.wire.encode_volume a

-- The cancellation of a creation has no body.
abbrev pub cancel_response : Server → Answer Unit → Sent
cancel_response server (failed status) = received (response server.wire false status [])
cancel_response server a = respond server false "" no_body a

-- the goroutine that is started with `doCreate`: its arguments, and the promise that it settles
pub record Job : Type 0 where
  pub promise : ℕ
  pub handle : String
  pub strategy : Strategy
  pub properties : Properties
  pub privileged : Bool

-- It is started where the promise could be added.
abbrev pub job_if : Answer String → Job → Option Job
job_if (created h) job = some job
job_if _ job = none

-- `prepareCreate` of CreateVolumeAsync, before its promise is added
abbrev pub if_prepared :
    VolumeRequest → String → Result Strategy → Promises → Promises × Answer String × Option Job
if_prepared request h (err e) s = (s, failed 422, none)
if_prepared request h (ok strategy) s =
    let (s', a) = create_async h s in
    (
      s',
      a,
      job_if a (record {
        promise = s.next;
        handle = h;
        strategy = strategy;
        properties = request.properties;
        privileged = request.privileged;
      }),
    )

abbrev pub accept_as :
    ObjectCodec → VolumeRequest → Option String → Promises → Promises × Answer String × Option Job
accept_as codec request none s = (s, failed 400, none)
accept_as codec request (some h) s = if_prepared request h (strategy_for codec request.strategy) s

-- the handler: the promises after it, its answer, and the goroutine that it starts
unfoldable pub create_async_request :
    ObjectCodec → Option String → VolumeRequest → Promises → Promises × Answer String × Option Job
create_async_request codec generated request s =
    accept_as codec request (if request.handle == "" then generated else some request.handle) s
