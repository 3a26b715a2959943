-- ===== src/Client/Creation.antt =====
-- A creation from its client's call to its end.
use baggageclaim.Prelude.{ℕ, suc, ◌<◌, String, ◌≡◌, refl, ap, ◌∙◌, false, none, some, Option, ◌==◌}
use baggageclaim.Disk.World.{World}
use baggageclaim.Disk.Action.{
  Error, parent_volume_not_found, no_parent_volume_provided, Result, ok, err,
}
use baggageclaim.Volume.Promise.{get_promise}
use baggageclaim.Volume.Strategy.Strategerizer.{strategy_for-encode}
use baggageclaim.Volume.Repository
use baggageclaim.Volume.Repository.{Volume}
use baggageclaim.Api.{
  Promises, found, no_content, creation_failed, VolumeRequest, create_async, check_async,
  finish_async,
}
use baggageclaim.Api.Async.{create_async_lem}
use baggageclaim.Client.Wire.{create_volume_async, IsWire, message, Reply, got, gave_up}
use baggageclaim.Client.Defs.{
  exchange, exchange_unchecked, with_status, get_error, json_body, if_sent, ClientVolume,
}
use baggageclaim.Client.Future.{
  destroy_future, of_check, or_empty, VolumeSpec, volume_request, create_volume,
}
use baggageclaim.Client.Waiting.{is_waiting, create_volume-wait}
use baggageclaim.Client.Serve.{Server, Job, job_if, check_response, create_async_request}
use baggageclaim.Client.Router.{serve, handle, started, run_job, client_of}
use baggageclaim.Client.Replies.{seen}
use baggageclaim.Disk.World.{Stage}
use baggageclaim.Volume.Filesystem.{volume_at}
use baggageclaim.Api.{Answer}
use baggageclaim.Prelude.{[]}
use baggageclaim.Client.Cancel.{cancel_async-get}
use baggageclaim.Client.Background.{
  running, ends_after, check_sent-before, check_sent-after, checked-last,
}

-- what a client is told of a creation
abbrev pub created_reply : Result Volume → Reply ClientVolume
created_reply (ok vol) = got (seen vol)
created_reply (err e) = gave_up (message "failed to create volume")

creation_told :
    (server : Server) (laws : IsWire server.wire) (h : String) (e : Error)
    → if_sent (of_check server.wire h) (check_response server (creation_failed e))
      ≡ gave_up (message "failed to create volume")
unfolding of_check get_error
creation_told server laws h parent_volume_not_found =
    rw (laws.error_law "failed to create volume") refl
creation_told server laws h no_parent_volume_provided =
    rw (laws.error_law "failed to create volume") refl
creation_told server laws h _ = rw (laws.error_law "failed to create volume") refl

found_told :
    (server : Server) (laws : IsWire server.wire) (h : String) (vol : Volume)
    → if_sent (of_check server.wire h) (check_response server (found vol)) ≡ got (seen vol)
unfolding of_check json_body
found_told server laws h vol = rw (laws.volume_law vol) refl

module _ (server : Server) (h : String) (spec : VolumeSpec) where
  abbrev pub meant : VolumeRequest
  meant = volume_request (client_of server) server.codec h spec

  -- the goroutine that is to be started where `i` is the next promise
  abbrev job_at : ℕ → Job
  job_at i = record {
    promise = i;
    handle = h;
    strategy = or_empty spec.strategy;
    properties = spec.properties;
    privileged = spec.privileged;
  }

  create_async_request-fresh :
      (s : Promises)
      → (h == "") ≡ false
      → create_async_request server.codec server.generated meant s
        ≡ ((create_async h s).0, (create_async h s).1, job_if (create_async h s).1 (job_at s.next))
  unfolding create_async_request
  create_async_request-fresh s named =
      rw named (rw (strategy_for-encode server.codec (or_empty spec.strategy)) refl)

  abbrev final_answer : Result Volume → Answer Volume
  final_answer (ok vol) = found vol
  final_answer (err e) = creation_failed e

  final_told :
      (laws : IsWire server.wire) (r : Result Volume)
      → if_sent (of_check server.wire h) (check_response server (final_answer r)) ≡ created_reply r
  final_told laws (ok vol) = found_told server laws h vol
  final_told laws (err e) = creation_told server laws h e

  failed_ended : (e : Error) → is_waiting (check_response server (creation_failed e)) ≡ false
  failed_ended parent_volume_not_found = refl
  failed_ended no_parent_volume_provided = refl
  failed_ended _ = refl

  final_ended : (r : Result Volume) → is_waiting (check_response server (final_answer r)) ≡ false
  final_ended (ok vol) = refl
  final_ended (err e) = failed_ended e

  module _ (laws : IsWire server.wire) (s : Promises) (w : World) (named : (h == "") ≡ false)
      (fresh : get_promise s.listed h ≡ none) where
    abbrev accepted : Promises
    accepted = (create_async h s).0

    abbrev no_volume : Volume
    no_volume = record {
      handle = h;
      path = volume_at Stage.live h;
      properties = [];
      privileged = false;
    }

    -- the goroutine, and what the client is told after it
    finished :
        (r : Result Volume) (w' : World)
        → (check_async h (finish_async server.repo s.next r accepted w').0 ≡ final_answer r)
          × ((finish_async server.repo s.next r accepted w').1 ≡ w')
    unfolding finish_async
    finished (ok vol) w' =
        let laws = create_async_lem server.repo s h vol Error.not_exist w' fresh in (laws.2, laws.3)
    finished (err e) w' = ((create_async_lem server.repo s h no_volume e w' fresh).4, refl)

    still_pending : check_async h accepted ≡ no_content
    still_pending = (create_async_lem server.repo s h no_volume Error.not_exist w fresh).1

    started_job : started server (create_volume_async meant) s ≡ some (job_at s.next)
    unfolding started
    started_job =
        let answered = (create_async_lem server.repo s h no_volume Error.not_exist w fresh).0 in
        let given : job_if (create_async h s).1 (job_at s.next) ≡ some (job_at s.next) =
          rw answered refl in
        ap (λ (r : Promises × Answer String × Option Job). r.2) (create_async_request-fresh s named)
        ∙ given

    made_future :
        (k : ℕ)
        → exchange_unchecked
            (running server)
            (create_volume_async meant)
            (with_status server.wire 201 (json_body server.wire.decode_future))
            (suc k, (none, (s, w)))
          ≡ (got h, ends_after server k (some (job_at s.next)) (accepted, w))
    unfolding exchange_unchecked serve handle json_body
    made_future k =
        let answered = (create_async_lem server.repo s h no_volume Error.not_exist w fresh).0 in
        rw (create_async_request-fresh s named)
          (rw answered (rw (laws.future_law h) (rw started_job refl)))

    -- A creation in the background, whose goroutine the server starts with what it decodes of the
    -- request, ends for its client after any number of checks: CreateVolume of a client returns the
    -- volume that the repository creates from what the client asked for, or an error when that fails;
    -- the disk is as the repository's creation leaves it, and the server knows no promise of the handle
    -- any more. The handle is not empty and no creation of it is under way, the network loses nothing,
    -- no other request comes between, and the client checks as often as it takes.
    pub create_volume-created :
        (n k : ℕ)
        → k < n
        → let made =
            Repository.create_volume server.repo h
              (or_empty spec.strategy)
              spec.properties
              spec.privileged
              w in
          let end = create_volume (running server) server.codec n h spec (suc k, (none, (s, w))) in
          (end.0 ≡ created_reply made.0)
          × (end.1.1.1.1 ≡ made.1)
          × (get_promise end.1.1.1.0.listed h ≡ none)
    unfolding destroy_future exchange serve handle started run_job
    create_volume-created n k lt =
        let job = some (job_at s.next) in
        let made =
          Repository.create_volume server.repo h (or_empty spec.strategy) spec.properties
            spec.privileged w in
        let (told, kept) = finished made.0 made.1 in
        let sent = check_sent-after server h k job accepted w ∙ ap (check_response server) told in
        let runs =
          create_volume-wait (running server) server.codec n k h h spec (suc k, (none, (s, w)))
            (ends_after server k job (accepted, w)) (made_future k) refl
            (λ j l. check_sent-before server h j k job accepted w still_pending l)
            (ap is_waiting sent ∙ final_ended made.0) lt in
        rw runs (
          ap (if_sent (of_check server.wire h)) sent ∙ final_told laws made.0,
          rw (checked-last server h k job accepted w) kept,
          rw (checked-last server h k job accepted w)
              (cancel_async-get h (run_job server job (accepted, w)).0),
        )
