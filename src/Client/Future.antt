-- ===== src/Client/Future.antt =====
-- client/volume_future.go, and `CreateVolume` of client/client.go on top of it.
use baggageclaim.Prelude.{ℕ, zero, suc, String, Bool, Option, none, some, nat_eq, if◌then◌else◌}
use baggageclaim.Volume.Properties.{Properties}
use baggageclaim.Volume.Strategy.Strategerizer.{Strategy, empty_strategy, ObjectCodec, encode}
use baggageclaim.Api.{VolumeRequest}
use baggageclaim.Client.Wire.{
  create_volume_async, create_volume_async_check, create_volume_async_cancel, Response, Wire,
  fuel_spent, transport, future_not_found, Reply, got, gave_up, Sent, received, lost, Client,
}
use baggageclaim.Client.Defs.{
  Call, ClientVolume, new_volume, get_error, json_body, map_reply, with_status, exchange,
  exchange_unchecked,
}

-- `baggageclaim.VolumeSpec`
pub record VolumeSpec : Type 0 where
  pub strategy : Option Strategy
  pub properties : Properties
  pub privileged : Bool

abbrev pub or_empty : Option Strategy → Strategy
or_empty none = empty_strategy
or_empty (some s) = s

-- what `Wait` makes of a response that is not 204
unfoldable pub of_check : Wire → String → Response → Reply ClientVolume
of_check wire h r =
    if nat_eq r.status 200
    then map_reply new_volume (json_body wire.decode_volume r)
    else if nat_eq r.status 404
    then gave_up (future_not_found h)
    else gave_up (get_error wire r)

abbrev pub of_cancel : Wire → String → Response → Reply Unit
of_cancel wire h r =
    if nat_eq r.status 200
    then got tt
    else if nat_eq r.status 404
    then gave_up (future_not_found h)
    else gave_up (get_error wire r)

module _ {S : Type 0} (client : Client S) (h : String) where
  -- 204 after a check: the loop goes on
  abbrev pub after_check : Call S ClientVolume → Sent × S → Reply ClientVolume × S
  after_check again (lost n, s) = (gave_up (transport n), s)
  after_check again (received r, s) =
      let later = again s in if nat_eq r.status 204 then later else (of_check client.wire h r, s)

  -- the loop of `Wait`, one unit of fuel for each check
  unfoldable pub poll : ℕ → Call S ClientVolume
  poll zero s = (gave_up fuel_spent, s)
  poll (suc n) s = after_check (poll n) (client.send (create_volume_async_check h) s)

  unfoldable pub wait : ℕ → Call S ClientVolume
  wait n s = elim (client.request_error (create_volume_async_check h)) [
    | some e ↦ (gave_up (transport e), s)
    | none ↦ poll n s
  ]

  -- `Destroy` of the future
  unfoldable pub destroy_future : Call S Unit
  destroy_future = exchange client (create_volume_async_cancel h) (of_cancel client.wire h)

  -- `Wait` with the deferred `Destroy`, whose result is dropped
  unfoldable pub wait_and_destroy : ℕ → Call S ClientVolume
  wait_and_destroy n s =
      let (reply, s') = wait n s in let (dropped, s'') = destroy_future s' in (reply, s'')

module _ {S : Type 0} (client : Client S) where
  abbrev pub if_future : ℕ → Reply String × S → Reply ClientVolume × S
  if_future n (gave_up e, s) = (gave_up e, s)
  if_future n (got h, s) = wait_and_destroy client h n s

  abbrev pub volume_request : ObjectCodec → String → VolumeSpec → VolumeRequest
  volume_request codec h spec = record {
    handle = h;
    strategy = some (encode codec (or_empty spec.strategy));
    properties = spec.properties;
    privileged = spec.privileged;
  }

  unfoldable pub create_volume : ObjectCodec → ℕ → String → VolumeSpec → Call S ClientVolume
  create_volume codec n h spec s = if_future n (
      exchange_unchecked client (create_volume_async (volume_request codec h spec))
        (with_status client.wire 201 (json_body client.wire.decode_future)) s)
