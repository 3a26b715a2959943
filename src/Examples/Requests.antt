-- ===== src/Examples/Requests.antt =====
-- Requests to a server over the small disks.
use baggageclaim.Prelude.{◌≡◌, refl, false, none, some, [], ◌∷◌}
use baggageclaim.Prelude.Table.{get}
use baggageclaim.Disk.World.{node, live}
use baggageclaim.Disk.Action.{ok}
use baggageclaim.Disk.Calls.{stat}
use baggageclaim.Disk.Action.{call}
use baggageclaim.Volume.Filesystem.{lookup_volume}
use baggageclaim.Volume.Driver.Naive.{naive-IsConfined}
use baggageclaim.Volume.Strategy.Strategerizer.{
  encode, empty_strategy, cow_strategy, strategy_for-encode,
}
use baggageclaim.Volume.Strategy.{materialize, materialize_cow}
use baggageclaim.Volume.Repository.{create_volume}
use baggageclaim.Volume.Promise.{new_promise, get_promise}
use baggageclaim.Disk.Action.{err, no_strategy}
use baggageclaim.Volume.Repository.{destroy_volume}
use baggageclaim.Api.Async.{create_async_lem}
use baggageclaim.Api.{
  Promises, no_content, creation_failed, create_async, check_async, cancel_async, finish_async,
  VolumeRequest, created, found, failed, create_volume_request, get_volume_request,
  list_volumes_request, get_privileged_request,
}
use baggageclaim.Api.Answers.{
  shown, create_request_refused, get_request-create_request, get_requests_read,
}
use baggageclaim.Examples.Setting.{json-IsJson, objects, host, repo}
use baggageclaim.Examples.Volumes.{base_world, base_world-NoFaults, created_volume, creating_run}

abbrev layer_request : VolumeRequest
layer_request = record {
  handle = "layer";
  strategy = some (encode objects (cow_strategy "gone"));
  properties = [];
  privileged = false;
}

refused_run :
    (create_volume_request repo objects none (some layer_request) base_world).0 ≡ ok (failed 422)
unfolding create_volume_request create_volume materialize materialize_cow lookup_volume stat call
    get
refused_run = rw (strategy_for-encode objects (cow_strategy "gone")) refl

create_request_refused_example :
    node live "base" (create_volume_request repo objects none (some layer_request) base_world).1
    ≡ node live "base" base_world
create_request_refused_example =
    create_request_refused repo (naive-IsConfined host) layer_request base_world objects none 422
      refused_run "base"

abbrev new_request : VolumeRequest
new_request = record {
  handle = "";
  strategy = some (encode objects empty_strategy);
  properties = ("ttl", "1h") ∷ [];
  privileged = false;
}

created_run :
    (create_volume_request repo objects (some "new") (some new_request) base_world).0
    ≡ ok (created created_volume)
unfolding create_volume_request
created_run = rw (strategy_for-encode objects empty_strategy) (rw creating_run refl)

get_request-create_request_example :
    (get_volume_request repo "new"
      (create_volume_request repo objects (some "new") (some new_request) base_world).1).0
    ≡ ok (found (shown created_volume false))
get_request-create_request_example =
    get_request-create_request repo (naive-IsConfined host) new_request base_world json-IsJson
      base_world-NoFaults objects (some "new") created_volume created_run

get_requests_read_example :
    (node live "base" (list_volumes_request repo (("team", "main" ∷ []) ∷ []) base_world).1
      ≡ node live "base" base_world)
    × (node live "base" (get_volume_request repo "base" base_world).1 ≡ node live "base" base_world)
    × (node live "base" (get_privileged_request repo "base" base_world).1
        ≡ node live "base" base_world)
    × ((get_privileged_request repo "base" base_world).1.held ≡ [])
get_requests_read_example =
    get_requests_read repo (("team", "main" ∷ []) ∷ []) "base" base_world live "base"

abbrev pub no_promises : Promises
no_promises = record { made = λ i. new_promise; next = 0; listed = [] }

pub no_promises_fresh : get_promise no_promises.listed "new" ≡ none
unfolding get_promise get
no_promises_fresh = refl

create_async_lem_example :
    let s = (create_async "new" no_promises).0 in
    let canceled = (cancel_async "new" s).0 in
    ((create_async "new" no_promises).1 ≡ created "new")
    × (check_async "new" s ≡ no_content)
    × (check_async "new" (finish_async repo 0 (ok created_volume) s base_world).0
        ≡ found created_volume)
    × ((finish_async repo 0 (ok created_volume) s base_world).1 ≡ base_world)
    × (check_async "new" (finish_async repo 0 (err no_strategy) s base_world).0
        ≡ creation_failed no_strategy)
    × ((cancel_async "new" s).1 ≡ no_content)
    × (check_async "new" canceled ≡ failed 404)
    × ((finish_async repo 0 (ok created_volume) canceled base_world).1
        ≡ (destroy_volume repo "new" base_world).1)
create_async_lem_example =
    create_async_lem repo no_promises "new" created_volume no_strategy base_world no_promises_fresh
