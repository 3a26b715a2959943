-- ===== src/Examples/Calls.antt =====
-- Calls of clients.
use baggageclaim.Prelude.{
  ℕ, zero, suc, ◌<◌, ◌≡◌, refl, true, false, none, some, List, [], ◌∷◌, arith,
}
use baggageclaim.Prelude.Table.{get}
use baggageclaim.Volume.Properties.Query.{properties, convert_query_to_properties}
use baggageclaim.Volume.Promise.{get_promise}
use baggageclaim.Volume.Repository
use baggageclaim.Volume.Repository.{Volume}
use baggageclaim.Client.{
  VolumeSpec, wait, destroy_future, create_volume, query_of, of_check, if_sent,
}
use baggageclaim.Client.Wire.{received, gave_up, Client}
use baggageclaim.Client.Waiting.{is_waiting, checked, check_sent, wait_ends}
use baggageclaim.Client.Query.{convert_query-query_of}
use baggageclaim.Client.Serve.{Server}
use baggageclaim.Client.Router.{client_of}
use baggageclaim.Client.Commands
use baggageclaim.Client.Commands.{Command}
use baggageclaim.Client.Cancel.{cancel_error, destroy_future_refused}
use baggageclaim.Client.Background.{running}
use baggageclaim.Client.Creation.{created_reply, create_volume-created}
use baggageclaim.Volume.Strategy.Strategerizer.{empty_strategy}
use baggageclaim.Examples.Setting.{objects, repo}
use baggageclaim.Examples.Volumes.{base_world}
use baggageclaim.Examples.Requests.{no_promises, no_promises_fresh}
use baggageclaim.Examples.Rows.{texts_wire, texts_wire-IsWire}

abbrev server : Server
server = record {
  repo = repo;
  codec = objects;
  generated = none;
  wire = texts_wire;
  peer = λ bs. true;
  reset = 104;
}

abbrev commands : List Command
commands =
    Commands.write_property "base" "ttl" "1h"
    ∷ Commands.list (some (("ttl", "1h") ∷ []))
    ∷ Commands.destroy "gone"
    ∷ []

destroy_future_refused_example :
    let after = destroy_future (client_of server) "new" (no_promises, base_world) in
    (after.0 ≡ gave_up (cancel_error "new" (get_promise no_promises.listed "new")))
    × (get_promise after.1.0.listed "new" ≡ none)
    × (after.1.1 ≡ base_world)
destroy_future_refused_example =
    destroy_future_refused server texts_wire-IsWire "new" no_promises base_world

abbrev spec : VolumeSpec
spec = record { strategy = none; properties = ("ttl", "1h") ∷ []; privileged = false }

create_volume-created_example :
    let made =
      Repository.create_volume repo "new" empty_strategy (("ttl", "1h") ∷ []) false base_world in
    let end =
      create_volume (running server) objects 3 "new" spec (2, (none, (no_promises, base_world))) in
    (end.0 ≡ created_reply made.0)
    × (end.1.1.1.1 ≡ made.1)
    × (get_promise end.1.1.1.0.listed "new" ≡ none)
create_volume-created_example =
    create_volume-created server "new" spec texts_wire-IsWire no_promises base_world refl
      no_promises_fresh 3 1 (omega arith)

-- a server that answers 204 as often as its state says, and then 404
abbrev status_at : ℕ → ℕ
status_at zero = 404
status_at (suc n) = 204

abbrev one_less : ℕ → ℕ
one_less zero = 0
one_less (suc n) = n

abbrev counting : Client ℕ
counting = record {
  wire = texts_wire;
  request_error = λ request. none;
  send = λ request n.
      (received (record { status = status_at n; content_type = ""; body = [] }), one_less n);
}

counting_waits : (j : ℕ) → j < 2 → is_waiting (check_sent counting "new" j 2) ≡ true
unfolding checked
counting_waits zero lt = refl
counting_waits (suc zero) lt = refl
counting_waits (suc (suc j)) lt = absurd (omega arith)

counting_ends : is_waiting (check_sent counting "new" 2 2) ≡ false
unfolding checked
counting_ends = refl

wait_ends_example : wait counting "new" 3 2 ≡ (
  if_sent (of_check texts_wire "new") (check_sent counting "new" 2 2),
  checked counting "new" 3 2,
)
wait_ends_example = wait_ends counting "new" 3 2 2 refl counting_waits counting_ends (omega arith)

convert_query-query_of_example :
    convert_query_to_properties (query_of (("ttl", "1h") ∷ ("team", "main") ∷ []))
    ≡ properties (("ttl", "1h") ∷ ("team", "main") ∷ [])
unfolding get
convert_query-query_of_example =
    convert_query-query_of (("ttl", "1h") ∷ ("team", "main") ∷ []) (refl, (refl, tt))
