-- ===== src/Examples/Tables.antt =====
-- Properties, queries and promises.
use baggageclaim.Prelude.{String, ◌≡◌, ◌≢◌, refl, ◌↔◌, true, Option, none, List, [], ◌∷◌}
use baggageclaim.Prelude.Table.{Table, get, put, IsMap}
use baggageclaim.Disk.Action.{Error, promise_canceled, no_strategy}
use baggageclaim.Volume.Properties.{Properties, has_properties}
use baggageclaim.Volume.Properties.Subset.{Within, has_properties_iff}
use baggageclaim.Volume.Properties.Query.{properties, convert_query_to_properties, convert_from}
use baggageclaim.Volume.Promise.{
  new_promise, fulfilling, rejecting, settle, settle_all, get_value, value, add_promise,
  first_settles,
}

abbrev two_properties : Properties
two_properties = ("team", "main") ∷ ("ttl", "1h") ∷ []

two_properties-IsMap : IsMap two_properties
unfolding get
two_properties-IsMap = (refl, (refl, tt))

has_properties_iff_example :
    (has_properties two_properties (("ttl", "1h") ∷ []) ≡ true)
    ↔ Within (("ttl", "1h") ∷ []) two_properties
unfolding get
has_properties_iff_example = has_properties_iff two_properties (("ttl", "1h") ∷ []) (refl, tt)

abbrev query : Table (List String)
query = ("team", "main" ∷ []) ∷ ("ttl", "1h" ∷ []) ∷ []

query-IsMap : IsMap query
unfolding get
query-IsMap = (refl, (refl, tt))

query_accepted : convert_query_to_properties query ≡ properties two_properties
unfolding convert_query_to_properties convert_from put
query_accepted = refl

first_settles_example :
    ((settle {V = String} new_promise (fulfilling "volume")).1 ≡ none)
    × (get_value {V = String}
          (settle_all new_promise (fulfilling "volume" ∷ rejecting promise_canceled ∷ []))
        ≡ value "volume")
    × ((settle {V = String}
          (settle_all new_promise (fulfilling "volume" ∷ rejecting promise_canceled ∷ []))
          (rejecting no_strategy)).1
        ≢ none)
first_settles_example =
    first_settles (fulfilling "volume") (rejecting no_strategy) (rejecting promise_canceled ∷ [])

abbrev old_promises : Table String
old_promises = ("a", "first") ∷ []

abbrev added : Table String × Option Error
added = add_promise old_promises "b" "second"
