-- ===== src/Volume/Properties/Query.antt =====
-- api/query.go: the query string of a list request becomes the properties to look for. A parsed
-- query maps a name to the list of its values.
use baggageclaim.Prelude.{String, ◌≡◌, Option, none, some, List, [], ◌∷◌, eq_iff, arith}
use baggageclaim.Prelude.Table.{Table, get, put, get-put, IsMap}
use baggageclaim.Volume.Properties.Defs.{Properties}

-- `value[0]` of an empty slice panics. A parsed query has no name without a value.
pub data Converted : Type 0 where
  properties : Properties → Converted
  many_values : String → Converted
  index_panic : Converted

unfoldable pub convert_from : Properties → Table (List String) → Converted
convert_from found [] = properties found
convert_from found ((name, []) ∷ values) = index_panic
convert_from found ((name, value ∷ []) ∷ values) = convert_from (put name value found) values
convert_from found ((name, v ∷ w ∷ more) ∷ values) = many_values name

unfoldable pub convert_query_to_properties : Table (List String) → Converted
unfolding convert_from
convert_query_to_properties values = convert_from [] values

-- A property as the query spells it: one value.
abbrev pub only : Option String → Option (List String)
only none = none
only (some v) = some (v ∷ [])

abbrev or_else : Option (List String) → Option (List String) → Option (List String)
or_else none old = old
or_else (some l) old = some l

convert_from-only :
    (found p : Properties) (values : Table (List String)) (name : String)
    → IsMap values
    → convert_from found values ≡ properties p
    → only (get name p) ≡ or_else (get name values) (only (get name found))
unfolding convert_from get
convert_from-only found p [] name m h = ground arith
convert_from-only found p ((k, []) ∷ values) name m h = cc
convert_from-only found p ((k, v ∷ []) ∷ values) name m h = ground (
  arith,
  convert_from-only (put k v found) p values name m.1 h,
  get-put name k v found,
  eq_iff k name,
)
convert_from-only found p ((k, v ∷ w ∷ more) ∷ values) name m h = cc

-- A query that is accepted gives exactly its names, each with the one value that the query has for
-- it.
pub convert_query-only :
    (values : Table (List String)) (p : Properties) (name : String)
    → IsMap values
    → convert_query_to_properties values ≡ properties p
    → get name values ≡ only (get name p)
unfolding convert_query_to_properties get
convert_query-only values p name m h = ground (arith, convert_from-only [] p values name m h)

convert_from-many_values :
    (found : Properties) (values : Table (List String)) (name : String)
    → IsMap values
    → convert_from found values ≡ many_values name
    → (v w : String) × (more : List String) × (get name values ≡ some (v ∷ w ∷ more))
unfolding convert_from get
convert_from-many_values found [] name m h = absurd (cc)
convert_from-many_values found ((k, []) ∷ values) name m h = absurd (cc)
convert_from-many_values found ((k, v ∷ []) ∷ values) name m h =
    let (a, b, more, e) = convert_from-many_values (put k v found) values name m.1 h in
    (a, b, more, ground (arith, eq_iff k name))
convert_from-many_values found ((k, v ∷ w ∷ more) ∷ values) name m h =
    (v, w, more, ground (arith, eq_iff k name))
