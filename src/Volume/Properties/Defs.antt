-- ===== src/Volume/Properties/Defs.antt =====
-- The operations of volume/properties.go.
use baggageclaim.Prelude.{
  String, Bool, true, false, none, some, [], ◌∷◌, ltb, length, ◌==◌, if◌then◌else◌,
}
use baggageclaim.Prelude.Table.{Table, get, put}

abbrev pub Properties : Type 0
Properties = Table String

-- the loop of `HasProperties` over the other map
unfoldable pub has_each : Properties → Properties → Bool
has_each p [] = true
has_each p ((name, value) ∷ other) = elim (get name p) [
  | none ↦ false
  | some found ↦ if found == value then has_each p other else false
]

unfoldable pub has_properties : Properties → Properties → Bool
unfolding has_each
has_properties p other = if ltb (length p) (length other) then false else has_each p other

-- the copying loop of `UpdateProperty`, on the map that it builds
unfoldable pub copy_into : Properties → Properties → Properties
copy_into updated [] = updated
copy_into updated ((name, value) ∷ p) = copy_into (put name value updated) p

unfoldable pub update_property : Properties → String → String → Properties
unfolding copy_into
update_property p name value = put name value (copy_into [] p)
