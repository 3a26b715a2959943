-- ===== src/Volume/Properties/Update.antt =====
-- What `UpdateProperty` of volume/properties.go changes.
use baggageclaim.Prelude.{
  String, ◌≡◌, refl, Option, none, some, [], ◌∷◌, ◌==◌, eq_iff, if◌then◌else◌, arith,
}
use baggageclaim.Prelude.Table.{get, put, get-put, IsMap, put-IsMap}
use baggageclaim.Volume.Properties.Defs.{Properties, copy_into, update_property}

-- The entry of `p`, or else the one that was there.
abbrev or_else : Option String → Option String → Option String
or_else none old = old
or_else (some v) old = some v

get-copy_into :
    (j : String) (updated p : Properties)
    → IsMap p
    → get j (copy_into updated p) ≡ or_else (get j p) (get j updated)
unfolding copy_into get
get-copy_into j updated [] m = refl
get-copy_into j updated ((k, v) ∷ p) m =
    ground (arith, get-copy_into j (put k v updated) p m.1, get-put j k v updated, eq_iff k j)

-- After `UpdateProperty` the named property has the new value and every other one, present or
-- absent, is as it was, for a map of properties.
pub get-update_property :
    (p : Properties) (name value j : String)
    → IsMap p
    → get j (update_property p name value) ≡ (if name == j then some value else get j p)
unfolding update_property
get-update_property p name value j m =
    ground
      (arith, get-put j name value (copy_into [] p), get-copy_into j [] p m, empty j, eq_iff name j)
  where
    empty : (i : String) → get {V = String} i [] ≡ none
    empty i = unfold get in refl

copy_into-IsMap : (updated p : Properties) → IsMap updated → IsMap (copy_into updated p)
unfolding copy_into
copy_into-IsMap updated [] m = m
copy_into-IsMap updated ((k, v) ∷ p) m =
    copy_into-IsMap (put k v updated) p (put-IsMap k v updated m)

pub update_property-IsMap :
    (p : Properties) (name value : String) → IsMap (update_property p name value)
unfolding update_property
update_property-IsMap p name value = put-IsMap name value (copy_into [] p) (copy_into-IsMap [] p tt)
