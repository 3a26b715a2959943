-- ===== src/Volume/Properties/Subset.antt =====
-- What `HasProperties` of volume/properties.go answers.
use baggageclaim.Prelude.{
  ◌≤◌, String, ◌≡◌, refl, ◌↔◌, true, none, some, [], ◌∷◌, length, eq_iff, arith, Option-cases, inl,
  inr,
}
use baggageclaim.Prelude.Table.{get, delete, get-delete, length-delete, IsMap}
use baggageclaim.Volume.Properties.Defs.{Properties, has_each, has_properties}

-- Every entry of `other` is an entry of `p`.
abbrev pub Within : Properties → Properties → Type 0
Within other p = (name value : String) → get name other ≡ some value → get name p ≡ some value

Within-tail :
    (p other : Properties) (k v : String)
    → IsMap ((k, v) ∷ other)
    → Within ((k, v) ∷ other) p
    → Within other p
unfolding get
Within-tail p other k v m h name value e = ground (arith, h name value, eq_iff k name)

Within-head : (p other : Properties) (k v : String) → Within ((k, v) ∷ other) p → get k p ≡ some v
unfolding get
Within-head p other k v h = h k v (ground (arith, eq_iff k k))

has_each-Within :
    (p other : Properties) (name value : String)
    → has_each p other ≡ true
    → get name other ≡ some value
    → get name p ≡ some value
unfolding has_each get
has_each-Within p [] name value h e = cc
has_each-Within p ((k, v) ∷ other) name value h e = elim (Option-cases (get k p)) [
  | inl missing ↦ ground arith
  | inr (u, found) ↦ ground (arith, has_each-Within p other name value, eq_iff k name, eq_iff u v)
]

Within-has_each : (p other : Properties) → IsMap other → Within other p → has_each p other ≡ true
unfolding has_each
Within-has_each p [] m h = refl
Within-has_each p ((k, v) ∷ other) m h = ground (
  arith,
  Within-head p other k v h,
  Within-has_each p other m.1 (Within-tail p other k v m h),
  eq_iff v v,
)

Within-delete :
    (p other : Properties) (k : String)
    → get k other ≡ none
    → Within other p
    → Within other (delete k p)
Within-delete p other k absent h name value e =
    ground (arith, get-delete name k p, h name value e, eq_iff k name)

-- The early return on the sizes loses nothing.
Within-length : (p other : Properties) → IsMap other → Within other p → length other ≤ length p
Within-length p [] m h = omega arith
Within-length p ((k, v) ∷ other) m h = omega (
  arith,
  length-delete k v p (Within-head p other k v h),
  Within-length (delete k p) other m.1 (Within-delete p other k m.0 (Within-tail p other k v m h)),
)

-- `HasProperties` answers true exactly when every entry of the other map is an entry of this one,
-- in whatever order the maps are walked.
pub has_properties_iff :
    (p other : Properties) → IsMap other → (has_properties p other ≡ true) ↔ Within other p
unfolding has_properties
has_properties_iff p other m = (
  λ h name value e. has_each-Within p other name value (ground arith) e,
  λ h. ground (arith, Within-length p other m h, Within-has_each p other m h),
)
