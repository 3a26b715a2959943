-- ===== src/Client/Query.antt =====
-- The query that a client writes and the server reads, api/query.go.
use baggageclaim.Prelude.{
  String, ◌≡◌, refl, sym, ◌∙◌, ap, append-nil, none, [], ◌∷◌, ◌++◌, append_assoc, eq_iff, arith,
}
use baggageclaim.Prelude.Table.{get, put, get-put, IsMap}
use baggageclaim.Volume.Properties.{Properties}
use baggageclaim.Volume.Properties.Query.{properties, convert_from, convert_query_to_properties}
use baggageclaim.Client.Defs.{query_of}

-- no key of the second table is in the first
abbrev Fresh : Properties → Properties → Type 0
Fresh found [] = Unit
Fresh found ((k, v) ∷ p) = (get k found ≡ none) × Fresh found p

put-fresh : (k v : String) (t : Properties) → get k t ≡ none → put k v t ≡ t ++ ((k, v) ∷ [])
unfolding get put
put-fresh k v [] fresh = refl
put-fresh k v ((j, u) ∷ t) fresh = ground (arith, put-fresh k v t)

put-Fresh :
    (k v : String) (found p : Properties) → get k p ≡ none → Fresh found p → Fresh (put k v found) p
unfolding get
put-Fresh k v found [] new fresh = tt
put-Fresh k v found ((j, u) ∷ p) new (f, fresh) = (
  ground (arith, get-put j k v found, eq_iff j k, eq_iff k j),
  put-Fresh k v found p (ground arith) fresh,
)

convert_from-query_of :
    (found p : Properties)
    → IsMap p
    → Fresh found p
    → convert_from found (query_of p) ≡ properties (found ++ p)
unfolding convert_from query_of
convert_from-query_of found [] m fresh = ap properties (sym (append-nil found))
convert_from-query_of found ((k, v) ∷ p) (new, m) (f, fresh) =
    convert_from-query_of (put k v found) p m (put-Fresh k v found p new fresh)
    ∙ ap (λ (t : Properties). properties (t ++ p)) (put-fresh k v found f)
    ∙ ap properties (append_assoc found ((k, v) ∷ []) p)

empty-Fresh : (p : Properties) → Fresh [] p
unfolding get
empty-Fresh [] = tt
empty-Fresh ((k, v) ∷ p) = (refl, empty-Fresh p)

-- The server reads from the query that the client writes for some properties exactly those
-- properties.
pub convert_query-query_of :
    (p : Properties) → IsMap p → convert_query_to_properties (query_of p) ≡ properties p
unfolding convert_query_to_properties
convert_query-query_of p m = convert_from-query_of [] p m (empty-Fresh p)
