-- ===== src/Volume/Strategy/Strategerizer.antt =====
-- volume/strategerizer.go, and the JSON that the strategies of client.go encode to.
use baggageclaim.Prelude.{
  String, ◌≡◌, Bool, false, Option, none, some, [], ◌∷◌, ◌==◌, if◌then◌else◌,
}
use baggageclaim.Prelude.Table.{Table, get}
use baggageclaim.Disk.World.{Bytes}
use baggageclaim.Disk.Action.{Result, ok, err, no_strategy, unknown_strategy, malformed_strategy}

pub data Strategy : Type 0 where
  empty_strategy : Strategy
  cow_strategy : (parent_handle : String) → Strategy
  import_strategy : (path : String) → (follow_symlinks : Bool) → Strategy

-- A decoded JSON value, as far as a type assertion tells values apart.
pub data Value : Type 0 where
  text : String → Value
  boolean : Bool → Value
  other : Value

-- A JSON object, as encoding/json writes it and reads it back.
pub record ObjectCodec : Type 0 where
  pub marshal : Table Value → Bytes
  pub unmarshal : Bytes → Option (Table Value)
  pub unmarshal-marshal : (t : Table Value) → unmarshal (marshal t) ≡ some t

-- `x, _ := v.(string)` and `x, _ := v.(bool)`
abbrev pub text_or_empty : Option Value → String
text_or_empty (some (text s)) = s
text_or_empty _ = ""

abbrev pub true_or_false : Option Value → Bool
true_or_false (some (boolean b)) = b
true_or_false _ = false

abbrev pub of_type : Table Value → Option Value → Result Strategy
of_type info (some (text t)) =
    if t == "empty"
    then ok empty_strategy
    else if t == "cow"
    then ok (cow_strategy (text_or_empty (get "volume" info)))
    else if t == "import"
    then ok (
        import_strategy (text_or_empty (get "path" info))
          (true_or_false (get "follow_symlinks" info)))
    else err unknown_strategy
of_type info _ = err unknown_strategy

abbrev of_info : Option (Table Value) → Result Strategy
of_info none = err malformed_strategy
of_info (some info) = of_type info (get "type" info)

module _ (codec : ObjectCodec) where
  unfoldable pub strategy_for : Option Bytes → Result Strategy
  unfolding get
  strategy_for none = err no_strategy
  strategy_for (some raw) = of_info (codec.unmarshal raw)

  -- `Encode` of the client's strategies
  unfoldable pub encode : Strategy → Bytes
  encode empty_strategy = codec.marshal (("type", text "empty") ∷ [])
  encode (cow_strategy h) = codec.marshal (("type", text "cow") ∷ ("volume", text h) ∷ [])
  encode (import_strategy path follow) =
      codec.marshal
        (("type", text "import") ∷ ("path", text path) ∷ ("follow_symlinks", boolean follow) ∷ [])

  -- The server makes of every strategy that a client encodes the strategy that was meant.
  pub strategy_for-encode : (s : Strategy) → strategy_for (some (encode s)) ≡ ok s
  unfolding strategy_for encode
  strategy_for-encode empty_strategy = rw codec.unmarshal-marshal
  strategy_for-encode (cow_strategy h) = rw codec.unmarshal-marshal
  strategy_for-encode (import_strategy path follow) = rw codec.unmarshal-marshal
