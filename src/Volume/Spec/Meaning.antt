-- ===== src/Volume/Spec/Meaning.antt =====
-- The volumes as those who ask for them see them: a map from handles, and what each call is to
-- answer and to do to the map. Only the naive driver's volumes and calls that do not fail are meant.
use baggageclaim.Prelude.{
  String, Bool, false, Option, none, some, List, [], ◌∷◌, ◌==◌, if◌then◌else◌,
}
use baggageclaim.Disk.World.{World, live}
use baggageclaim.Disk.Action.{
  Error, volume_does_not_exist, no_parent_volume_provided, parent_volume_not_found, exist, Result,
  ok, err,
}
use baggageclaim.Volume.Properties.{Properties, update_property}
use baggageclaim.Volume.Filesystem.{volume_at}
use baggageclaim.Volume.Strategy.Strategerizer.{Strategy, empty_strategy, cow_strategy}
use baggageclaim.Volume.Repository.{
  Repository, Volume, create_volume, destroy_volume, get_volume, set_property, volume_parent,
  get_privileged, set_privileged,
}

pub record Entry : Type 0 where
  pub properties : Properties
  pub privileged : Bool
  pub parent : Option String

abbrev pub Store : Type 0
Store = String → Option Entry

abbrev pub assign : String → Option Entry → Store → Store
assign h o σ k = if h == k then o else σ k

-- what a volume is made from: nothing, or another volume
pub data Origin : Type 0 where
  nothing : Origin
  layer_of : String → Origin

abbrev pub parent_of : Origin → Option String
parent_of nothing = none
parent_of (layer_of parent) = some parent

abbrev pub strategy_of : Origin → Strategy
strategy_of nothing = empty_strategy
strategy_of (layer_of parent) = cow_strategy parent

pub data Command : Type 0 where
  create : String → Origin → Properties → Bool → Command
  destroy : String → Command
  get : String → Command
  change_property : (handle name value : String) → Command
  find_parent : String → Command
  read_flag : String → Command
  change_flag : String → Bool → Command

pub data Reply : Type 0 where
  created : Result Volume → Reply
  changed : Result Unit → Reply
  found : Result (Option Volume) → Reply
  flag : Result Bool → Reply

abbrev pub reply : {A : Type 0} → (A → Reply) → A × World → Reply × World
reply f (a, w) = (f a, w)

-- the calls of the repository
unfoldable pub perform : Repository → Command → World → Reply × World
perform repo (create h o p b) w = reply created (create_volume repo h (strategy_of o) p b w)
perform repo (destroy h) w = reply changed (destroy_volume repo h w)
perform repo (get h) w = reply found (get_volume repo h w)
perform repo (find_parent h) w = reply found (volume_parent repo h w)
perform repo (change_property h name value) w = reply changed (set_property repo h name value w)
perform repo (read_flag h) w = reply flag (get_privileged repo h w)
perform repo (change_flag h b) w = reply changed (set_privileged repo h b w)

-- A volume that a creation returns never says that it is privileged.
abbrev pub shown : String → Bool → Entry → Volume
shown h b e = record {
  handle = h;
  path = volume_at live h;
  properties = e.properties;
  privileged = b;
}

-- why a volume cannot be made from an origin
abbrev pub origin_error : Origin → Store → Option Error
origin_error nothing σ = none
origin_error (layer_of parent) σ =
    if parent == ""
    then some no_parent_volume_provided
    else elim (σ parent) [ none ↦ some parent_volume_not_found | some _ ↦ none ]

abbrev pub add : String → Entry → Option Entry → Store → Reply × Store
add h e (some old) σ = (created (err exist), σ)
add h e none σ = (created (ok (shown h false e)), assign h (some e) σ)

abbrev pub make : String → Entry → Option Error → Store → Reply × Store
make h e (some refused) σ = (created (err refused), σ)
make h e none σ = add h e (σ h) σ

abbrev pub drop : String → Option Entry → Store → Reply × Store
drop h none σ = (changed (err volume_does_not_exist), σ)
drop h (some e) σ = (changed (ok tt), assign h none σ)

abbrev pub modify : String → (Entry → Entry) → Option Entry → Store → Reply × Store
modify h f none σ = (changed (err volume_does_not_exist), σ)
modify h f (some e) σ = (changed (ok tt), assign h (some (f e)) σ)

abbrev pub lookup : String → Option Entry → Option Volume
lookup h none = none
lookup h (some e) = some (shown h e.privileged e)

-- the parent that a volume was made from, if it is still there
abbrev pub above : Option String → Store → Option Volume
above none σ = none
above (some parent) σ = lookup parent (σ parent)

abbrev pub parent_reply : Option Entry → Store → Result (Option Volume)
parent_reply none σ = err volume_does_not_exist
parent_reply (some e) σ = ok (above e.parent σ)

abbrev pub flag_of : Option Entry → Result Bool
flag_of none = err volume_does_not_exist
flag_of (some e) = ok e.privileged

-- what each call is to answer and to do to the map
unfoldable pub meant : Command → Store → Reply × Store
meant (create h o p b) σ =
    make h (record { properties = p; privileged = b; parent = parent_of o }) (origin_error o σ) σ
meant (destroy h) σ = drop h (σ h) σ
meant (get h) σ = (found (ok (lookup h (σ h))), σ)
meant (find_parent h) σ = (found (parent_reply (σ h) σ), σ)
meant (change_property h name value) σ =
    modify h (λ e. record e { properties = update_property e.properties name value }) (σ h) σ
meant (read_flag h) σ = (flag (flag_of (σ h)), σ)
meant (change_flag h b) σ = modify h (λ e. record e { privileged = b }) (σ h) σ

-- the calls one after the other
unfoldable pub run_all :
    {S : Type 0} → (Command → S → Reply × S) → List Command → S → List Reply × S
run_all step [] s = ([], s)
run_all step (c ∷ cs) s =
    let (r, s') = step c s in let (rs, s'') = run_all step cs s' in (r ∷ rs, s'')
