-- ===== src/Volume/Repository/Defs.antt =====
-- The operations of `repository` on the volumes themselves.
use baggageclaim.Prelude.{
  String, Bool, false, Option, none, some, List, [], ◌∷◌, ◌==◌, if◌then◌else◌,
}
use baggageclaim.Disk.World.{BaseVolume}
use baggageclaim.Disk.Action.{
  volume_does_not_exist, volume_is_corrupted, Result, ok, err, Action, pure, raise, attempt, ◌>>=◌,
  ◌>>◌,
}
use baggageclaim.Uidgid.Walk.{Namespacer, namespace_path}
use baggageclaim.Volume.Properties.{Properties, has_properties, update_property}
use baggageclaim.Volume.Metadata.Json.{Json}
use baggageclaim.Volume.Metadata.{
  load_properties, store_properties, load_privileged, store_privileged,
}
use baggageclaim.Volume.Filesystem
use baggageclaim.Volume.Filesystem.{Driver, lookup_volume, initialize, destroy}
use baggageclaim.Volume.Strategy.Host.{Host}
use baggageclaim.Volume.Strategy.Strategerizer.{Strategy}
use baggageclaim.Volume.Strategy.{materialize}

-- `repository`, with what its file system and its streamers are made of
pub record Repository : Type 0 where
  pub json : Json
  pub driver : Driver
  pub host : Host
  pub privileged_namespacer : Namespacer
  pub unprivileged_namespacer : Namespacer

-- volume/volume.go; the path is that of the data directory below the directory of the volume
pub record Volume : Type 0 where
  pub handle : String
  pub path : BaseVolume
  pub properties : Properties
  pub privileged : Bool

-- `repo.namespacer`
unfoldable pub namespacer : Repository → Bool → Namespacer
namespacer repo privileged =
    if privileged then repo.privileged_namespacer else repo.unprivileged_namespacer

-- `locker.Unlock` gives back one hold on a key.
abbrev pub unlock : String → List String → List String
unlock h [] = []
unlock h (k ∷ ks) = if k == h then ks else k ∷ unlock h ks

-- `locker.Lock(handle)` with `defer locker.Unlock(handle)`: however the body ends
unfoldable pub locked : {A : Type 0} → String → Action A → Action A
locked h body w =
    let (r, w') = body (record w { held = h ∷ w.held }) in
    (r, record w' { held = unlock h w'.held })

-- `LookupVolume` where a missing volume is an error
abbrev pub existing : Option BaseVolume → Action BaseVolume
existing none = raise volume_does_not_exist
existing (some v) = pure v

unfoldable pub find : String → Action BaseVolume
find h = do found ← lookup_volume h; existing found

module _ (repo : Repository) where
  unfoldable pub volume_from : BaseVolume → Action Volume
  volume_from v = do
    properties ← load_properties repo.json v
    privileged ← load_privileged repo.json v
    pure (record { handle = v.handle; path = v; properties = properties; privileged = privileged })

  unfoldable pub destroy_volume : String → Action Unit
  destroy_volume h = locked h (do v ← find h; destroy repo.json repo.driver v)

  -- the deferred `initVolume.Destroy()`, whose error is dropped
  abbrev pub unless_initialized : BaseVolume → Result Volume → Action Volume
  unless_initialized v (ok volume) = pure volume
  unless_initialized v (err e) = do attempt (destroy repo.json repo.driver v); raise e

  -- The result does not say whether the volume is privileged.
  unfoldable pub set_up : BaseVolume → Properties → Bool → Action Volume
  set_up v properties privileged = do
    store_properties repo.json v properties
    store_privileged repo.json v privileged
    namespace_path (namespacer repo privileged) v
    u ← initialize v
    pure (record { handle = u.handle; path = u; properties = properties; privileged = false })

  unfoldable pub create_volume : String → Strategy → Properties → Bool → Action Volume
  create_volume h strategy properties privileged = do
    v ← materialize repo.json repo.driver repo.host strategy h
    made ← attempt (set_up v properties privileged)
    unless_initialized v made

  -- A volume that goes while it is read is left out; one that cannot be read is corrupted.
  abbrev pub sort_volume :
      Properties
      → BaseVolume
      → List Volume × List String
      → Result Volume
      → List Volume × List String
  sort_volume query v (healthy, corrupted) (ok volume) =
      if has_properties volume.properties query
      then (volume ∷ healthy, corrupted)
      else (healthy, corrupted)
  sort_volume query v (healthy, corrupted) (err volume_does_not_exist) = (healthy, corrupted)
  sort_volume query v (healthy, corrupted) (err _) = (healthy, v.handle ∷ corrupted)

  unfoldable pub collect : Properties → List BaseVolume → Action (List Volume × List String)
  collect query [] = pure ([], [])
  collect query (v ∷ vs) =
      let rest = collect query vs in
      do read ← attempt (volume_from v); others ← rest; pure (sort_volume query v others read)

  unfoldable pub list_volumes : Properties → Action (List Volume × List String)
  list_volumes query = do vs ← Filesystem.list_volumes; collect query vs

  abbrev pub if_hydrated : Result Volume → Action (Option Volume)
  if_hydrated (ok volume) = pure (some volume)
  if_hydrated (err volume_does_not_exist) = pure none
  if_hydrated (err e) = raise e

  abbrev pub if_looked_up : Option BaseVolume → Action (Option Volume)
  if_looked_up none = pure none
  if_looked_up (some v) = do read ← attempt (volume_from v); if_hydrated read

  unfoldable pub get_volume : String → Action (Option Volume)
  get_volume h = do found ← lookup_volume h; if_looked_up found

  unfoldable pub set_property : String → String → String → Action Unit
  set_property h name value = locked h (do
    v ← find h
    properties ← load_properties repo.json v
    store_properties repo.json v (update_property properties name value))

  unfoldable pub get_privileged : String → Action Bool
  get_privileged h = locked h (do v ← find h; load_privileged repo.json v)

  unfoldable pub set_privileged : String → Bool → Action Unit
  set_privileged h privileged = locked h (do
    v ← find h
    namespace_path (namespacer repo privileged) v
    store_privileged repo.json v privileged)

  abbrev pub if_parent_read : Result Volume → Action (Option Volume)
  if_parent_read (ok volume) = pure (some volume)
  if_parent_read (err _) = raise volume_is_corrupted

  abbrev pub if_parent : Option BaseVolume → Action (Option Volume)
  if_parent none = pure none
  if_parent (some above) = do read ← attempt (volume_from above); if_parent_read read

  unfoldable pub volume_parent : String → Action (Option Volume)
  volume_parent h = do v ← find h; found ← Filesystem.parent v; if_parent found
