-- ===== src/Volume/Repository/Frame.antt =====
-- Which entries the operations of volume/repository.go may change.
use baggageclaim.Prelude.{
  String, ◌≡◌, ◌∙◌, ap, Bool, Option, none, some, List, [], ◌∷◌, eq_iff, arith,
}
use baggageclaim.Disk.World.{BaseVolume, init, live, dead}
use baggageclaim.Disk.Action.{Error, Result, ok, err, Action}
use baggageclaim.Disk.Frame.{
  Places, Keeps, Ensures, frame_rules, value_rules, Keeps-bind_ensured, Ensures-bind_ensured,
}
use baggageclaim.Uidgid.Owners.{namespace_path-Keeps}
use baggageclaim.Volume.Properties.{Properties}
use baggageclaim.Volume.Filesystem.{volume_at, lookup_volume}
use baggageclaim.Volume.Filesystem.Values.{Finds, lookup_volume-Ensures}
use baggageclaim.Volume.Filesystem.Frame.{
  IsConfined, lookup_volume-Keeps, list_volumes-Keeps, parent-Keeps, initialize-Keeps,
  destroy-Keeps, load_properties-Keeps, load_privileged-Keeps, store_properties-Keeps,
  store_privileged-Keeps,
}
use baggageclaim.Volume.Strategy.Strategerizer.{Strategy}
use baggageclaim.Volume.Strategy.Frame.{materialize-Ensures, materialize-Keeps}
use baggageclaim.Volume.Repository.Defs.{
  Repository, Volume, unlock, locked, existing, find, volume_from, destroy_volume,
  unless_initialized, set_up, create_volume, collect, list_volumes, if_hydrated, if_looked_up,
  get_volume, set_property, get_privileged, set_privileged, if_parent_read, if_parent,
  volume_parent,
}

pub unlock-cons : (h : String) (ks : List String) → unlock h (h ∷ ks) ≡ ks
unlock-cons h ks = ground (arith, eq_iff h h)

module _ {P : Places} where
  -- A locked action keeps what its body keeps, and gives its lock back whether it fails or not.
  pub locked-Keeps : {A : Type 0} (h : String) (m : Action A) → Keeps P m → Keeps P (locked h m)
  unfolding locked
  locked-Keeps h m k = record {
    at = λ w.
        let inner = k.at (record w { held = h ∷ w.held }) in
        record {
          nodes = inner.nodes;
          faults = inner.faults;
          held = ap (unlock h) inner.held ∙ unlock-cons h w.held;
        };
  }

existing-Ensures :
    (h : String) (o : Option BaseVolume)
    → Finds h o
    → Ensures (λ v. v ≡ volume_at live h) (existing o)
existing-Ensures h none f = search value_rules
existing-Ensures h (some v) f = search (value_rules, f)

pub find-Ensures : (h : String) → Ensures (λ v. v ≡ volume_at live h) (find h)
unfolding find
find-Ensures h =
    Ensures-bind_ensured (Finds h) (lookup_volume h) existing (lookup_volume-Ensures h)
      (existing-Ensures h)

module _ {P : Places} where
  existing-Keeps : (o : Option BaseVolume) → Keeps P (existing o)
  existing-Keeps none = search frame_rules
  existing-Keeps (some v) = search frame_rules

  pub find-Keeps : (h : String) → Keeps P (find h)
  unfolding find
  find-Keeps h = search (frame_rules, lookup_volume-Keeps, existing-Keeps)

module _ {P : Places} (repo : Repository) where
  pub volume_from-Keeps : (v : BaseVolume) → Keeps P (volume_from repo v)
  unfolding volume_from
  volume_from-Keeps v = search (frame_rules, load_properties-Keeps, load_privileged-Keeps) depth 9

  if_hydrated-Keeps : (r : Result Volume) → Keeps P (if_hydrated repo r)
  if_hydrated-Keeps (ok volume) = search frame_rules
  if_hydrated-Keeps (err Error.volume_does_not_exist) = search frame_rules
  if_hydrated-Keeps (err _) = search frame_rules

  if_looked_up-Keeps : (o : Option BaseVolume) → Keeps P (if_looked_up repo o)
  if_looked_up-Keeps none = search frame_rules
  if_looked_up-Keeps (some v) = search (frame_rules, volume_from-Keeps, if_hydrated-Keeps) depth 9

  -- Looking at volumes changes nothing.
  pub get_volume-Keeps : (h : String) → Keeps P (get_volume repo h)
  unfolding get_volume
  get_volume-Keeps h = search (frame_rules, lookup_volume-Keeps, if_looked_up-Keeps) depth 9

  pub collect-Keeps : (q : Properties) (vs : List BaseVolume) → Keeps P (collect repo q vs)
  unfolding collect
  collect-Keeps q [] = search frame_rules
  collect-Keeps q (v ∷ vs) =
      let ih = collect-Keeps q vs in search (frame_rules, volume_from-Keeps) depth 9

  pub list_volumes-Keeps_all : (q : Properties) → Keeps P (list_volumes repo q)
  unfolding list_volumes
  list_volumes-Keeps_all q = search (frame_rules, list_volumes-Keeps, collect-Keeps) depth 9

  pub get_privileged-Keeps : (h : String) → Keeps P (get_privileged repo h)
  unfolding get_privileged
  get_privileged-Keeps h =
      locked-Keeps h _ (search (frame_rules, find-Keeps, load_privileged-Keeps) depth 9)

  if_parent_read-Keeps : (r : Result Volume) → Keeps P (if_parent_read repo r)
  if_parent_read-Keeps (ok volume) = search frame_rules
  if_parent_read-Keeps (err _) = search frame_rules

  if_parent-Keeps : (o : Option BaseVolume) → Keeps P (if_parent repo o)
  if_parent-Keeps none = search frame_rules
  if_parent-Keeps (some v) = search (frame_rules, volume_from-Keeps, if_parent_read-Keeps) depth 9

  pub volume_parent-Keeps : (h : String) → Keeps P (volume_parent repo h)
  unfolding volume_parent
  volume_parent-Keeps h = search (frame_rules, find-Keeps, parent-Keeps, if_parent-Keeps) depth 9

  module _ (h : String) (out_live : ¬ P live h) where
    pub set_property-Keeps : (name value : String) → Keeps P (set_property repo h name value)
    unfolding set_property
    set_property-Keeps name value = locked-Keeps h _ (
        Keeps-bind_ensured (λ v. v ≡ volume_at live h) _ _ (find-Ensures h) (find-Keeps h)
          (λ v e.
            rw e (search (frame_rules, load_properties-Keeps, store_properties-Keeps) depth 9)))

    pub set_privileged-Keeps : (b : Bool) → Keeps P (set_privileged repo h b)
    unfolding set_privileged
    set_privileged-Keeps b = locked-Keeps h _ (
        Keeps-bind_ensured (λ v. v ≡ volume_at live h) _ _ (find-Ensures h) (find-Keeps h)
          (λ v e.
            rw e (search (frame_rules, namespace_path-Keeps, store_privileged-Keeps) depth 9)))

module _ {P : Places} (repo : Repository) (confined : IsConfined repo.driver) (h : String)
    (out_live : ¬ P live h) (out_dead : ¬ P dead h) where
  pub destroy_volume-Keeps : Keeps P (destroy_volume repo h)
  unfolding destroy_volume
  destroy_volume-Keeps = locked-Keeps h _ (
      Keeps-bind_ensured (λ v. v ≡ volume_at live h) _ _ (find-Ensures h) (find-Keeps h)
        (λ v e.
          rw e (destroy-Keeps repo.json repo.driver confined (volume_at live h) out_live out_dead)))

  module _ (out_init : ¬ P init h) where
    set_up-Keeps : (p : Properties) (b : Bool) → Keeps P (set_up repo (volume_at init h) p b)
    unfolding set_up
    set_up-Keeps p b =
        search
          (
            frame_rules, store_properties-Keeps, store_privileged-Keeps, namespace_path-Keeps,
            initialize-Keeps,
          )
          depth 12

    unless_initialized-Keeps :
        (r : Result Volume) → Keeps P (unless_initialized repo (volume_at init h) r)
    unless_initialized-Keeps (ok volume) = search frame_rules
    unless_initialized-Keeps (err e) = search (frame_rules, destroy-Keeps) depth 9

    -- Creating a volume, whether it succeeds or not, changes no entry of another handle.
    pub create_volume-Keeps :
        (s : Strategy) (p : Properties) (b : Bool) → Keeps P (create_volume repo h s p b)
    unfolding create_volume
    create_volume-Keeps s p b =
        Keeps-bind_ensured (λ v. v ≡ volume_at init h) _ _
          (materialize-Ensures repo.json repo.driver repo.host h s)
          (materialize-Keeps repo.json repo.driver repo.host confined h out_init out_dead s)
          (λ v e. rw e (search (frame_rules, set_up-Keeps, unless_initialized-Keeps) depth 9))
