-- ===== src/Volume/Spec/Made.antt =====
-- `Materialize` with the naive driver from nothing or from a volume, when no call fails.
use baggageclaim.Prelude.{String, ◌≡◌, refl, subst, Option, none, some, ◌==◌, Bool-cases, inl, inr}
use baggageclaim.Disk.World.{World, init, BaseVolume}
use baggageclaim.Disk.Action.{Error, parent_volume_not_found, Result, ok, err, Action, ◌>>=◌, tick}
use baggageclaim.Disk.Frame.{Unchanged, Unchanged-refl, Unchanged-tick}
use baggageclaim.Volume.Filesystem.{volume_at, lookup_volume}
use baggageclaim.Volume.Driver.Naive.{naive}
use baggageclaim.Volume.Strategy.{if_found, materialize, materialize_cow}
use baggageclaim.Volume.Repository.{Repository}
use baggageclaim.Volume.Repository.Reads.{lookup_volume_run, lookup_volume_missing}
use baggageclaim.Volume.Spec.Meaning.{
  Entry, Store, parent_of, Origin, nothing, layer_of, strategy_of, origin_error,
}
use baggageclaim.Volume.Spec.New.{Ready, new_volume_run, new_subvolume_run}
use baggageclaim.Volume.Spec.SetUp.{Stands}
use baggageclaim.Volume.Spec.Create.{with_naive}
use baggageclaim.Volume.Spec.Represents.{Represents, Shows, Everywhere}

-- a volume in init/, or the reason why there is none
abbrev pub Materialized :
    String → Option String → World → Option Error → Result BaseVolume × World → Type 0
Materialized h parent w none r = (r.0 ≡ ok (volume_at init h)) × Ready h parent r.1
Materialized h parent w (some e) r = (r.0 ≡ err e) × Unchanged Everywhere w r.1

module _ (repo : Repository) (h : String) (w : World) (σ : Store) (rep : Represents repo w σ) where
  -- `Materialize` of `COWStrategy` with a parent
  abbrev layered : String → Action BaseVolume
  layered parent = do
    found ← lookup_volume parent
    if_found repo.json (naive repo.host) repo.host h found

  layered_run :
      (parent : String) (o : Option Entry)
      → σ parent ≡ o
      → Materialized h
          (some parent)
          w
          (elim o [ none ↦ some parent_volume_not_found | some _ ↦ none ])
          (layered parent w)
  layered_run parent none e =
      let free : Shows repo parent none w =
        subst (λ x. Shows repo parent x w) e (rep.shows parent) in
      rw (lookup_volume_missing parent w rep.no_faults free) (refl, Unchanged-tick w)
  layered_run parent (some above) e =
      let (d, holds, files) : Stands (with_naive repo) parent above w =
        subst (λ x. Shows repo parent x w) e (rep.shows parent) in
      (rw (lookup_volume_run parent w d rep.no_faults holds.at) (
        new_subvolume_run repo.json repo.host h (tick w) rep.no_faults (rep.clean h).0
          (rep.clean h).1 parent d holds.at files))

  pub materialize_run :
      (o : Origin)
      → Materialized h
          (parent_of o)
          w
          (origin_error o σ)
          (materialize repo.json (naive repo.host) repo.host (strategy_of o) h w)
  unfolding materialize materialize_cow
  materialize_run nothing =
      new_volume_run repo.json repo.host h w rep.no_faults (rep.clean h).0 (rep.clean h).1
  materialize_run (layer_of parent) = elim (Bool-cases (parent == "")) [
    | inl without ↦ rw without (refl, Unchanged-refl w)
    | inr given ↦ rw given (layered_run parent (σ parent) refl)
  ]
