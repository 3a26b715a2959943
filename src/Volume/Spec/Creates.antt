-- ===== src/Volume/Spec/Creates.antt =====
-- What `CreateVolume` does to the map, with the naive driver and when no call fails.
use baggageclaim.Prelude.{Bool, String, ◌≡◌, refl, sym, ap, ◌∙◌, subst, Option, none, some}
use baggageclaim.Disk.World.{World, NoFaults, init, live, node}
use baggageclaim.Disk.Action.{Error, Result, err, bind_run, exist}
use baggageclaim.Disk.Frame.{Unchanged, NoFaults-Keeps}
use baggageclaim.Volume.Properties.{Properties}
use baggageclaim.Volume.Metadata.Json.{IsJson}
use baggageclaim.Volume.Filesystem.{volume_at}
use baggageclaim.Volume.Driver.Naive.{naive, naive-IsConfined}
use baggageclaim.Volume.Strategy.{materialize}
use baggageclaim.Volume.Strategy.Frame.{materialize-Keeps}
use baggageclaim.Volume.Repository.{Repository, Volume, create_volume}
use baggageclaim.Volume.Repository.Frame.{create_volume-Keeps}
use baggageclaim.Volume.Repository.Create.{create_volume_failing}
use baggageclaim.Volume.Spec.Meaning.{
  parent_of, Entry, Store, assign, Origin, strategy_of, create, Reply, created, perform, meant, add,
  make, origin_error,
}
use baggageclaim.Volume.Spec.SetUp.{Stands}
use baggageclaim.Volume.Spec.Create.{with_naive, Clean, guarded, guarded_free, guarded_taken}
use baggageclaim.Volume.Spec.Represents.{
  Represents, Represents-advance, Represents-same, Shows, Shows-same, OtherThan, assign_same,
  assign_other,
}
use baggageclaim.Volume.Spec.Made.{Materialized, materialize_run}

-- The reply is the one that is meant, and the disk stands for the map that is meant.
abbrev pub Agrees : Repository → Reply × World → Reply × Store → Type 0
Agrees repo (r, w) (r', σ) = (r ≡ r') × Represents repo w σ

module _ (repo : Repository) (laws : IsJson repo.json) (h : String) (o : Origin) (p : Properties)
    (b : Bool) (w : World) (σ : Store) (rep : Represents repo w σ) where
  -- the entry of the map that is made
  abbrev e : Entry
  e = record { properties = p; privileged = b; parent = parent_of o }

  abbrev R : Repository
  R = with_naive repo

  abbrev w1 : World
  w1 = (materialize repo.json (naive repo.host) repo.host (strategy_of o) h w).1

  abbrev after : World
  after = (create_volume R h (strategy_of o) e.properties e.privileged w).1

  nf1 : NoFaults w1
  nf1 =
      NoFaults-Keeps (materialize repo.json (naive repo.host) repo.host (strategy_of o) h) w
        (materialize-Keeps repo.json (naive repo.host) repo.host (naive-IsConfined repo.host) h
          (λ x. x) (λ x. x) (strategy_of o))
        rep.no_faults

  live1 : node live h w1 ≡ node live h w
  live1 =
      ((materialize-Keeps {P = λ s k. s ≡ live} repo.json (naive repo.host) repo.host
            (naive-IsConfined repo.host) h (λ s. cc s) (λ s. cc s) (strategy_of o)).at
          w).nodes
        live h refl

  others : Unchanged (OtherThan h) w after
  others =
      (create_volume-Keeps R (naive-IsConfined repo.host) h (λ p. p refl) (λ p. p refl)
          (λ p. p refl) (strategy_of o) e.properties e.privileged).at
        w

  create_refused :
      (x : Error)
      → Materialized h
          (parent_of o)
          w
          (some x)
          (materialize repo.json (naive repo.host) repo.host (strategy_of o) h w)
      → Agrees repo (perform R (create h o e.properties e.privileged) w) (created (err x), σ)
  unfolding perform create_volume
  create_refused x (refused, kept) = rw refused (refl, Represents-same repo rep kept)

  module _
      (made : Materialized h
        (parent_of o)
        w
        none
        (materialize repo.json (naive repo.host) repo.host (strategy_of o) h w)) where
    create_run :
        create_volume R h (strategy_of o) e.properties e.privileged w
        ≡ guarded repo laws h e (volume_at init h) w1
    unfolding create_volume
    create_run =
        bind_run (materialize repo.json (naive repo.host) repo.host (strategy_of o) h)
          (guarded repo laws h e) w made.0

    -- what holds after that holds after the creation
    carried : (Q : World → Type 0) → Q (guarded repo laws h e (volume_at init h) w1).1 → Q after
    carried Q = subst (λ (r : Result Volume × World). Q r.1) (sym create_run)

    create_new :
        (old : Option Entry)
        → σ h ≡ old
        → Agrees repo (perform R (create h o e.properties e.privileged) w) (add h e old σ)
    unfolding perform
    create_new none none_there =
        let free : Shows repo h none w = subst (λ x. Shows repo h x w) none_there (rep.shows h) in
        let (done, stands, clean) = guarded_free repo laws h e w1 nf1 made.1 (live1 ∙ free) in
        (
          ap (λ (r : Result Volume × World). created r.0) create_run ∙ ap created done,
          Represents-advance repo rep h (assign h (some e) σ) (assign_other h (some e) σ) others
              (carried (Clean h) clean)
              (rw (assign_same h (some e) σ) (carried (Stands R h e) stands)),
        )
    create_new (some old) there =
        let stood : Shows repo h (some old) w = subst (λ x. Shows repo h x w) there (rep.shows h) in
        let stood1 = Shows-same repo h (some old) w w1 live1 stood in
        let (refused, clean) = guarded_taken repo laws h e w1 nf1 made.1 old stood1 in
        let failed = ap (λ (r : Result Volume × World). r.0) create_run ∙ refused in
        (
          ap created failed,
          Represents-advance repo rep h σ (λ k ne. refl) others (carried (Clean h) clean)
              (Shows-same repo h (σ h) w after
                (create_volume_failing R (naive-IsConfined repo.host) h (strategy_of o) e.properties
                  e.privileged w exist failed h)
                (rep.shows h)),
        )

  create_at :
      (x : Option Error)
      → Materialized h
          (parent_of o)
          w
          x
          (materialize repo.json (naive repo.host) repo.host (strategy_of o) h w)
      → Agrees repo (perform R (create h o e.properties e.privileged) w) (make h e x σ)
  create_at (some x) refused = create_refused x refused
  create_at none made = create_new made (σ h) refl

  -- Creating a volume replies what is meant, and does to the map what is meant.
  pub create-Agrees :
      Agrees repo
        (perform R (create h o e.properties e.privileged) w)
        (meant (create h o e.properties e.privileged) σ)
  unfolding meant
  create-Agrees = create_at (origin_error o σ) (materialize_run repo h w σ rep o)
