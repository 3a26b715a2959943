-- ===== src/Volume/Spec/Steps.antt =====
-- What the other calls do to the map, with the naive driver and when no call fails.
use baggageclaim.Prelude.{String, ◌≡◌, refl, sym, ap, ◌∙◌, subst, Bool, Option, none, some, ◌∷◌}
use baggageclaim.Disk.World.{World, Dir, directory, BaseVolume, NoFaults, init, live, dead, node}
use baggageclaim.Disk.Action.{Action, ok, err, volume_does_not_exist, tick, ◌>>=◌}
use baggageclaim.Disk.Frame.{Unchanged}
use baggageclaim.Volume.Properties.{update_property}
use baggageclaim.Volume.Metadata.Json.{IsJson}
use baggageclaim.Volume.Metadata.{load_privileged}
use baggageclaim.Volume.Driver.Naive.{naive-IsConfined}
use baggageclaim.Volume.Repository.{
  Repository, namespacer, locked, find, destroy_volume, set_property, get_privileged,
  set_privileged,
}
use baggageclaim.Volume.Repository.Frame.{
  unlock-cons, get_volume-Keeps, get_privileged-Keeps, set_property-Keeps, set_privileged-Keeps,
  destroy_volume-Keeps,
}
use baggageclaim.Volume.Repository.Reads.{
  Holds, lookup_volume_missing, find_run, get_volume_run, load_privileged_run,
}
use baggageclaim.Volume.Repository.Update.{set_property_run, set_privileged_run}
use baggageclaim.Volume.Repository.Destroy.{destroy_volume_missing}
use baggageclaim.Volume.Spec.Meaning.{
  Entry, Store, assign, destroy, get, change_property, read_flag, change_flag, changed, found, flag,
  perform, drop, modify, lookup, flag_of,
}
use baggageclaim.Volume.Spec.SetUp.{
  Stands, destroy_run, destroyed-place, destroyed-dead, namespaced-IsLaidOut,
}
use baggageclaim.Volume.Spec.Create.{with_naive, Clean}
use baggageclaim.Volume.Spec.Represents.{
  Represents, Represents-advance, Represents-same, Shows, Everywhere, OtherThan, assign_same,
  assign_other,
}
use baggageclaim.Volume.Spec.Creates.{Agrees}

-- An operation on a volume that is not there gives an error and changes nothing.
locked_missing :
    {A : Type 0} (h : String) (f : BaseVolume → Action A) (w : World)
    → NoFaults w
    → node live h w ≡ none
    → ((locked h (find h >>= f) w).0 ≡ err volume_does_not_exist)
      × Unchanged Everywhere w (locked h (find h >>= f) w).1
unfolding locked find
locked_missing h f w nf free =
    rw (lookup_volume_missing h (record w { held = h ∷ w.held }) nf free)
      (refl, record { nodes = λ s k p. refl; faults = refl; held = unlock-cons h w.held })

module _ (repo : Repository) (h : String) (w : World) where
  abbrev R : Repository
  R = with_naive repo

  destroy_volume_run :
      (d : Dir)
      → NoFaults w
      → node live h w ≡ some (directory d)
      → Clean h w
      → ((destroy_volume R h w).0 ≡ ok tt)
        × (node live h (destroy_volume R h w).1 ≡ none)
        × Clean h (destroy_volume R h w).1
  unfolding destroy_volume locked
  destroy_volume_run d nf at clean =
      let start = record w { held = h ∷ w.held } in
      rw (find_run h start d nf at) (
        rw (destroy_run R h live (tick start) d nf at clean.1) (
          refl,
          destroyed-place R h live (tick start) d nf at clean.1 (λ s. cc s),
          (clean.0, destroyed-dead R h live (tick start) d nf at clean.1),
        ))

module _ (repo : Repository) (laws : IsJson repo.json) (h : String) (w : World) (σ : Store)
    (rep : Represents repo w σ) where
  abbrev here : (o : Option Entry) → σ h ≡ o → Shows repo h o w
  here o e = subst (λ x. Shows repo h x w) e (rep.shows h)

  abbrev S : Repository
  S = with_naive repo

  -- a volume of the map that has been changed in place
  changed_in_place :
      {w' : World} (new : Entry)
      → Unchanged (OtherThan h) w w'
      → Unchanged (λ s k. ¬ (s ≡ live)) w w'
      → Stands S h new w'
      → Represents repo w' (assign h (some new) σ)
  changed_in_place {w'} new others in_live stands =
      Represents-advance repo rep h (assign h (some new) σ) (assign_other h (some new) σ) others
        (
          in_live.nodes init h (λ s. cc s) ∙ (rep.clean h).0,
          in_live.nodes dead h (λ s. cc s) ∙ (rep.clean h).1,
        )
        (subst (λ o. Shows repo h o w') (sym (assign_same h (some new) σ)) stands)

  pub destroy_at : (o : Option Entry) → σ h ≡ o → Agrees repo (perform S (destroy h) w) (drop h o σ)
  unfolding perform destroy_volume
  destroy_at none e =
      let (refused, kept) = locked_missing h _ w rep.no_faults (here none e) in
      (ap changed refused, Represents-same repo rep kept)
  destroy_at (some old) e =
      let (d, holds, files) : Stands S h old w = here (some old) e in
      let (done, gone, clean) =
        destroy_volume_run repo h w d rep.no_faults holds.at (rep.clean h) in
      (
        ap changed done,
        Represents-advance repo rep h (assign h none σ) (assign_other h none σ)
            ((destroy_volume-Keeps S (naive-IsConfined repo.host) h (λ p. p refl) (λ p. p refl)).at
              w)
            clean (rw (assign_same h none σ) gone),
      )

  pub get_at :
      (o : Option Entry) → σ h ≡ o → Agrees repo (perform S (get h) w) (found (ok (lookup h o)), σ)
  unfolding perform
  get_at none e = (
    ap found (destroy_volume_missing S h w rep.no_faults (here none e)).1,
    Represents-same repo rep ((get_volume-Keeps S h).at w),
  )
  get_at (some old) e =
      let (d, holds, files) : Stands S h old w = here (some old) e in
      (
        ap found (get_volume_run S h old.properties old.privileged w d rep.no_faults holds),
        Represents-same repo rep ((get_volume-Keeps S h).at w),
      )

  pub change_property_at :
      (name value : String) (o : Option Entry)
      → σ h ≡ o
      → Agrees repo
          (perform S (change_property h name value) w)
          (modify h (λ e. record e { properties = update_property e.properties name value }) o σ)
  unfolding perform set_property
  change_property_at name value none e =
      let (refused, kept) = locked_missing h _ w rep.no_faults (here none e) in
      (ap changed refused, Represents-same repo rep kept)
  change_property_at name value (some old) e =
      let (d, holds, files) : Stands S h old w = here (some old) e in
      let (done, after) =
        set_property_run S laws h old.properties old.privileged d w name value rep.no_faults
          holds in
      (
        ap changed done,
        changed_in_place (record old { properties = update_property old.properties name value })
            ((set_property-Keeps S h (λ p. p refl) name value).at w)
            ((set_property-Keeps S h (λ p. p refl) name value).at w) (_, after, files),
      )

  pub read_flag_at :
      (o : Option Entry) → σ h ≡ o → Agrees repo (perform S (read_flag h) w) (flag (flag_of o), σ)
  unfolding perform get_privileged locked
  read_flag_at none e =
      let (refused, kept) =
        locked_missing h (λ v. load_privileged S.json v) w rep.no_faults (here none e) in
      (ap flag refused, Represents-same repo rep ((get_privileged-Keeps S h).at w))
  read_flag_at (some old) e =
      let (d, holds, files) : Stands S h old w = here (some old) e in
      let start = record w { held = h ∷ w.held } in
      let holds' : Holds S h old.properties old.privileged (tick start) d = record {
        at = holds.at;
        properties = holds.properties;
        privileged = holds.privileged;
      } in
      (
        ap flag (
            rw (find_run h start d rep.no_faults holds.at) (
              load_privileged_run S h old.properties old.privileged (tick start) d rep.no_faults
                holds')),
        Represents-same repo rep ((get_privileged-Keeps S h).at w),
      )

  pub change_flag_at :
      (b : Bool) (o : Option Entry)
      → σ h ≡ o
      → Agrees repo
          (perform S (change_flag h b) w)
          (modify h (λ e. record e { privileged = b }) o σ)
  unfolding perform set_privileged
  change_flag_at b none e =
      let (refused, kept) = locked_missing h _ w rep.no_faults (here none e) in
      (ap changed refused, Represents-same repo rep kept)
  change_flag_at b (some old) e =
      let (d, holds, files) : Stands S h old w = here (some old) e in
      let (done, after) =
        set_privileged_run S laws h old.properties old.privileged d w b rep.no_faults holds in
      (
        ap changed done,
        changed_in_place (record old { privileged = b })
            ((set_privileged-Keeps S h (λ p. p refl) b).at w)
            ((set_privileged-Keeps S h (λ p. p refl) b).at w)
            (_, after, namespaced-IsLaidOut (namespacer S b) d files),
      )
