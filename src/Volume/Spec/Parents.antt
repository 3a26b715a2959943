-- ===== src/Volume/Spec/Parents.antt =====
-- What `VolumeParent` replies, with the naive driver and when no call fails.
use baggageclaim.Prelude.{String, ◌≡◌, refl, ap, subst, Option, none, some}
use baggageclaim.Disk.World.{World, Dir, Node, directory, BaseVolume, NoFaults, live, node}
use baggageclaim.Disk.Action.{not_exist, Result, ok, err, tick, call}
use baggageclaim.Disk.Calls.{eval_symlinks, get_dir}
use baggageclaim.Volume.Filesystem.{volume_at, as_parent, parent}
use baggageclaim.Volume.Repository.{Repository, find, volume_parent}
use baggageclaim.Volume.Repository.Frame.{volume_parent-Keeps}
use baggageclaim.Volume.Repository.Reads.{Holds, lookup_volume_missing, find_run, volume_from_run}
use baggageclaim.Volume.Spec.Meaning.{
  Entry, Store, find_parent, found, perform, lookup, above, parent_reply,
}
use baggageclaim.Volume.Spec.SetUp.{Stands}
use baggageclaim.Volume.Spec.Create.{with_naive}
use baggageclaim.Volume.Spec.Represents.{Represents, Represents-same, Shows}
use baggageclaim.Volume.Spec.Creates.{Agrees}

-- what `Parent` makes of what stands where the link leads
abbrev followed : String → World → Option Node → Result (Option BaseVolume) × World
followed p w o =
    as_parent (elim o as (λ x. Result String) [ none ↦ err not_exist | some x ↦ ok p ]) w

module _ (h : String) (w : World) (d : Dir) (nf : NoFaults w)
    (at : node live h w ≡ some (directory d)) where
  parent_unlinked : d.parent ≡ none → parent (volume_at live h) w ≡ (ok none, tick w)
  unfolding parent eval_symlinks call get_dir
  parent_unlinked unlinked = rw (nf w.clock) (rw at (rw unlinked refl))

  parent_gone :
      (p : String)
      → d.parent ≡ some p
      → node live p w ≡ none
      → parent (volume_at live h) w ≡ (ok none, tick w)
  unfolding parent eval_symlinks call get_dir
  parent_gone p linked gone = rw (nf w.clock) (rw at (rw linked (ap (followed p (tick w)) gone)))

  parent_there :
      (p : String) (u : Dir)
      → d.parent ≡ some p
      → node live p w ≡ some (directory u)
      → parent (volume_at live h) w ≡ (ok (some (volume_at live p)), tick w)
  unfolding parent eval_symlinks call get_dir
  parent_there p u linked there =
      rw (nf w.clock) (rw at (rw linked (ap (followed p (tick w)) there)))

module _ (repo : Repository) (h : String) (w : World) (σ : Store) (rep : Represents repo w σ) where
  abbrev R : Repository
  R = with_naive repo

  module _ (d : Dir) (at : node live h w ≡ some (directory d)) where
    through_link :
        (p : String) (o : Option Entry)
        → d.parent ≡ some p
        → σ p ≡ o
        → (volume_parent R h w).0 ≡ ok (lookup p o)
    unfolding volume_parent
    through_link p none linked there =
        let gone : Shows repo p none w = subst (λ o. Shows repo p o w) there (rep.shows p) in
        rw (find_run h w d rep.no_faults at)
          (rw (parent_gone h (tick w) d rep.no_faults at p linked gone) refl)
    through_link p (some e) linked there =
        let (u, holds, files) : Stands R p e w =
          subst (λ o. Shows repo p o w) there (rep.shows p) in
        let holds' : Holds R p e.properties e.privileged (tick (tick w)) u = record {
          at = holds.at;
          properties = holds.properties;
          privileged = holds.privileged;
        } in
        rw (find_run h w d rep.no_faults at) (
          rw (parent_there h (tick w) d rep.no_faults at p u linked holds.at) (
            rw
              (volume_from_run R p e.properties e.privileged (tick (tick w)) u rep.no_faults holds')
              refl))

    volume_parent_run :
        (link : Option String) → d.parent ≡ link → (volume_parent R h w).0 ≡ ok (above link σ)
    unfolding volume_parent
    volume_parent_run none linked =
        rw (find_run h w d rep.no_faults at)
          (rw (parent_unlinked h (tick w) d rep.no_faults at linked) refl)
    volume_parent_run (some p) linked = through_link p (σ p) linked refl

  volume_parent_missing : node live h w ≡ none → (volume_parent R h w).0 ≡ (parent_reply none σ)
  unfolding volume_parent find
  volume_parent_missing free = rw (lookup_volume_missing h w rep.no_faults free) refl

  pub find_parent_at :
      (o : Option Entry)
      → σ h ≡ o
      → Agrees repo (perform R (find_parent h) w) (found (parent_reply o σ), σ)
  unfolding perform
  find_parent_at none e =
      let free : Shows repo h none w = subst (λ o. Shows repo h o w) e (rep.shows h) in
      (
        ap found (volume_parent_missing free),
        Represents-same repo rep ((volume_parent-Keeps R h).at w),
      )
  find_parent_at (some old) e =
      let (d, holds, (fs, files, linked)) : Stands R h old w =
        subst (λ o. Shows repo h o w) e (rep.shows h) in
      (
        ap found (volume_parent_run d holds.at old.parent linked),
        Represents-same repo rep ((volume_parent-Keeps R h).at w),
      )
