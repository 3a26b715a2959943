-- ===== src/Volume/Spec/SetUp.antt =====
-- The set-up of a new volume of the naive driver, and its destruction, when no call fails.
use baggageclaim.Prelude.{Option, String, ◌≡◌, refl, ◌∙◌, Bool, false, Option, none, some, map}
use baggageclaim.Disk.World.{
  World, Dir, directory, Stage, init, live, dead, NoFaults, node, set_node, delete_node,
}
use baggageclaim.Disk.Action.{Action, ok, err, exist, pure, bind_run, ◌>>=◌, tick}
use baggageclaim.Disk.Frame.{Places, Unchanged, Unchanged-trans}
use baggageclaim.Disk.FrameCalls.{
  node-set_node_self, node-set_node_ne, node-delete_node_self, node-delete_node_ne,
}
use baggageclaim.Disk.Runs.{rename_run, rename_taken, remove_files_run, remove_all_run}
use baggageclaim.Uidgid.Walk.{Namespacer, uid_namespacer, noop_namespacer, namespace_path}
use baggageclaim.Uidgid.Owners.{translated, namespaced, namespace_path_run, namespace_path-Keeps}
use baggageclaim.Volume.Properties.{Properties}
use baggageclaim.Volume.Metadata.Json.{IsJson}
use baggageclaim.Volume.Metadata.{
  properties_json, privileged_json, store_properties, store_privileged,
}
use baggageclaim.Volume.Metadata.Stored.{write_metadata_file_run}
use baggageclaim.Volume.Filesystem.{volume_at, initialize, cleanup, destroy_dead, destroy}
use baggageclaim.Volume.Filesystem.Frame.{store_properties-Keeps, store_privileged-Keeps}
use baggageclaim.Volume.Driver.Naive.{naive}
use baggageclaim.Volume.Repository.{Repository, Volume, namespacer, set_up}
use baggageclaim.Volume.Repository.Created.{prepared, prepared-properties, prepared-privileged}
use baggageclaim.Volume.Repository.Reads.{Holds}
use baggageclaim.Volume.Spec.Meaning.{Entry, shown}
use baggageclaim.Volume.Spec.New.{IsLaidOut}

pub NoFaults-Unchanged : {P : Places} {w w' : World} → Unchanged P w w' → NoFaults w → NoFaults w'
NoFaults-Unchanged u nf n = rw u.faults (nf n)

pub namespaced-IsLaidOut :
    {parent : Option String} (n : Namespacer) (d : Dir)
    → IsLaidOut parent d
    → IsLaidOut parent (namespaced n d)
namespaced-IsLaidOut (uid_namespacer m) d (fs, files, linked) =
    (map (translated m) fs, rw files refl, linked)
namespaced-IsLaidOut noop_namespacer d files = files

-- Destroying a volume that has a directory takes it out of its place, and leaves nothing in dead/.
module _ (repo : Repository) (h : String) (s : Stage) (w : World) (d : Dir) (nf : NoFaults w)
    (at : node s h w ≡ some (directory d)) (gone : node dead h w ≡ none) where
  abbrev moved : World
  moved = set_node dead h (directory d) (delete_node s h (tick w))

  abbrev emptied : World
  emptied = set_node dead h (directory (record d { files = none })) (tick moved)

  -- the world after it
  abbrev pub destroyed : World
  destroyed = delete_node dead h (tick emptied)

  pub destroy_run : destroy repo.json (naive repo.host) (volume_at s h) w ≡ (ok tt, destroyed)
  unfolding destroy destroy_dead cleanup
  destroy_run = rw (rename_run (volume_at s h) w nf d at (volume_at dead h) (rw gone refl)) (
      rw
        (remove_files_run (volume_at dead h) moved nf d
          (node-set_node_self dead h (directory d) (delete_node s h (tick w))))
        (remove_all_run (volume_at dead h) emptied nf))

  pub destroyed-dead : node dead h destroyed ≡ none
  destroyed-dead = node-delete_node_self dead h (tick emptied)

  pub destroyed-place : ¬ (s ≡ dead) → node s h destroyed ≡ none
  destroyed-place ne =
      node-delete_node_ne s dead h h (tick emptied) (λ p. ne p.0)
      ∙ node-set_node_ne s dead h h _ (tick moved) (λ p. ne p.0)
      ∙ node-set_node_ne s dead h h _ (delete_node s h (tick w)) (λ p. ne p.0)
      ∙ node-delete_node_self s h (tick w)

module _ (repo : Repository) (h : String) (p : Properties) (b : Bool) where
  -- the end of `set_up`
  abbrev pub finish : Action Volume
  finish = do
    u ← initialize (volume_at init h)
    pure (record { handle = u.handle; path = u; properties = p; privileged = false })

  -- the entries other than those of init/
  abbrev pub Outside : Places
  Outside s k = ¬ (s ≡ init)

  -- The stores and the namespacer of `set_up` succeed.
  pub prepared_run :
      (w : World) (d : Dir)
      → NoFaults w
      → node init h w ≡ some (directory d)
      → (w' : World) × (set_up repo (volume_at init h) p b w ≡ finish w')
        × (node init h w' ≡ some (directory (prepared repo p b d)))
        × NoFaults w'
        × Unchanged Outside w w'
  unfolding set_up store_properties store_privileged
  prepared_run w d nf at =
      let v = volume_at init h in
      let s1 = store_properties repo.json v p in
      let s2 = store_privileged repo.json v b in
      let s3 = namespace_path (namespacer repo b) v in
      let k1 = store_properties-Keeps {P = Outside} repo.json v p (λ out. out refl) in
      let k2 = store_privileged-Keeps {P = Outside} repo.json v b (λ out. out refl) in
      let k3 = namespace_path-Keeps {P = Outside} (namespacer repo b) v (λ out. out refl) in
      let w1 = (s1 w).1 in
      let w2 = (s2 w1).1 in
      let nf1 = NoFaults-Unchanged (k1.at w) nf in
      let nf2 = NoFaults-Unchanged (k2.at w1) nf1 in
      let (ok1, at1) = write_metadata_file_run v properties_json repo.json.properties p w d nf at in
      let (ok2, at2) = write_metadata_file_run v privileged_json repo.json.flag b w1 _ nf1 at1 in
      let (ok3, at3) = namespace_path_run (namespacer repo b) v _ w2 nf2 at2 in
      (
        (s3 w2).1,
        bind_run s1 _ w ok1 ∙ bind_run s2 _ w1 ok2 ∙ bind_run s3 _ w2 ok3,
        at3,
        NoFaults-Unchanged (k3.at w2) nf2,
        Unchanged-trans (k1.at w) (Unchanged-trans (k2.at w1) (k3.at w2)),
      )

  -- its end where nothing is in live/
  module _ (w : World) (d : Dir) (nf : NoFaults w) (at : node init h w ≡ some (directory d)) where
    abbrev pub settled : World
    settled = set_node live h (directory d) (delete_node init h (tick w))

    pub finish_run :
        node live h w ≡ none
        → finish w
          ≡ (ok (shown h false (record { properties = p; privileged = b; parent = none })), settled)
    unfolding initialize
    finish_run free =
        rw (rename_run (volume_at init h) w nf d at (volume_at live h) (rw free refl)) refl

    -- its end where a volume is in live/
    pub finish_taken :
        (held : Dir) → node live h w ≡ some (directory held) → finish w ≡ (err exist, tick w)
    unfolding initialize
    finish_taken held there =
        rw (rename_taken (volume_at init h) w nf d at (volume_at live h) exist (rw there refl)) refl

-- A volume is in live/ and holds what the entry says.
abbrev pub Stands : Repository → String → Entry → World → Type 0
Stands repo h e w = (d : Dir) × Holds repo h e.properties e.privileged w d × IsLaidOut e.parent d

module _ (repo : Repository) (laws : IsJson repo.json) (h : String) (p : Properties) (b : Bool)
    (parent : Option String) where
  prepared-IsLaidOut : (d : Dir) → IsLaidOut parent d → IsLaidOut parent (prepared repo p b d)
  prepared-IsLaidOut d files = namespaced-IsLaidOut (namespacer repo b) _ files

  pub prepared-Stands :
      (w : World) (d : Dir)
      → IsLaidOut parent d
      → node live h w ≡ some (directory (prepared repo p b d))
      → Stands repo h (record { properties = p; privileged = b; parent = parent }) w
  prepared-Stands w d files at = (
    prepared repo p b d,
    record {
      at = at;
      properties = prepared-properties repo h p b laws d;
      privileged = prepared-privileged repo h p b laws d;
    },
    prepared-IsLaidOut d files,
  )
