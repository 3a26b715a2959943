-- ===== src/Volume/Spec/Refines.antt =====
-- The repository with the naive driver is the map from handles to properties, flags and parents.
use baggageclaim.Prelude.{◌≡◌, refl, none, List, [], ◌∷◌}
use baggageclaim.Prelude.Table.{get}
use baggageclaim.Disk.World.{World, NoFaults, Stage, entries}
use baggageclaim.Volume.Metadata.Json.{IsJson}
use baggageclaim.Volume.Repository.{Repository}
use baggageclaim.Volume.Spec.Meaning.{
  Store, Command, create, destroy, change_property, find_parent, read_flag, change_flag, perform,
  meant, run_all,
}
use baggageclaim.Volume.Spec.Create.{with_naive}
use baggageclaim.Volume.Spec.Represents.{Represents}
use baggageclaim.Volume.Spec.Creates.{Agrees, create-Agrees}
use baggageclaim.Volume.Spec.Parents.{find_parent_at}
use baggageclaim.Volume.Spec.Steps.{
  destroy_at, get_at, change_property_at, read_flag_at, change_flag_at,
}

-- A disk with nothing on it stands for the empty map.
pub Represents-empty :
    (repo : Repository) (w : World)
    → NoFaults w
    → ((s : Stage) → entries s w ≡ [])
    → Represents repo w (λ h. none)
unfolding get
Represents-empty repo w nf bare = record {
  no_faults = nf;
  clean = λ h. (rw (bare Stage.init) refl, rw (bare Stage.dead) refl);
  shows = λ h. rw (bare Stage.live) refl;
}

module _ (repo : Repository) (laws : IsJson repo.json) where
  perform-Agrees :
      (c : Command) (w : World) (σ : Store)
      → Represents repo w σ
      → Agrees repo (perform (with_naive repo) c w) (meant c σ)
  unfolding meant
  perform-Agrees (create h o p b) w σ rep = create-Agrees repo laws h o p b w σ rep
  perform-Agrees (destroy h) w σ rep = destroy_at repo laws h w σ rep (σ h) refl
  perform-Agrees (Command.get h) w σ rep = get_at repo laws h w σ rep (σ h) refl
  perform-Agrees (find_parent h) w σ rep = find_parent_at repo h w σ rep (σ h) refl
  perform-Agrees (change_property h name value) w σ rep =
      change_property_at repo laws h w σ rep name value (σ h) refl
  perform-Agrees (read_flag h) w σ rep = read_flag_at repo laws h w σ rep (σ h) refl
  perform-Agrees (change_flag h b) w σ rep = change_flag_at repo laws h w σ rep b (σ h) refl

  -- The repository with the naive driver implements a map from handles to properties, flags and
  -- parents. From a disk that stands for a map, and when no call fails, any sequence of creations
  -- (empty or over another volume), destructions, look-ups of volumes and of their parents,
  -- property changes, reads of the flag and changes of the flag gets, one by one and errors
  -- included, the replies that the map is meant to give; and afterwards the disk stands for the
  -- map that is meant, with nothing left in init/ or dead/. JSON is taken to be decoded to what
  -- was encoded.
  pub run_all-perform :
      (cs : List Command) (w : World) (σ : Store)
      → Represents repo w σ
      → ((run_all (perform (with_naive repo)) cs w).0 ≡ (run_all meant cs σ).0)
        × Represents repo (run_all (perform (with_naive repo)) cs w).1 (run_all meant cs σ).1
  unfolding run_all
  run_all-perform [] w σ rep = (refl, rep)
  run_all-perform (c ∷ cs) w σ rep =
      let (replied, after) = perform-Agrees c w σ rep in
      let (rest, final) =
        run_all-perform cs (perform (with_naive repo) c w).1 (meant c σ).1 after in
      (rw replied (rw rest refl), final)
