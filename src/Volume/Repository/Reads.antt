-- ===== src/Volume/Repository/Reads.antt =====
-- What the reading operations of the repository return, from what is on the disk, when no call
-- fails.
use baggageclaim.Prelude.{String, ◌≡◌, refl, Bool, none, some}
use baggageclaim.Disk.World.{World, Dir, directory, live, NoFaults, node}
use baggageclaim.Disk.Action.{ok, tick, call}
use baggageclaim.Disk.Calls.{stat}
use baggageclaim.Disk.Frame.{Places}
use baggageclaim.Volume.Properties.{Properties}
use baggageclaim.Volume.Metadata.{
  properties_json, privileged_json, load_properties, load_privileged,
}
use baggageclaim.Volume.Metadata.Stored.{loaded, read_metadata_file_run}
use baggageclaim.Volume.Filesystem.{volume_at, lookup_volume}
use baggageclaim.Volume.Filesystem.Frame.{load_properties-Keeps}
use baggageclaim.Volume.Repository.Defs.{Repository, Volume, find, volume_from, get_volume}

-- A lookup that finds a directory costs one call and changes nothing else.
pub lookup_volume_run :
    (h : String) (w : World) (d : Dir)
    → NoFaults w
    → node live h w ≡ some (directory d)
    → lookup_volume h w ≡ (ok (some (volume_at live h)), tick w)
unfolding lookup_volume stat call
lookup_volume_run h w d nf e = rw (nf w.clock) (rw e)

pub lookup_volume_missing :
    (h : String) (w : World)
    → NoFaults w
    → node live h w ≡ none
    → lookup_volume h w ≡ (ok none, tick w)
unfolding lookup_volume stat call
lookup_volume_missing h w nf e = rw (nf w.clock) (rw e)

pub find_run :
    (h : String) (w : World) (d : Dir)
    → NoFaults w
    → node live h w ≡ some (directory d)
    → find h w ≡ (ok (volume_at live h), tick w)
unfolding find
find_run h w d nf e = rw (lookup_volume_run h w d nf e)

module _ (repo : Repository) (h : String) (p : Properties) (b : Bool) (w : World) (d : Dir) where
  -- The directory of the volume holds these properties and this flag.
  pub record Holds : Type 0 where
    pub at : node live h w ≡ some (directory d)
    pub properties : loaded repo.json.properties d.properties ≡ ok p
    pub privileged : loaded repo.json.flag d.privileged ≡ ok b

  pub load_properties_run :
      NoFaults w → Holds → (load_properties repo.json (volume_at live h) w).0 ≡ ok p
  unfolding load_properties
  load_properties_run nf holds =
      rw
        (read_metadata_file_run (volume_at live h) properties_json repo.json.properties d.properties
          w d nf holds.at refl)
        holds.properties

  pub load_privileged_run :
      NoFaults w → Holds → (load_privileged repo.json (volume_at live h) w).0 ≡ ok b
  unfolding load_privileged
  load_privileged_run nf holds =
      rw
        (read_metadata_file_run (volume_at live h) privileged_json repo.json.flag d.privileged w d
          nf holds.at refl)
        holds.privileged

abbrev pub all : Places
all s h = Unit

module _ (repo : Repository) (h : String) (p : Properties) (b : Bool) (w : World) (d : Dir) where
  pub after_properties :
      NoFaults w
      → Holds repo h p b w d
      → NoFaults (load_properties repo.json (volume_at live h) w).1
        × Holds repo h p b (load_properties repo.json (volume_at live h) w).1 d
  after_properties nf holds =
      let kept = (load_properties-Keeps {P = all} repo.json (volume_at live h)).at w in
      (
        λ n. rw kept.faults (nf n),
        record {
          at = rw (kept.nodes live h tt) holds.at;
          properties = holds.properties;
          privileged = holds.privileged;
        },
      )

  abbrev pub hydrated : Volume
  hydrated = record { handle = h; path = volume_at live h; properties = p; privileged = b }

  pub volume_from_run :
      NoFaults w → Holds repo h p b w d → (volume_from repo (volume_at live h) w).0 ≡ ok hydrated
  unfolding volume_from
  volume_from_run nf holds =
      let (nf', holds') = after_properties nf holds in
      rw (load_properties_run repo h p b w d nf holds) (
        rw (
          load_privileged_run repo h p b (load_properties repo.json (volume_at live h) w).1 d nf'
            holds'))

module _ (repo : Repository) (h : String) (p : Properties) (b : Bool) (w : World) (d : Dir) where
  -- `GetVolume` returns the properties and the flag that the files of the volume hold.
  pub get_volume_run :
      NoFaults w
      → Holds repo h p b w d
      → (get_volume repo h w).0 ≡ ok (some (hydrated repo h p b w d))
  unfolding get_volume
  get_volume_run nf holds = rw (lookup_volume_run h w d nf holds.at) (
      rw (
        volume_from_run repo h p b (tick w) d nf
          (record { at = holds.at; properties = holds.properties; privileged = holds.privileged })))
