-- ===== src/Volume/Repository/Update.antt =====
-- volume/repository.go: setting a property or the privileged flag of a volume.
use baggageclaim.Prelude.{String, ◌≡◌, ap, ◌∙◌, Bool, some, ◌∷◌, ◌==◌, if◌then◌else◌}
use baggageclaim.Prelude.Table.{get, IsMap}
use baggageclaim.Disk.World.{World, Dir, live, directory, NoFaults, node}
use baggageclaim.Disk.Action.{Action, ok, tick, ◌>>=◌, ◌>>◌}
use baggageclaim.Disk.Frame.{NoFaults-Keeps}
use baggageclaim.Uidgid.Walk.{namespace_path}
use baggageclaim.Uidgid.Owners.{namespaced, namespace_path_run, namespace_path-Keeps}
use baggageclaim.Volume.Properties.{Properties, update_property}
use baggageclaim.Volume.Properties.Update.{get-update_property}
use baggageclaim.Volume.Metadata.Json.{IsJson}
use baggageclaim.Volume.Metadata.{
  properties_json, privileged_json, as_value, load_properties, store_properties, store_privileged,
}
use baggageclaim.Volume.Metadata.Stored.{loaded, rewritten, write_metadata_file_run}
use baggageclaim.Volume.Filesystem.{volume_at}
use baggageclaim.Volume.Repository.Defs.{
  Repository, namespacer, locked, find, set_property, set_privileged, get_volume,
}
use baggageclaim.Volume.Repository.Frame.{set_property-Keeps, set_privileged-Keeps}
use baggageclaim.Volume.Repository.Created.{namespaced-properties, namespaced-privileged}
use baggageclaim.Volume.Repository.Reads.{
  Holds, find_run, load_properties_run, after_properties, get_volume_run,
}

module _ (repo : Repository) (laws : IsJson repo.json) (h : String) (p : Properties) (b : Bool)
    (d : Dir) where
  store_after_load :
      (w : World) (q : Properties)
      → NoFaults w
      → Holds repo h p b w d
      → ((store_properties repo.json (volume_at live h) q w).0 ≡ ok tt)
        × Holds repo h q b
            (store_properties repo.json (volume_at live h) q w).1
            (rewritten properties_json (repo.json.properties.encode q) d)
  unfolding store_properties
  store_after_load w q nf holds =
      let (stored, at) =
        write_metadata_file_run (volume_at live h) properties_json repo.json.properties q w d nf
          holds.at in
      (
        stored,
        record {
          at = at;
          properties = ap as_value (laws.properties_law.decode-encode q _);
          privileged = holds.privileged;
        },
      )

  update_body : String → String → Action Unit
  update_body name value = do
    v ← find h
    properties ← load_properties repo.json v
    store_properties repo.json v (update_property properties name value)

  update_body_run :
      (w : World) (name value : String)
      → NoFaults w
      → Holds repo h p b w d
      → ((update_body name value w).0 ≡ ok tt)
        × Holds repo h (update_property p name value) b (update_body name value w).1 (
            rewritten properties_json
              (repo.json.properties.encode (update_property p name value))
              d)
  unfolding update_body
  update_body_run w name value nf holds =
      let w' = tick w in
      let holds' : Holds repo h p b w' d = record {
        at = holds.at;
        properties = holds.properties;
        privileged = holds.privileged;
      } in
      let (nf2, holds2) = after_properties repo h p b w' d nf holds' in
      rw (find_run h w d nf holds.at) (
        rw (load_properties_run repo h p b w' d nf holds') (
          store_after_load (load_properties repo.json (volume_at live h) w').1
            (update_property p name value) nf2 holds2))

  pub set_property_run :
      (w : World) (name value : String)
      → NoFaults w
      → Holds repo h p b w d
      → ((set_property repo h name value w).0 ≡ ok tt)
        × Holds repo h (update_property p name value) b (set_property repo h name value w).1 (
            rewritten properties_json
              (repo.json.properties.encode (update_property p name value))
              d)
  unfolding set_property locked update_body
  set_property_run w name value nf holds =
      let start = record w { held = h ∷ w.held } in
      let (stored, after) =
        update_body_run start name value nf (record {
          at = holds.at;
          properties = holds.properties;
          privileged = holds.privileged;
        }) in
      (
        stored,
        record { at = after.at; properties = after.properties; privileged = after.privileged },
      )

  -- When no call fails, setting a property of a volume whose properties are a map succeeds, and
  -- `GetVolume` then returns the volume with its flag as it was and with properties of which the named
  -- one has the new value and every other one, present or absent, is as it was.
  pub get_volume-set_property :
      (w : World) (name value : String)
      → NoFaults w
      → Holds repo h p b w d
      → IsMap p
      → ((set_property repo h name value w).0 ≡ ok tt)
        × ((q : Properties) × ((get_volume repo h (set_property repo h name value w).1).0
              ≡ ok (
                  some (record {
                    handle = h;
                    path = volume_at live h;
                    properties = q;
                    privileged = b;
                  })))
            × ((j : String) → get j q ≡ (if name == j then some value else get j p)))
  get_volume-set_property w name value nf holds m =
      let (stored, after) = set_property_run w name value nf holds in
      let nf' =
        NoFaults-Keeps (set_property repo h name value) w
          (set_property-Keeps repo h (λ x. x) name value) nf in
      (
        stored,
        (
          update_property p name value,
          get_volume_run repo h (update_property p name value) b
              (set_property repo h name value w).1 _ nf' after,
          λ j. get-update_property p name value j m,
        ),
      )

  flag_body : Bool → Action Unit
  flag_body c = do v ← find h; namespace_path (namespacer repo c) v; store_privileged repo.json v c

  store_flag :
      (w : World) (c : Bool)
      → NoFaults w
      → node live h w ≡ some (directory (namespaced (namespacer repo c) d))
      → Holds repo h p b w (namespaced (namespacer repo c) d)
      → ((store_privileged repo.json (volume_at live h) c w).0 ≡ ok tt)
        × Holds repo h p c
            (store_privileged repo.json (volume_at live h) c w).1
            (rewritten privileged_json (repo.json.flag.encode c) (namespaced (namespacer repo c) d))
  unfolding store_privileged
  store_flag w c nf e holds =
      let (stored, at) =
        write_metadata_file_run (volume_at live h) privileged_json repo.json.flag c w _ nf e in
      (
        stored,
        record {
          at = at;
          properties = holds.properties;
          privileged = ap as_value (laws.flag_law.decode-encode c _);
        },
      )

  flag_body_run :
      (w : World) (c : Bool)
      → NoFaults w
      → Holds repo h p b w d
      → ((flag_body c w).0 ≡ ok tt)
        × Holds repo h p c
            (flag_body c w).1
            (rewritten privileged_json (repo.json.flag.encode c) (namespaced (namespacer repo c) d))
  unfolding flag_body
  flag_body_run w c nf holds =
      let n = namespacer repo c in
      let v = volume_at live h in
      let (walked, at) = namespace_path_run n v d (tick w) nf holds.at in
      let nf' =
        NoFaults-Keeps (namespace_path n v) (tick w) (namespace_path-Keeps n v (λ x. x)) nf in
      rw (find_run h w d nf holds.at) (
        rw walked (
          store_flag (namespace_path n v (tick w)).1 c nf' at (record {
            at = at;
            properties =
                ap (loaded repo.json.properties) (namespaced-properties n d) ∙ holds.properties;
            privileged = ap (loaded repo.json.flag) (namespaced-privileged n d) ∙ holds.privileged;
          })))

  pub set_privileged_run :
      (w : World) (c : Bool)
      → NoFaults w
      → Holds repo h p b w d
      → ((set_privileged repo h c w).0 ≡ ok tt)
        × Holds repo h p c
            (set_privileged repo h c w).1
            (rewritten privileged_json (repo.json.flag.encode c) (namespaced (namespacer repo c) d))
  unfolding set_privileged locked flag_body
  set_privileged_run w c nf holds =
      let start = record w { held = h ∷ w.held } in
      let (stored, after) =
        flag_body_run start c nf (record {
          at = holds.at;
          properties = holds.properties;
          privileged = holds.privileged;
        }) in
      (
        stored,
        record { at = after.at; properties = after.properties; privileged = after.privileged },
      )

  -- When no call fails, `SetPrivileged` succeeds on a volume, and `GetVolume` then returns the volume
  -- with the new flag and its properties as they were.
  pub get_volume-set_privileged :
      (w : World) (c : Bool)
      → NoFaults w
      → Holds repo h p b w d
      → ((set_privileged repo h c w).0 ≡ ok tt)
        × ((get_volume repo h (set_privileged repo h c w).1).0
            ≡ ok (
                some
                  (record { handle = h; path = volume_at live h; properties = p; privileged = c })))
  get_volume-set_privileged w c nf holds =
      let (stored, after) = set_privileged_run w c nf holds in
      let nf' =
        NoFaults-Keeps (set_privileged repo h c) w (set_privileged-Keeps repo h (λ x. x) c) nf in
      (stored, get_volume_run repo h p c (set_privileged repo h c w).1 _ nf' after)
