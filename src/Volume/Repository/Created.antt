-- ===== src/Volume/Repository/Created.antt =====
-- `CreateVolume` of volume/repository.go where it succeeds.
use baggageclaim.Prelude.{String, ◌≡◌, refl, ap, ◌∙◌, Bool, false, some, ◌⊎◌, inl, inr}
use baggageclaim.Disk.World.{
  World, Dir, directory, init, live, BaseVolume, NoFaults, node, delete_node,
}
use baggageclaim.Disk.Action.{
  Error, Action, pure, Result, ok, err, bind-ok, ◌>>=◌, attempt, call, tick,
}
use baggageclaim.Disk.Calls.{rename, get_dir, move, replace}
use baggageclaim.Disk.Frame.{
  NoFaults-Keeps, Ensures, Ensures-pure, Ensures-bind, Ensures-bind_ensured, value_rules,
}
use baggageclaim.Disk.FrameCalls.{node-set_node_self}
use baggageclaim.Uidgid.Walk.{Namespacer, uid_namespacer, noop_namespacer, namespace_path}
use baggageclaim.Uidgid.Owners.{namespaced, namespace_path_run, namespace_path-Keeps}
use baggageclaim.Volume.Properties.{Properties}
use baggageclaim.Volume.Metadata.Json.{IsJson}
use baggageclaim.Volume.Metadata.{
  properties_json, privileged_json, as_value, store_properties, store_privileged,
}
use baggageclaim.Volume.Metadata.Stored.{
  loaded, rewritten, write_metadata_file_run, write_metadata_file_dir,
}
use baggageclaim.Volume.Filesystem.{volume_at, initialize}
use baggageclaim.Volume.Filesystem.Frame.{
  IsConfined, store_properties-Keeps, store_privileged-Keeps,
}
use baggageclaim.Volume.Strategy.Strategerizer.{Strategy}
use baggageclaim.Volume.Strategy.{materialize}
use baggageclaim.Volume.Strategy.Frame.{materialize-Ensures, materialize-Keeps}
use baggageclaim.Volume.Repository.Defs.{
  Repository, Volume, namespacer, unless_initialized, set_up, create_volume, get_volume,
}
use baggageclaim.Volume.Repository.Frame.{create_volume-Keeps}
use baggageclaim.Volume.Repository.Reads.{Holds, get_volume_run}

pub namespaced-properties : (n : Namespacer) (d : Dir) → (namespaced n d).properties ≡ d.properties
namespaced-properties (uid_namespacer m) d = refl
namespaced-properties noop_namespacer d = refl

pub namespaced-privileged : (n : Namespacer) (d : Dir) → (namespaced n d).privileged ≡ d.privileged
namespaced-privileged (uid_namespacer m) d = refl
namespaced-privileged noop_namespacer d = refl

Result-cases : (r : Result Unit) → (r ≡ ok tt) ⊎ ((e : Error) × (r ≡ err e))
Result-cases (ok tt) = inl refl
Result-cases (err e) = inr (e, refl)

-- An initialization that succeeds has moved the directory into live/.
initialize_ok :
    (h : String) (w : World) (d : Dir) {u : BaseVolume}
    → NoFaults w
    → node init h w ≡ some (directory d)
    → (initialize (volume_at init h) w).0 ≡ ok u
    → node live h (initialize (volume_at init h) w).1 ≡ some (directory d)
unfolding initialize rename call get_dir move
initialize_ok h w d nf e done = elim (Result-cases (replace (node live h w))) [
  | inl free ↦
      rw (nf w.clock)
        (rw e (rw free (node-set_node_self live h (directory d) (delete_node init h (tick w)))))
  | inr (x, taken) ↦ absurd (cc (rw (nf w.clock, e, taken) at (done)))
]

-- What the stores and the namespacing of `set_up` make of the directory of a new volume.
abbrev pub prepared : Repository → Properties → Bool → Dir → Dir
prepared repo p b d = namespaced (namespacer repo b) (
    rewritten privileged_json (repo.json.flag.encode b)
      (rewritten properties_json (repo.json.properties.encode p) d))

module _ (repo : Repository) (h : String) (p : Properties) (b : Bool)
    (laws : IsJson repo.json) where
  pub prepared-properties :
      (d : Dir) → loaded repo.json.properties (prepared repo p b d).properties ≡ ok p
  prepared-properties d =
      ap (loaded repo.json.properties) (namespaced-properties (namespacer repo b) _)
      ∙ ap as_value (laws.properties_law.decode-encode p _)

  pub prepared-privileged :
      (d : Dir) → loaded repo.json.flag (prepared repo p b d).privileged ≡ ok b
  prepared-privileged d =
      ap (loaded repo.json.flag) (namespaced-privileged (namespacer repo b) _)
      ∙ ap as_value (laws.flag_law.decode-encode b _)

  stored_dir :
      (w : World)
      → NoFaults w
      → (store_properties repo.json (volume_at init h) p w).0 ≡ ok tt
      → (d : Dir) × (node init h w ≡ some (directory d))
  unfolding store_properties
  stored_dir w nf done =
      write_metadata_file_dir (volume_at init h) properties_json repo.json.properties p w nf done

  store_properties_at :
      (w : World) (d : Dir)
      → NoFaults w
      → node init h w ≡ some (directory d)
      → node init h (store_properties repo.json (volume_at init h) p w).1
        ≡ some (directory (rewritten properties_json (repo.json.properties.encode p) d))
  unfolding store_properties
  store_properties_at w d nf e =
      (write_metadata_file_run (volume_at init h) properties_json repo.json.properties p w d nf e).1

  store_privileged_at :
      (w : World) (d : Dir)
      → NoFaults w
      → node init h w ≡ some (directory d)
      → node init h (store_privileged repo.json (volume_at init h) b w).1
        ≡ some (directory (rewritten privileged_json (repo.json.flag.encode b) d))
  unfolding store_privileged
  store_privileged_at w d nf e =
      (write_metadata_file_run (volume_at init h) privileged_json repo.json.flag b w d nf e).1

  -- If the set-up of a new volume succeeds, it is in live/ with its properties and its flag.
  set_up_ok :
      (w : World) {vol : Volume}
      → NoFaults w
      → (set_up repo (volume_at init h) p b w).0 ≡ ok vol
      → (d : Dir) × Holds repo h p b (set_up repo (volume_at init h) p b w).1 d
  unfolding set_up
  set_up_ok w nf done =
      let v = volume_at init h in
      let s1 = store_properties repo.json v p in
      let (x1, ok1, done1, e1) = bind-ok s1 _ w done in
      let s2 = store_privileged repo.json v b in
      let w1 = (s1 w).1 in
      let (x2, ok2, done2, e2) = bind-ok s2 _ w1 done1 in
      let s3 = namespace_path (namespacer repo b) v in
      let w2 = (s2 w1).1 in
      let (x3, ok3, done3, e3) = bind-ok s3 _ w2 done2 in
      let w3 = (s3 w2).1 in
      let (u, ok4, done4, e4) = bind-ok (initialize v) _ w3 done3 in
      let nf1 = NoFaults-Keeps s1 w (store_properties-Keeps repo.json v p (λ x. x)) nf in
      let nf2 = NoFaults-Keeps s2 w1 (store_privileged-Keeps repo.json v b (λ x. x)) nf1 in
      let nf3 = NoFaults-Keeps s3 w2 (namespace_path-Keeps (namespacer repo b) v (λ x. x)) nf2 in
      let (d, at) = stored_dir w nf ok1 in
      let at1 = store_properties_at w d nf at in
      let at2 = store_privileged_at w1 _ nf1 at1 in
      let at3 = (namespace_path_run (namespacer repo b) v _ w2 nf2 at2).1 in
      let final : (set_up repo v p b w).1 ≡ (initialize v w3).1 =
        ap (λ (r : Result Volume × World). r.1) (e1 ∙ e2 ∙ e3 ∙ e4) in
      (
        prepared repo p b d,
        record {
          at = ap (node live h) final ∙ initialize_ok h w3 _ nf3 at3 ok4;
          properties = prepared-properties d;
          privileged = prepared-privileged d;
        },
      )

  unless_initialized_ok :
      (v : BaseVolume) (r : Result Volume) (w : World) {vol : Volume}
      → (unless_initialized repo v r w).0 ≡ ok vol
      → (r ≡ ok vol) × (unless_initialized repo v r w ≡ (ok vol, w))
  unless_initialized_ok v (ok a) w done = (done, cc)
  unless_initialized_ok v (err e) w done = absurd (cc)

  abbrev guarded_set_up : BaseVolume → Action Volume
  guarded_set_up v = do made ← attempt (set_up repo v p b); unless_initialized repo v made

  guarded_set_up_ok :
      (w : World) {vol : Volume}
      → NoFaults w
      → (guarded_set_up (volume_at init h) w).0 ≡ ok vol
      → (d : Dir) × Holds repo h p b (guarded_set_up (volume_at init h) w).1 d
  guarded_set_up_ok w nf done =
      let v = volume_at init h in
      let (made, whole) =
        unless_initialized_ok v (set_up repo v p b w).0 (set_up repo v p b w).1 done in
      let (d, holds) = set_up_ok w nf made in (d, rw whole holds)

  set_up_ok_at :
      (v : BaseVolume) (w : World) {vol : Volume}
      → v ≡ volume_at init h
      → NoFaults w
      → (guarded_set_up v w).0 ≡ ok vol
      → (d : Dir) × Holds repo h p b (guarded_set_up v w).1 d
  set_up_ok_at v w e nf = rw e (guarded_set_up_ok w nf)

  -- The volume that `CreateVolume` returns on success.
  abbrev pub reported : Volume
  reported = record { handle = h; path = volume_at live h; properties = p; privileged = false }

  initialize-Ensures : Ensures (λ u. u ≡ volume_at live h) (initialize (volume_at init h))
  unfolding initialize
  initialize-Ensures = search value_rules

  set_up-Ensures : Ensures (λ vol. vol ≡ reported) (set_up repo (volume_at init h) p b)
  unfolding set_up
  set_up-Ensures =
      let v = volume_at init h in
      let finish = λ (u : BaseVolume).
        pure {A = Volume}
          (record { handle = u.handle; path = u; properties = p; privileged = false }) in
      Ensures-bind (store_properties repo.json v p) _ (λ _.
        Ensures-bind (store_privileged repo.json v b) _ (λ _.
          Ensures-bind (namespace_path (namespacer repo b) v) _ (λ _.
            Ensures-bind_ensured (λ u. u ≡ volume_at live h) (initialize v) finish
              initialize-Ensures
              (λ u e.
                Ensures-pure
                  (record { handle = u.handle; path = u; properties = p; privileged = false })
                  (rw e)))))

  set_up_reported :
      (v : BaseVolume) (w : World) {vol : Volume}
      → v ≡ volume_at init h
      → (guarded_set_up v w).0 ≡ ok vol
      → vol ≡ reported
  set_up_reported v w e = rw e (λ done.
      set_up-Ensures.of w _
        (unless_initialized_ok (volume_at init h) (set_up repo (volume_at init h) p b w).0
          (set_up repo (volume_at init h) p b w).1 done).0)

  -- When no call fails, a volume that `CreateVolume` says it has created is what `GetVolume` returns
  -- for its handle: at its path in live/, with the properties and the flag that were asked for. What
  -- `CreateVolume` itself returns is the same but for the flag, which it leaves false. The driver is
  -- taken to touch only the volume that it works on.
  pub get_volume-create_volume :
      (confined : IsConfined repo.driver) (s : Strategy) (w : World) {vol : Volume}
      → NoFaults w
      → (create_volume repo h s p b w).0 ≡ ok vol
      → ((get_volume repo h (create_volume repo h s p b w).1).0
          ≡ ok (
              some
                (record { handle = h; path = volume_at live h; properties = p; privileged = b })))
        × (vol ≡ record { handle = h; path = volume_at live h; properties = p; privileged = false })
  unfolding create_volume
  get_volume-create_volume confined s w nf done =
      let m = materialize repo.json repo.driver repo.host s h in
      let (v, ok1, done1, e1) = bind-ok m guarded_set_up w done in
      let nf1 =
        NoFaults-Keeps m w
          (materialize-Keeps repo.json repo.driver repo.host confined h (λ x. x) (λ x. x) s) nf in
      let fresh = (materialize-Ensures repo.json repo.driver repo.host h s).of w v ok1 in
      let (d, holds) = set_up_ok_at v (m w).1 fresh nf1 done1 in
      let nf2 =
        NoFaults-Keeps (create_volume repo h s p b) w
          (create_volume-Keeps repo confined h (λ x. x) (λ x. x) (λ x. x) s p b) nf in
      (
        get_volume_run repo h p b (create_volume repo h s p b w).1 d nf2 (rw e1 holds),
        set_up_reported v (m w).1 fresh done1,
      )
