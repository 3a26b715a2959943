-- ===== src/Uidgid/Owners.antt =====
-- Who owns the files of a volume once it is namespaced.
use baggageclaim.Prelude.{
  ℕ, ◌+◌, ◌≡◌, refl, ap, ◌∙◌, ◌||◌, not, nat_eq, if◌then◌else◌, arith, List, [], ◌∷◌, map, Option,
  none, some, Bool-cases, inl, inr,
}
use baggageclaim.Disk.World.{File, Dir, BaseVolume, World, NoFaults, directory, node}
use baggageclaim.Disk.Action.{Action, Result, ok, err, call, tick}
use baggageclaim.Disk.Calls.{get_dir, put_dir}
use baggageclaim.Disk.Frame.{Places, Keeps, NoFaults-Keeps, frame_rules}
use baggageclaim.Disk.FrameCalls.{get_dir-Keeps, put_dir-Keeps, node-set_node_self}
use baggageclaim.Uidgid.Mapper.{Mapper, map_ids}
use baggageclaim.Uidgid.Translator.{chowned, restore_mode, chown_file, translate_path}
use baggageclaim.Uidgid.Walk.{
  Namespacer, uid_namespacer, noop_namespacer, visit, walk, walk_files, walk_dir, namespace_path,
}

-- A file with new owners: its mode is set again, unless it is a symbolic link.
abbrev given_to : ℕ → ℕ → File → File
given_to uid gid f = if f.is_symlink then chowned uid gid f else record f { uid = uid; gid = gid }

-- A file whose owners the mapper has mapped.
abbrev pub translated : Mapper → File → File
translated m f =
    let (to_uid, to_gid) = map_ids m f.uid f.gid in
    if not (nat_eq to_uid f.uid) || not (nat_eq to_gid f.gid) then given_to to_uid to_gid f else f

chown_file_run :
    (uid gid : ℕ) (f : File) (w : World)
    → NoFaults w
    → (chown_file uid gid f w).0 ≡ ok (given_to uid gid f)
unfolding chown_file restore_mode call
chown_file_run uid gid f w nf = elim (Bool-cases f.is_symlink) [
  | inl link ↦ ground (arith, nf w.clock, nf (w.clock + 1))
  | inr plain ↦ ground (arith, nf w.clock, nf (w.clock + 1))
]

translate_path_run :
    (m : Mapper) (f : File) (w : World)
    → NoFaults w
    → (translate_path m f w).0 ≡ ok (translated m f)
unfolding translate_path
translate_path_run m f w nf =
    let (u, g) = map_ids m f.uid f.gid in
    elim (Bool-cases (not (nat_eq u f.uid) || not (nat_eq g f.gid))) [
      | inl changed ↦ rw changed (chown_file_run u g f w nf)
      | inr same ↦ rw same
    ]

module _ {P : Places} where
  restore_mode-Keeps : (mode : ℕ) (f : File) → Keeps P (restore_mode mode f)
  unfolding restore_mode
  restore_mode-Keeps mode f = elim (Bool-cases f.is_symlink) [
    | inl link ↦ rw link (search frame_rules)
    | inr plain ↦ rw plain (search frame_rules depth 9)
  ]

  chown_file-Keeps : (uid gid : ℕ) (f : File) → Keeps P (chown_file uid gid f)
  unfolding chown_file
  chown_file-Keeps uid gid f = search (frame_rules, restore_mode-Keeps) depth 9

  translate_path-Keeps : (m : Mapper) (f : File) → Keeps P (translate_path m f)
  unfolding translate_path
  translate_path-Keeps m f =
      let (u, g) = map_ids m f.uid f.gid in
      elim (Bool-cases (not (nat_eq u f.uid) || not (nat_eq g f.gid))) [
        | inl changed ↦ rw changed (chown_file-Keeps u g f)
        | inr same ↦ rw same (search frame_rules)
      ]

  visit-Keeps :
      (m : Mapper) (f : File) (fs : List File) (rest : Action (List File)) (r : Result Unit)
      → Keeps P rest
      → Keeps P (visit m f fs rest r)
  visit-Keeps m f fs rest (ok _) k = search (frame_rules, translate_path-Keeps) depth 9
  visit-Keeps m f fs rest (err _) k = search frame_rules

  walk-Keeps : (m : Mapper) (fs : List File) → Keeps P (walk m fs)
  unfolding walk
  walk-Keeps m [] = search frame_rules
  walk-Keeps m (f ∷ fs) = let ih = walk-Keeps m fs in search (frame_rules, visit-Keeps) depth 9

  walk_files-Keeps :
      (m : Mapper) (v : BaseVolume) (d : Dir) (o : Option (List File))
      → ¬ P v.stage v.handle
      → Keeps P (walk_files m v d o)
  walk_files-Keeps m v d none out = search frame_rules
  walk_files-Keeps m v d (some fs) out = search (frame_rules, walk-Keeps, put_dir-Keeps) depth 9

  walk_dir-Keeps :
      (m : Mapper) (v : BaseVolume) (r : Result Dir)
      → ¬ P v.stage v.handle
      → Keeps P (walk_dir m v r)
  walk_dir-Keeps m v (ok d) out = walk_files-Keeps m v d d.files out
  walk_dir-Keeps m v (err _) out = search frame_rules

  -- Namespacing a volume changes no other one.
  pub namespace_path-Keeps :
      (n : Namespacer) (v : BaseVolume) → ¬ P v.stage v.handle → Keeps P (namespace_path n v)
  unfolding namespace_path
  namespace_path-Keeps (uid_namespacer m) v out =
      search (frame_rules, get_dir-Keeps, walk_dir-Keeps) depth 9
  namespace_path-Keeps noop_namespacer v out = search frame_rules

walk_run :
    (m : Mapper) (fs : List File) (w : World)
    → NoFaults w
    → (walk m fs w).0 ≡ ok (map (translated m) fs)
unfolding walk call
walk_run m [] w nf = refl
walk_run m (f ∷ fs) w nf = rw (nf w.clock) (
    rw (translate_path_run m f (tick w) nf) (
      rw (
        walk_run m fs (translate_path m f (tick w)).1
          (NoFaults-Keeps (translate_path m f) (tick w) (translate_path-Keeps m f) nf))))

-- A directory once its files have been mapped.
abbrev mapped_files : Mapper → Option (List File) → Option (List File)
mapped_files m none = none
mapped_files m (some fs) = some (map (translated m) fs)

abbrev pub namespaced : Namespacer → Dir → Dir
namespaced (uid_namespacer m) d = record d { files = mapped_files m d.files }
namespaced noop_namespacer d = d

walk_files_run :
    (m : Mapper) (v : BaseVolume) (d : Dir) (o : Option (List File)) (w : World)
    → d.files ≡ o
    → NoFaults w
    → node v.stage v.handle w ≡ some (directory d)
    → ((walk_files m v d o w).0 ≡ ok tt)
      × (node v.stage v.handle (walk_files m v d o w).1
          ≡ some (directory (record d { files = mapped_files m o })))
unfolding put_dir
walk_files_run m v d none w h nf e =
    (refl, e ∙ ap (λ (o : Option (List File)). some (directory (record d { files = o }))) h)
walk_files_run m v d (some fs) w h nf e =
    rw (walk_run m fs w nf) (refl, node-set_node_self v.stage v.handle _ (walk m fs w).1)

-- Namespacing a volume succeeds, and maps the owners of all its files, if no call fails.
pub namespace_path_run :
    (n : Namespacer) (v : BaseVolume) (d : Dir) (w : World)
    → NoFaults w
    → node v.stage v.handle w ≡ some (directory d)
    → ((namespace_path n v w).0 ≡ ok tt)
      × (node v.stage v.handle (namespace_path n v w).1 ≡ some (directory (namespaced n d)))
unfolding namespace_path get_dir
namespace_path_run (uid_namespacer m) v d w nf e = rw e (walk_files_run m v d d.files w refl nf e)
namespace_path_run noop_namespacer v d w nf e = (refl, e)
