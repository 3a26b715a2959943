-- ===== src/Uidgid/Privilege.antt =====
-- What making a volume unprivileged, and privileged again, does to the owners of its files.
use baggageclaim.Prelude.{
  ℕ, ◌<◌, ◌≡◌, ◌≢◌, refl, ap, ◌∙◌, true, List, [], ◌∷◌, map, All, some, arith, subst, nat_eq, ◌&&◌,
  ◌||◌, ◌%◌, if◌then◌else◌,
}
use baggageclaim.Disk.World.{File, Dir, BaseVolume, World, NoFaults, directory, node}
use baggageclaim.Disk.Action.{◌>>◌}
use baggageclaim.Disk.Frame.{NoFaults-Keeps}
use baggageclaim.Uidgid.Mapper.{map_ids, new_privileged_mapper, new_unprivileged_mapper}
use baggageclaim.Uidgid.Walk.{uid_namespacer, namespace_path}
use baggageclaim.Uidgid.Owners.{translated, namespace_path-Keeps, namespace_path_run}

-- The owners of a file are both other than `id`.
abbrev pub NotOwnedBy : ℕ → File → Type 0
NotOwnedBy id f = (f.uid ≢ id) × (f.gid ≢ id)

translated-NotOwnedBy :
    (max_id : ℕ) (f : File)
    → 0 < max_id
    → NotOwnedBy 0 (translated (new_unprivileged_mapper max_id) f)
unfolding map_ids new_unprivileged_mapper
translated-NotOwnedBy max_id f h = ground arith

-- What becomes of a file: root's ids are the greatest id, others are as they were, and a file that is
-- given away loses its set-id bits where it is a symbolic link.
abbrev pub unrooted : ℕ → File → File
unrooted max_id f = record {
  path = f.path;
  uid = if nat_eq f.uid 0 then max_id else f.uid;
  gid = if nat_eq f.gid 0 then max_id else f.gid;
  mode = if f.is_symlink && (nat_eq f.uid 0 || nat_eq f.gid 0) then f.mode % 0o2000 else f.mode;
  is_symlink = f.is_symlink;
  content = f.content;
}

translated-unrooted :
    (max_id : ℕ) (f : File)
    → 0 < max_id
    → translated (new_unprivileged_mapper max_id) f ≡ unrooted max_id f
unfolding map_ids new_unprivileged_mapper
translated-unrooted max_id f h = ground arith

map-unrooted :
    (max_id : ℕ) (fs : List File)
    → 0 < max_id
    → map (translated (new_unprivileged_mapper max_id)) fs ≡ map (unrooted max_id) fs
map-unrooted max_id [] h = refl
map-unrooted max_id (f ∷ fs) h =
    rw (translated-unrooted max_id f h) (rw (map-unrooted max_id fs h) refl)

translated-All :
    (max_id : ℕ) (fs : List File)
    → 0 < max_id
    → All (NotOwnedBy 0) (map (translated (new_unprivileged_mapper max_id)) fs)
translated-All max_id [] h = tt
translated-All max_id (f ∷ fs) h = (translated-NotOwnedBy max_id f h, translated-All max_id fs h)

-- Once a volume is namespaced by the unprivileged mapping, its directory has the same metadata, parent
-- link and files in the same order, each with its path, kind and contents, with root's user and group
-- replaced by the greatest id and any other left alone, and with its mode, save that a symbolic link
-- that is given away loses its set-id bits; and no file is owned by root or has root's group. No call
-- fails, and the greatest id is not 0.
pub unprivileged-NotOwnedBy_root :
    (max_id : ℕ) (v : BaseVolume) (d : Dir) (fs : List File) (w : World)
    → 0 < max_id
    → NoFaults w
    → node v.stage v.handle w ≡ some (directory (record d { files = some fs }))
    → (node v.stage v.handle
          (namespace_path (uid_namespacer (new_unprivileged_mapper max_id)) v w).1
        ≡ some (directory (record d { files = some (map (unrooted max_id) fs) })))
      × All (NotOwnedBy 0) (map (unrooted max_id) fs)
unprivileged-NotOwnedBy_root max_id v d fs w h nf e = (
  (namespace_path_run (uid_namespacer (new_unprivileged_mapper max_id)) v _ w nf e).1
      ∙ ap (λ (gs : List File). some (directory (record d { files = some gs })))
          (map-unrooted max_id fs h),
  subst (λ gs. All (NotOwnedBy 0) gs) (map-unrooted max_id fs h) (translated-All max_id fs h),
)

-- A file that the two mappings can tell apart: it is not owned by the greatest id, and if it is a
-- symbolic link it has no set-id bit.
abbrev pub IsPlain : ℕ → File → Type 0
IsPlain max_id f = NotOwnedBy max_id f × (f.is_symlink ≡ true → f.mode < 0o2000)

translated-translated :
    (max_id : ℕ) (f : File)
    → IsPlain max_id f
    → translated (new_privileged_mapper max_id) (translated (new_unprivileged_mapper max_id) f) ≡ f
unfolding map_ids new_unprivileged_mapper new_privileged_mapper
translated-translated max_id f h = ground arith

map-translated :
    (max_id : ℕ) (fs : List File)
    → All (IsPlain max_id) fs
    → map
        (translated (new_privileged_mapper max_id))
        (map (translated (new_unprivileged_mapper max_id)) fs)
      ≡ fs
map-translated max_id [] h = refl
map-translated max_id (f ∷ fs) h =
    rw (translated-translated max_id f h.0) (rw (map-translated max_id fs h.1))

-- Making a volume unprivileged and then privileged again leaves its directory as it was, owners and
-- modes of all files included; no call fails, no file is owned by the greatest id, and no symbolic
-- link has a set-id bit.
pub privileged-unprivileged :
    (max_id : ℕ) (v : BaseVolume) (d : Dir) (fs : List File) (w : World)
    → NoFaults w
    → node v.stage v.handle w ≡ some (directory (record d { files = some fs }))
    → All (IsPlain max_id) fs
    → node v.stage v.handle
        ((namespace_path (uid_namespacer (new_unprivileged_mapper max_id)) v
            >> namespace_path (uid_namespacer (new_privileged_mapper max_id)) v)
          w).1
      ≡ some (directory (record d { files = some fs }))
privileged-unprivileged max_id v d fs w nf e plain =
    let away = uid_namespacer (new_unprivileged_mapper max_id) in
    let back = uid_namespacer (new_privileged_mapper max_id) in
    let (went, at) = namespace_path_run away v (record d { files = some fs }) w nf e in
    let nf' = NoFaults-Keeps (namespace_path away v) w (namespace_path-Keeps away v (λ x. x)) nf in
    rw went (
      (namespace_path_run back v _ (namespace_path away v w).1 nf' at).1
      ∙ ap (λ (gs : List File). some (directory (record d { files = some gs })))
          (map-translated max_id fs plain))
