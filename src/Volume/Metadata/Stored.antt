-- ===== src/Volume/Metadata/Stored.antt =====
-- Storing and loading the metadata files of volume/metadata.go when no call fails.
use baggageclaim.Prelude.{◌≡◌, refl, sym, ap, ◌∙◌, Option, none, some, ◌+◌}
use baggageclaim.Disk.World.{
  Bytes, Dir, Node, regular, directory, BaseVolume, World, NoFaults, node, set_node,
}
use baggageclaim.Disk.Action.{Result, ok, err, volume_does_not_exist, ◌>>◌, call, tick}
use baggageclaim.Disk.Calls.{get_dir, put_dir}
use baggageclaim.Disk.Frame.{Places, Keeps, NoFaults-Keeps, frame_rules}
use baggageclaim.Disk.FrameCalls.{get_dir-Keeps, put_dir-Keeps, node-set_node_self}
use baggageclaim.Volume.Properties.{Properties}
use baggageclaim.Volume.Metadata.Json.{Codec, Json, IsJson}
use baggageclaim.Volume.Metadata.Defs.{
  MetadataFile, properties_json, privileged_json, content, set_content, created, decode_opened,
  encode_opened, store_properties, load_properties, load_privileged, overwrite, open_read,
  open_write, write, as_value, read_metadata_file, write_metadata_file,
}

-- the directory after a write of `b` to a metadata file
abbrev pub rewritten : MetadataFile → Bytes → Dir → Dir
rewritten f b d = set_content f (overwrite b (created (content f d))) d

content-set_content :
    (f : MetadataFile) (b : Bytes) (d : Dir) → content f (set_content f b d) ≡ some b
content-set_content properties_json b d = refl
content-set_content privileged_json b d = refl

set_content-set_content :
    (f : MetadataFile) (a b : Bytes) (d : Dir)
    → set_content f a (set_content f b d) ≡ set_content f a d
set_content-set_content properties_json a b d = refl
set_content-set_content privileged_json a b d = refl

module _ (v : BaseVolume) (f : MetadataFile) where
  open_write_run :
      (w : World) (d : Dir)
      → NoFaults w
      → node v.stage v.handle w ≡ some (directory d)
      → open_write v f w ≡ (
        ok tt,
        set_node v.stage v.handle (directory (set_content f (created (content f d)) d)) (tick w),
      )
  unfolding open_write get_dir put_dir call
  open_write_run w d nf e = rw (nf w.clock) (rw e)

  write_run :
      (b : Bytes) (w : World) (d : Dir)
      → NoFaults w
      → node v.stage v.handle w ≡ some (directory d)
      → write v f b w ≡ (ok tt, set_node v.stage v.handle (directory (rewritten f b d)) (tick w))
  unfolding write get_dir put_dir
  write_run b w d nf e = rw (nf w.clock) (rw e)

  -- writing over the file that the opening made, or found
  rewritten-created :
      (b : Bytes) (d : Dir)
      → rewritten f b (set_content f (created (content f d)) d) ≡ rewritten f b d
  rewritten-created b d = simp (content-set_content, set_content-set_content)

-- What a read that meets no fault gives, from what is in the file.
abbrev pub loaded : {A : Type 0} → Codec A → Option Bytes → Result A
loaded c none = err volume_does_not_exist
loaded c (some b) = as_value (c.decode b)

module _ {A : Type 0} (v : BaseVolume) (f : MetadataFile) (c : Codec A) where
  -- A store that meets no fault succeeds, and overwrites the start of its file.
  pub write_metadata_file_run :
      (a : A) (w : World) (d : Dir)
      → NoFaults w
      → node v.stage v.handle w ≡ some (directory d)
      → ((write_metadata_file v f c a w).0 ≡ ok tt)
        × (node v.stage v.handle (write_metadata_file v f c a w).1
            ≡ some (directory (rewritten f (c.encode a) d)))
  unfolding write_metadata_file
  write_metadata_file_run a w d nf e =
      let d' : Dir = set_content f (created (content f d)) d in
      let w' : World = set_node v.stage v.handle (directory d') (tick w) in
      rw (open_write_run v f w d nf e) (
        rw (write_run v f (c.encode a) w' d' nf (node-set_node_self v.stage v.handle _ (tick w))) (
          refl,
          rw (node-set_node_self v.stage v.handle _ (tick w'))
              (rw (rewritten-created v f (c.encode a) d)),
        ))

  pub read_metadata_file_run :
      (o : Option Bytes) (w : World) (d : Dir)
      → NoFaults w
      → node v.stage v.handle w ≡ some (directory d)
      → content f d ≡ o
      → (read_metadata_file v f c w).0 ≡ loaded c o
  unfolding read_metadata_file open_read get_dir call
  read_metadata_file_run none w d nf e h = rw (nf w.clock) (rw e (rw h))
  read_metadata_file_run (some b) w d nf e h = rw (nf w.clock) (rw e (rw h (rw (nf (w.clock + 1)))))

module _ {P : Places} (v : BaseVolume) (f : MetadataFile) where
  open_read-Keeps : Keeps P (open_read v f)
  unfolding open_read
  open_read-Keeps = search (frame_rules, get_dir-Keeps) depth 9

  decode_opened-Keeps : {A : Type 0} (c : Codec A) (r : Result Bytes) → Keeps P (decode_opened c r)
  decode_opened-Keeps c (ok b) = search frame_rules
  decode_opened-Keeps c (err e) = search frame_rules

  pub read_metadata_file-Keeps : {A : Type 0} (c : Codec A) → Keeps P (read_metadata_file v f c)
  unfolding read_metadata_file
  read_metadata_file-Keeps c = search (frame_rules, open_read-Keeps, decode_opened-Keeps) depth 9

  module _ (out : ¬ P v.stage v.handle) where
    open_write-Keeps : Keeps P (open_write v f)
    unfolding open_write
    open_write-Keeps = search (frame_rules, get_dir-Keeps, put_dir-Keeps) depth 9

    write-Keeps : (b : Bytes) → Keeps P (write v f b)
    unfolding write
    write-Keeps b = search (frame_rules, get_dir-Keeps, put_dir-Keeps) depth 9

    encode_opened-Keeps :
        {A : Type 0} (c : Codec A) (a : A) (r : Result Unit) → Keeps P (encode_opened v f c a r)
    encode_opened-Keeps c a (ok _) = write-Keeps (c.encode a)
    encode_opened-Keeps c a (err e) = search frame_rules

    pub write_metadata_file-Keeps :
        {A : Type 0} (c : Codec A) (a : A) → Keeps P (write_metadata_file v f c a)
    unfolding write_metadata_file
    write_metadata_file-Keeps c a =
        search (frame_rules, open_write-Keeps, encode_opened-Keeps) depth 9

-- A store can only succeed where there is a directory.
module _ {A : Type 0} (v : BaseVolume) (f : MetadataFile) (c : Codec A) (a : A) (w : World) where
  write_metadata_file_dir_at :
      (o : Option Node)
      → node v.stage v.handle w ≡ o
      → NoFaults w
      → (write_metadata_file v f c a w).0 ≡ ok tt
      → (d : Dir) × (o ≡ some (directory d))
  unfolding write_metadata_file open_write get_dir call
  write_metadata_file_dir_at none e nf h = absurd (cc (rw (nf w.clock) at (h)))
  write_metadata_file_dir_at (some regular) e nf h = absurd (cc (rw (nf w.clock) at (h)))
  write_metadata_file_dir_at (some (directory d)) e nf h = (d, refl)

  pub write_metadata_file_dir :
      NoFaults w
      → (write_metadata_file v f c a w).0 ≡ ok tt
      → (d : Dir) × (node v.stage v.handle w ≡ some (directory d))
  write_metadata_file_dir nf h = write_metadata_file_dir_at (node v.stage v.handle w) refl nf h

-- Properties that are stored are the properties that are loaded, though the file that is written
-- over may have been longer; and the flag of the volume loads as it did. No call fails.
module _ (json : Json) (v : BaseVolume) (p : Properties) (w : World) (d : Dir) where
  pub load-store_properties :
      IsJson json
      → NoFaults w
      → node v.stage v.handle w ≡ some (directory d)
      → (((store_properties json v p >> load_properties json v) w).0 ≡ ok p)
        × (((store_properties json v p >> load_privileged json v) w).0
            ≡ (load_privileged json v w).0)
  unfolding load_properties load_privileged store_properties
  load-store_properties laws nf e =
      let store = write_metadata_file v properties_json json.properties p in
      let kept =
        NoFaults-Keeps store w
          (write_metadata_file-Keeps v properties_json (λ x. x) json.properties p) nf in
      let (stored, at) = write_metadata_file_run v properties_json json.properties p w d nf e in
      let d' = rewritten properties_json (json.properties.encode p) d in
      (
        rw stored (
            read_metadata_file_run v properties_json json.properties _ (store w).1 d' kept at refl
            ∙ ap as_value (laws.properties_law.decode-encode p _)),
        rw stored (
            read_metadata_file_run v privileged_json json.flag d.privileged (store w).1 d' kept at
              refl
            ∙ sym (read_metadata_file_run v privileged_json json.flag d.privileged w d nf e refl)),
      )
