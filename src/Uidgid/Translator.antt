-- ===== src/Uidgid/Translator.antt =====
-- uidgid/translator.go: the owner of one file is mapped.
use baggageclaim.Prelude.{ℕ, ◌%◌, ◌||◌, not, nat_eq, if◌then◌else◌}
use baggageclaim.Disk.World.{File}
use baggageclaim.Disk.Action.{Action, Result, ok, err, pure, attempt, call, ◌>>=◌}
use baggageclaim.Uidgid.Mapper.{Mapper, map_ids}

-- os.Lchown gives a file away, which clears its set-user-id and set-group-id bits.
abbrev pub chowned : ℕ → ℕ → File → File
chowned uid gid f = record f { uid = uid; gid = gid; mode = f.mode % 0o2000 }

-- An error of chown or chmod is dropped.
abbrev pub after_chown : ℕ → ℕ → File → Result Unit → File
after_chown uid gid f (ok _) = chowned uid gid f
after_chown uid gid f (err _) = f

abbrev pub after_chmod : ℕ → File → Result Unit → File
after_chmod mode f (ok _) = record f { mode = mode }
after_chmod mode f (err _) = f

unfoldable pub restore_mode : ℕ → File → Action File
restore_mode mode f =
    if f.is_symlink then pure f else (do r ← attempt call; pure (after_chmod mode f r))

unfoldable pub chown_file : ℕ → ℕ → File → Action File
unfolding restore_mode
chown_file uid gid f = do r ← attempt call; restore_mode f.mode (after_chown uid gid f r)

-- `TranslatePath` for a file that the walk could look at
unfoldable pub translate_path : Mapper → File → Action File
unfolding chown_file
translate_path m f =
    let (to_uid, to_gid) = map_ids m f.uid f.gid in
    if not (nat_eq to_uid f.uid) || not (nat_eq to_gid f.gid)
    then chown_file to_uid to_gid f
    else pure f
